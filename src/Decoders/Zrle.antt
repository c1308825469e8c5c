-- ===== src/Decoders/Zrle.antt =====
-- vncdotool/decoders/zrle.py: one zlib stream, tiles of 64 pixels, palettes and run lengths.
pub mod Ends
use awc_remote.Base.{
  ℕ, zero, suc, ◌+◌, ◌-◌, ◌*◌, ◌/◌, ◌%◌, ◌^◌, Bool, false, not, ◌&&◌, ◌||◌, Bytes, none, some, List,
  [], ◌∷◌, ◌++◌, length, take, slice, repeat, replicate, splice, count_up, map, byte_at, get_or,
  u32_at, ltb, leb, ◌==◌, has_bit, if◌then◌else◌,
}
use mathlib.Core.List.{flat_map}
use awc_remote.Failure.{Result, ok, err, decode_error, zlib_error, out_of_fuel, ◌>>>=◌}
use awc_remote.PixelFormat.{PixelFormat, cpixel_bytes, cpixel_offset}
use awc_remote.RectBuffer.{RectBuffer, blit, fill}
use awc_remote.Generator.{Gen, raise, look, change, ◌>>=◌, read, lift}
use awc_remote.Client.{Client, Rect, Library}
use awc_remote.Decoders.Base.{Outcome, decode_into}
use awc_remote.Decoders.Hextile.{tiles}

abbrev pub check : {B : Type 0} → Bool → Result B → Result B
check bad r = if bad then err decode_error else r

-- `_expand_cpixels`: each CPIXEL at its offset in a pixel of zeros.
unfoldable pub expand_cpixels : Bytes → ℕ → ℕ → ℕ → ℕ → Bytes
expand_cpixels raw count cbytes bypp coffset =
    if cbytes == bypp
    then raw
    else flat_map (λ i. splice coffset (slice raw (i * cbytes) cbytes) (replicate bypp 0))
        (count_up 0 count)

-- The indices that a byte of a packed row holds, first in the high bits.
unfoldable pub packed_indices : ℕ → ℕ → List ℕ
packed_indices bits byte =
    map (λ slot. byte / 2 ^ (8 - bits - slot * bits) % 2 ^ bits) (count_up 0 (8 / bits))

-- `_index_tables`, as functions of the byte.
unfoldable pub expanded : List Bytes → ℕ → ℕ → Bytes
unfolding packed_indices
expanded palette bits byte =
    flat_map (λ i. get_or palette i (replicate (length (get_or palette 0 [])) 0))
      (packed_indices bits byte)

unfoldable pub undefined : List Bytes → ℕ → ℕ → List ℕ
unfolding packed_indices
undefined palette bits byte =
    map (λ i. if ltb i (length palette) then 0 else 1) (packed_indices bits byte)

abbrev pub any_set : List ℕ → Bool
any_set [] = false
any_set (b ∷ bs) = not (b == 0) || any_set bs

-- What one rectangle knows of its format, and the data of its tiles.
pub record Source : Type 0 where
  pub bytes : Bytes
  pub cbytes : ℕ
  pub coffset : ℕ
  pub bypp : ℕ

-- A read of `n` bytes at `pos`, refused past the end of the data.
unfoldable pub take_at : Source → ℕ → ℕ → Result (Bytes × ℕ)
take_at s pos n =
    if ltb (length s.bytes) (pos + n) then err decode_error else ok (slice s.bytes pos n, pos + n)

unfoldable pub byte_from : Source → ℕ → Result (ℕ × ℕ)
byte_from s pos =
    if leb (length s.bytes) pos then err decode_error else ok (byte_at s.bytes pos, pos + 1)

-- The palette of a tile, of `size` entries.
unfoldable pub read_palette : Source → ℕ → ℕ → Result (List Bytes × ℕ)
unfolding take_at expand_cpixels
read_palette s pos size = take_at s pos (size * s.cbytes) >>>= λ (raw, next).
    let flat = expand_cpixels raw size s.cbytes s.bypp s.coffset in
    ok (map (λ i. slice flat (i * s.bypp) s.bypp) (count_up 0 size), next)

-- `while part == 255`, from the sum so far. Each round takes a byte, so the data bounds the rounds.
unfoldable pub run_tail : ℕ → Source → ℕ → ℕ → ℕ → Result (ℕ × ℕ)
unfolding byte_from
run_tail zero s pos part sum = err out_of_fuel
run_tail (suc fuel) s pos part sum =
    let more : Result (ℕ × ℕ) =
      (byte_from s pos >>>= λ (next, after). run_tail fuel s after next (sum + next)) in
    if part == 255 then more else ok (sum, pos)

-- The length of a run, one more than the bytes sum to.
unfoldable pub run_length : Source → ℕ → Result (ℕ × ℕ)
unfolding byte_from run_tail
run_length s pos = byte_from s pos >>>= λ (part, after).
    run_tail (length s.bytes + 1) s after part part >>>= λ (sum, next). ok (sum + 1, next)

-- The pixels and the run of one round of the RLE loop.
unfoldable pub plain_run : Source → ℕ → Result (Bytes × ℕ × ℕ)
unfolding take_at expand_cpixels run_length
plain_run s pos = take_at s pos s.cbytes >>>= λ (raw, after). run_length s after >>>= λ (run, next).
    ok (expand_cpixels raw 1 s.cbytes s.bypp s.coffset, run, next)

unfoldable pub palette_run : Source → List Bytes → ℕ → Result (Bytes × ℕ × ℕ)
unfolding byte_from run_length
palette_run s palette pos = byte_from s pos >>>= λ (index, after).
    check (leb (length palette) (index % 128)) (
      let pixel = get_or palette (index % 128) [] in
      if not (has_bit index 7)
      then ok (pixel, 1, after)
      else run_length s after >>>= λ (run, next). ok (pixel, run, next))

abbrev pub one_run : Source → List Bytes → ℕ → Result (Bytes × ℕ × ℕ)
one_run s [] pos = plain_run s pos
one_run s (p ∷ ps) pos = palette_run s (p ∷ ps) pos

-- `while num_pixels < pixels_in_tile`. Each round adds a pixel, so the tile bounds the rounds.
unfoldable pub rle_pixels : ℕ → Source → List Bytes → ℕ → ℕ → Bytes → ℕ → Result (Bytes × ℕ × ℕ)
unfolding plain_run palette_run
rle_pixels zero s palette wanted pos pixels n =
    if ltb n wanted then err out_of_fuel else ok (pixels, n, pos)
rle_pixels (suc fuel) s palette wanted pos pixels n =
    let more : Result (Bytes × ℕ × ℕ) =
      (one_run s palette pos >>>= λ (pixel, run, next).
      rle_pixels fuel s palette wanted next (pixels ++ repeat run pixel) (n + run)) in
    if ltb n wanted then more else ok (pixels, n, pos)

unfoldable pub rle_tile : Source → List Bytes → Rect → ℕ → RectBuffer → Result (RectBuffer × ℕ)
unfolding rle_pixels
rle_tile s palette tile pos target =
    let wanted = tile.width * tile.height in
    rle_pixels wanted s palette wanted pos [] 0 >>>= λ (pixels, n, next).
    check (not (n == wanted))
      (blit target tile.x tile.y tile.width tile.height pixels >>>= λ drawn. ok (drawn, next))

unfoldable pub raw_tile : Source → Rect → ℕ → RectBuffer → Result (RectBuffer × ℕ)
unfolding take_at expand_cpixels
raw_tile s tile pos target =
    let wanted = tile.width * tile.height in
    take_at s pos (wanted * s.cbytes) >>>= λ (raw, next).
    blit target tile.x tile.y tile.width tile.height
      (expand_cpixels raw wanted s.cbytes s.bypp s.coffset)
    >>>= λ drawn. ok (drawn, next)

abbrev pub index_bits : ℕ → ℕ
index_bits size = if size == 2 then 1 else if leb size 4 then 2 else 4

-- The rows of a packed tile; `rows` are left.
unfoldable pub packed_rows : Source → List Bytes → ℕ → ℕ → ℕ → ℕ → Bytes → Result (Bytes × ℕ)
unfolding expanded undefined
packed_rows s palette zero row_size width pos pixels = ok (pixels, pos)
packed_rows s palette (suc rows) row_size width pos pixels =
    let bits = index_bits (length palette) in
    let packed = slice s.bytes pos row_size in
    let bad = any_set (take width (flat_map (undefined palette bits) packed)) in
    let row = take (width * s.bypp) (flat_map (expanded palette bits) packed) in
    let rest = packed_rows s palette rows row_size width (pos + row_size) (pixels ++ row) in
    if not (length palette == 2 ^ bits) && bad then err decode_error else rest

unfoldable pub packed_tile : Source → List Bytes → Rect → ℕ → RectBuffer → Result (RectBuffer × ℕ)
unfolding packed_rows
packed_tile s palette tile pos target =
    let per_byte = 8 / index_bits (length palette) in
    let row_size = (tile.width + per_byte - 1) / per_byte in
    check (ltb (length s.bytes) (pos + row_size * tile.height)) (
      packed_rows s palette tile.height row_size tile.width pos [] >>>= λ (pixels, next).
      blit target tile.x tile.y tile.width tile.height pixels >>>= λ drawn. ok (drawn, next))

-- One tile, from its subencoding byte.
unfoldable pub zrle_tile : Source → Rect → ℕ → RectBuffer → Result (RectBuffer × ℕ)
unfolding byte_from read_palette rle_tile raw_tile packed_tile
zrle_tile s tile pos target = byte_from s pos >>>= λ (subencoding, at).
    let size = subencoding % 128 in
    check (not (has_bit subencoding 7) && ltb 16 size) (
      read_palette s at size >>>= λ (palette, next).
      if has_bit subencoding 7
      then rle_tile s palette tile next target
      else if size == 0
      then raw_tile s tile next target
      else if size == 1
      then (fill target tile.x tile.y tile.width tile.height (get_or palette 0 []) >>>= λ drawn.
          ok (drawn, next))
      else packed_tile s palette tile next target)

unfoldable pub zrle_tiles : Source → List Rect → ℕ → RectBuffer → Result (RectBuffer × ℕ)
unfolding zrle_tile
zrle_tiles s [] pos target = ok (target, pos)
zrle_tiles s (tile ∷ rest) pos target =
    zrle_tile s tile pos target >>>= λ (drawn, next). zrle_tiles s rest next drawn

abbrev pub tile_size : ℕ
tile_size = 64

-- A rectangle's tiles use up its data exactly.
unfoldable pub zrle_rect : Source → RectBuffer → Result RectBuffer
unfolding zrle_tiles tiles
zrle_rect s target =
    zrle_tiles s (tiles tile_size target.width target.height) 0 target >>>= λ (drawn, pos).
    check (not (pos == length s.bytes)) (ok drawn)

unfoldable pub zrle_pixels : Library → RectBuffer → PixelFormat → Gen Client RectBuffer
unfolding zrle_rect
zrle_pixels lib target format = do
  length_block ← read 4
  block ← read (u32_at length_block 0)
  look (λ c. elim (lib.decompress c.zlib_stream block 0) [
    | none ↦ raise zlib_error
    | some got ↦
        change (λ d. record d { zlib_stream = d.zlib_stream ++ (block, 0) ∷ [] })
          (lift (
            zrle_rect
              (record {
                bytes = got.output;
                cbytes = cpixel_bytes format;
                coffset = cpixel_offset format;
                bypp = target.bypp;
              })
              target))
  ])

unfoldable pub zrle_decode : Library → Rect → PixelFormat → Gen Client Outcome
unfolding decode_into zrle_pixels
zrle_decode lib = decode_into (zrle_pixels lib)
