-- ===== src/Decoders/Hextile.antt =====
-- vncdotool/decoders/hextile.py.
use awc_remote.Base.{
  ℕ, ◌+◌, ◌-◌, ◌*◌, ◌/◌, ◌%◌, min, Bool, true, false, not, ◌&&◌, ◌||◌, Bytes, List, [], ◌∷◌, length,
  take, slice, range_step, map, byte_at, ltb, ◌==◌, has_bit, if◌then◌else◌,
}
use mathlib.Core.List.{flat_map}
use awc_remote.Failure.{Result, err, decode_error, fold_ok}
use awc_remote.PixelFormat.{PixelFormat}
use awc_remote.RectBuffer.{RectBuffer, fill, blit}
use awc_remote.Generator.{Gen, done, ◌>>=◌, ◌>>◌, read, read_some, lift, raise_if}
use awc_remote.Client.{Client, Rect}
use awc_remote.Decoders.Base.{Outcome, decode_into}

-- The rectangles (tx, ty, tw, th) of the two loops, row by row.
unfoldable pub tiles : ℕ → ℕ → ℕ → List Rect
tiles tile width height =
    flat_map
      (λ ty.
        map
          (λ tx. record {
            x = tx;
            y = ty;
            width = min tile (width - tx);
            height = min tile (height - ty);
          })
          (range_step width tile))
      (range_step height tile)

-- `background` and `foreground` are empty where the next tile may not rely on them.
pub record Canvas : Type 0 where
  pub target : RectBuffer
  pub background : Bytes
  pub foreground : Bytes

abbrev pub is_empty : Bytes → Bool
is_empty [] = true
is_empty (b ∷ bs) = false

-- One round of the loop over the subrectangles of a tile.
unfoldable pub tile_subrect : ℕ → Rect → Bool → Bytes → Bytes → RectBuffer → ℕ → Result RectBuffer
tile_subrect bypp tile coloured foreground block target offset =
    let colour = (if coloured then slice block offset bypp else foreground) in
    let at = (if coloured then offset + bypp else offset) in
    let xy = byte_at block at in
    let wh = byte_at block (at + 1) in
    let sx = xy / 16 in
    let sy = xy % 16 in
    let sw = wh / 16 + 1 in
    let sh = wh % 16 + 1 in
    if ltb tile.width (sx + sw) || ltb tile.height (sy + sh)
    then err decode_error
    else fill target (tile.x + sx) (tile.y + sy) sw sh colour

-- A tile with the AnySubrects bit, once its count is read.
unfoldable pub tile_subrects : ℕ → Rect → Bool → ℕ → Canvas → Gen Client Canvas
unfolding tile_subrect
tile_subrects bypp tile coloured count c = do
  raise_if (not (count == 0) && (not coloured && is_empty c.foreground)) decode_error
  let size = (if coloured then bypp + 2 else 2)
  block ← read (size * count)
  drawn ← lift (
      fold_ok (tile_subrect bypp tile coloured c.foreground block) c.target
        (range_step (length block) size))
  done (record c { target = drawn; foreground = if coloured then [] else c.foreground })

abbrev pub amount : Bool → ℕ → ℕ
amount b n = if b then n else 0

-- A tile that is not Raw: its colours, the fill of its background, and its subrectangles.
unfoldable pub coded_tile : ℕ → Rect → ℕ → Canvas → Gen Client Canvas
unfolding tile_subrects
coded_tile bypp tile subencoding c = do
  let has_background = has_bit subencoding 1
  let has_foreground = has_bit subencoding 2
  let has_subrects = has_bit subencoding 3
  block ←
      read_some (amount has_background bypp + amount has_foreground bypp + amount has_subrects 1)
  let background = (if has_background then take bypp block else c.background)
  let pos = amount has_background bypp
  raise_if (is_empty background) decode_error
  drawn ← lift (fill c.target tile.x tile.y tile.width tile.height background)
  let foreground = (if has_foreground then slice block pos bypp else c.foreground)
  let next : Canvas = record { target = drawn; background = background; foreground = foreground }
  if not has_subrects
      then done next
      else tile_subrects bypp tile (has_bit subencoding 4)
          (byte_at block (pos + amount has_foreground bypp)) next

unfoldable pub one_tile : ℕ → Rect → Canvas → Gen Client Canvas
unfolding coded_tile
one_tile bypp tile c = do
  head ← read 1
  let subencoding = byte_at head 0
  if has_bit subencoding 0
      then (do
        pixels ← read (tile.width * tile.height * bypp)
        drawn ← lift (blit c.target tile.x tile.y tile.width tile.height pixels)
        done (record { target = drawn; background = []; foreground = [] }))
      else coded_tile bypp tile subencoding c

unfoldable pub all_tiles : ℕ → List Rect → Canvas → Gen Client Canvas
unfolding one_tile
all_tiles bypp [] c = done c
all_tiles bypp (tile ∷ rest) c = one_tile bypp tile c >>= all_tiles bypp rest

unfoldable pub hextile_pixels : RectBuffer → PixelFormat → Gen Client RectBuffer
unfolding all_tiles tiles
hextile_pixels target format = do
  c ←
      all_tiles target.bypp (tiles 16 target.width target.height)
        (record { target = target; background = []; foreground = [] })
  done c.target

unfoldable pub hextile_decode : Rect → PixelFormat → Gen Client Outcome
unfolding decode_into hextile_pixels
hextile_decode = decode_into hextile_pixels
