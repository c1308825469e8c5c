-- ===== src/Decoders/Zrle/Ends.antt =====
-- The loops of vncdotool/decoders/zrle.py, and the fuel that stands for them.
use awc_remote.Base.{
  ℕ, zero, suc, ◌+◌, ◌-◌, ◌*◌, ◌/◌, ◌%◌, ◌^◌, ◌≤◌, ◌<◌, ◌≡◌, ◌≢◌, refl, Bool, true, false, not,
  ◌&&◌, Bytes, List, [], ◌∷◌, ◌++◌, length, slice, get_or, repeat, ltb, leb, ◌==◌, has_bit,
  if◌then◌else◌, arith, take, ltb→lt,
}
use mathlib.Core.List.{flat_map}
use awc_remote.Failure.{Result, ok, err, decode_error, out_of_fuel, ◌>>>=◌}
use awc_remote.RectBuffer.{RectBuffer, blit, fill, in_bounds, is_whole}
use awc_remote.Client.{Rect}
use awc_remote.Decoders.Hextile.{tiles}
use awc_remote.Decoders.Zrle.{
  check, Source, take_at, byte_from, read_palette, run_tail, run_length, plain_run, palette_run,
  one_run, rle_pixels, rle_tile, raw_tile, index_bits, packed_rows, packed_tile, zrle_tile,
  zrle_tiles, tile_size, zrle_rect, any_set, undefined,
}

-- The computation returns a value that satisfies `P`, or refuses the data.
data Ends {A : Type 0} (P : A → Type 0) : Result A → Type 0 where
  returns : {a : A} → P a → Ends P (ok a)
  refuses : Ends P (err decode_error)

module _ {A : Type 0} {P : A → Type 0} where
  Ends-if :
      (b : Bool) {x y : Result A}
      → (b ≡ true → Ends P x)
      → (b ≡ false → Ends P y)
      → Ends P (if b then x else y)
  Ends-if true f g = f refl
  Ends-if false f g = g refl

  Ends-check : (bad : Bool) {r : Result A} → (bad ≡ false → Ends P r) → Ends P (check bad r)
  Ends-check bad h = Ends-if bad (λ _. refuses) h

  Ends-fuel : {r : Result A} → Ends P r → r ≢ err out_of_fuel
  Ends-fuel (returns h) = λ e. cc
  Ends-fuel refuses = λ e. cc

Ends-bind :
    {A B : Type 0} {P : A → Type 0} {Q : B → Type 0} {r : Result A} {f : A → Result B}
    → Ends P r
    → ((a : A) → P a → Ends Q (f a))
    → Ends Q (r >>>= f)
Ends-bind (returns {a} h) g = g a h
Ends-bind refuses g = refuses

abbrev Any : {A : Type 0} → A → Type 0
Any a = Unit {0}

module _ (s : Source) where
  abbrev Moved : ℕ → ℕ × ℕ → Type 0
  Moved pos r = (pos < length s.bytes) × (r.1 ≡ pos + 1)

  byte_from-Ends : (pos : ℕ) → Ends (Moved pos) (byte_from s pos)
  unfolding byte_from
  byte_from-Ends pos =
      Ends-if (leb (length s.bytes) pos) (λ _. refuses) (λ more. returns (ground arith, refl))

  take_at-Ends : (pos n : ℕ) → Ends Any (take_at s pos n)
  unfolding take_at
  take_at-Ends pos n = Ends-if (ltb (length s.bytes) (pos + n)) (λ _. refuses) (λ _. returns tt)

  run_tail-Ends :
      (fuel pos part sum : ℕ)
      → pos ≤ length s.bytes
      → length s.bytes < fuel + pos
      → Ends Any (run_tail fuel s pos part sum)
  unfolding run_tail
  run_tail-Ends zero pos part sum inside h = absurd (omega arith)
  run_tail-Ends (suc fuel) pos part sum inside h =
      Ends-if (part == 255)
        (λ _. Ends-bind (byte_from-Ends pos) (λ (next, after) m.
          run_tail-Ends fuel after next (sum + next) (omega (arith, m.0, m.1))
            (omega (arith, h, m.1))))
        (λ _. returns tt)

  abbrev IsRun : ℕ × ℕ → Type 0
  IsRun r = 1 ≤ r.0

  run_length-Ends : (pos : ℕ) → Ends IsRun (run_length s pos)
  unfolding run_length
  run_length-Ends pos = Ends-bind (byte_from-Ends pos) (λ (part, after) m.
      Ends-bind
        (run_tail-Ends (length s.bytes + 1) after part part (omega (arith, m.0, m.1)) (omega arith))
        (λ (sum, next) u. returns (omega arith)))

  -- A round of the loop adds a pixel at least.
  abbrev AddsPixels : Bytes × ℕ × ℕ → Type 0
  AddsPixels r = 1 ≤ r.1

  one_run-Ends : (palette : List Bytes) (pos : ℕ) → Ends AddsPixels (one_run s palette pos)
  unfolding plain_run palette_run
  one_run-Ends [] pos =
      Ends-bind (take_at-Ends pos s.cbytes)
        (λ (raw, after) u. Ends-bind (run_length-Ends after) (λ (run, next) h. returns h))
  one_run-Ends (p ∷ ps) pos = Ends-bind (byte_from-Ends pos) (λ (index, after) m.
      Ends-check (leb (length (p ∷ ps)) (index % 128)) (λ _.
        Ends-if (not (has_bit index 7)) (λ _. returns (omega arith))
          (λ _. Ends-bind (run_length-Ends after) (λ (run, next) h. returns h))))

  rle_pixels-Ends :
      (fuel : ℕ) (palette : List Bytes) (wanted pos : ℕ) (pixels : Bytes) (n : ℕ)
      → wanted ≤ fuel + n
      → Ends Any (rle_pixels fuel s palette wanted pos pixels n)
  unfolding rle_pixels
  rle_pixels-Ends zero palette wanted pos pixels n h =
      Ends-if (ltb n wanted) (λ less. absurd (omega (arith, h, ltb→lt n wanted less)))
        (λ _. returns tt)
  rle_pixels-Ends (suc fuel) palette wanted pos pixels n h =
      Ends-if (ltb n wanted)
        (λ _. Ends-bind (one_run-Ends palette pos) (λ (pixel, run, next) some_pixel.
          rle_pixels-Ends fuel palette wanted next (pixels ++ repeat run pixel) (n + run)
            (omega (arith, h, some_pixel))))
        (λ _. returns tt)

  packed_rows-Ends :
      (palette : List Bytes) (rows row_size width pos : ℕ) (pixels : Bytes)
      → Ends Any (packed_rows s palette rows row_size width pos pixels)
  unfolding packed_rows
  packed_rows-Ends palette zero row_size width pos pixels = returns tt
  packed_rows-Ends palette (suc rows) row_size width pos pixels =
      Ends-if
        (not (length palette == 2 ^ index_bits (length palette))
          && any_set (
              take width (
                flat_map (undefined palette (index_bits (length palette)))
                  (slice s.bytes pos row_size))))
        (λ _. refuses) (λ _. packed_rows-Ends palette rows row_size width _ _)

blit-Ends : (b : RectBuffer) (x y w h : ℕ) (pixels : Bytes) → Ends Any (blit b x y w h pixels)
unfolding blit
blit-Ends b x y w h pixels =
    Ends-if (is_whole b x y w h)
      (λ _. Ends-if (length pixels == b.nbytes) (λ _. returns tt) (λ _. refuses))
      (λ _.
        Ends-if (not (in_bounds b x y w h)) (λ _. refuses)
          (λ _. Ends-if (not (length pixels == w * h * b.bypp)) (λ _. refuses) (λ _. returns tt)))

fill-Ends : (b : RectBuffer) (x y w h : ℕ) (color : Bytes) → Ends Any (fill b x y w h color)
unfolding fill
fill-Ends b x y w h color =
    Ends-if (not (in_bounds b x y w h)) (λ _. refuses)
      (λ _. Ends-if (not (length color == b.bypp)) (λ _. refuses) (λ _. returns tt))

blitted-Ends :
    (b : RectBuffer) (tile : Rect) (pixels : Bytes) (next : ℕ)
    → Ends {A = RectBuffer × ℕ} Any
        (blit b tile.x tile.y tile.width tile.height pixels >>>= λ drawn. ok (drawn, next))
blitted-Ends b tile pixels next = Ends-bind (blit-Ends b _ _ _ _ _) (λ drawn u. returns tt)

read_palette-Ends : (s : Source) (pos size : ℕ) → Ends Any (read_palette s pos size)
unfolding read_palette
read_palette-Ends s pos size =
    Ends-bind (take_at-Ends s pos (size * s.cbytes)) (λ (raw, next) u. returns tt)

rle_tile-Ends :
    (s : Source) (palette : List Bytes) (tile : Rect) (pos : ℕ) (b : RectBuffer)
    → Ends Any (rle_tile s palette tile pos b)
unfolding rle_tile
rle_tile-Ends s palette tile pos b =
    Ends-bind
      (rle_pixels-Ends s (tile.width * tile.height) palette (tile.width * tile.height) pos [] 0
        (omega arith))
      (λ (pixels, n, next) u.
        Ends-check (not (n == tile.width * tile.height)) (λ _. blitted-Ends b tile pixels next))

raw_tile-Ends :
    (s : Source) (tile : Rect) (pos : ℕ) (b : RectBuffer) → Ends Any (raw_tile s tile pos b)
unfolding raw_tile
raw_tile-Ends s tile pos b =
    Ends-bind (take_at-Ends s pos (tile.width * tile.height * s.cbytes))
      (λ (raw, next) u. blitted-Ends b tile _ next)

packed_tile-Ends :
    (s : Source) (palette : List Bytes) (tile : Rect) (pos : ℕ) (b : RectBuffer)
    → Ends Any (packed_tile s palette tile pos b)
unfolding packed_tile
packed_tile-Ends s palette tile pos b =
    let per_byte = 8 / index_bits (length palette) in
    let row_size = (tile.width + per_byte - 1) / per_byte in
    Ends-check (ltb (length s.bytes) (pos + row_size * tile.height)) (λ _.
      Ends-bind (packed_rows-Ends s palette tile.height row_size tile.width pos [])
        (λ (pixels, next) u. blitted-Ends b tile pixels next))

zrle_tile-Ends :
    (s : Source) (tile : Rect) (pos : ℕ) (b : RectBuffer) → Ends Any (zrle_tile s tile pos b)
unfolding zrle_tile
zrle_tile-Ends s tile pos b = Ends-bind (byte_from-Ends s pos) (λ (subencoding, at) u.
    Ends-check (not (has_bit subencoding 7) && ltb 16 (subencoding % 128)) (λ _.
      Ends-bind (read_palette-Ends s at (subencoding % 128)) (λ (palette, next) v.
        Ends-if (has_bit subencoding 7) (λ _. rle_tile-Ends s palette tile next b)
          (λ _.
            Ends-if (subencoding % 128 == 0) (λ _. raw_tile-Ends s tile next b)
              (λ _.
                Ends-if (subencoding % 128 == 1)
                  (λ _.
                    Ends-bind
                      (fill-Ends b tile.x tile.y tile.width tile.height (get_or palette 0 []))
                      (λ drawn w. returns tt))
                  (λ _. packed_tile-Ends s palette tile next b))))))

zrle_tiles-Ends :
    (s : Source) (l : List Rect) (pos : ℕ) (b : RectBuffer) → Ends Any (zrle_tiles s l pos b)
unfolding zrle_tiles
zrle_tiles-Ends s [] pos b = returns tt
zrle_tiles-Ends s (tile ∷ rest) pos b =
    Ends-bind (zrle_tile-Ends s tile pos b) (λ (drawn, next) u. zrle_tiles-Ends s rest next drawn)

zrle_rect-Ends : (s : Source) (target : RectBuffer) → Ends Any (zrle_rect s target)
unfolding zrle_rect
zrle_rect-Ends s target =
    Ends-bind (zrle_tiles-Ends s (tiles tile_size target.width target.height) 0 target)
      (λ (drawn, pos) u. Ends-check (not (pos == length s.bytes)) (λ _. returns tt))

-- Whatever the data of a rectangle, its decoding ends: the loops never run out of their fuel, so it
-- returns or refuses the data.
pub zrle_rect-out_of_fuel :
    (s : Source) (target : RectBuffer) → zrle_rect s target ≢ err out_of_fuel
zrle_rect-out_of_fuel s target = Ends-fuel {P = Any} (zrle_rect-Ends s target)
