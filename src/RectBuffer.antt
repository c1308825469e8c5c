-- ===== src/RectBuffer.antt =====
-- vncdotool/decoders/buffer.py: the buffer of one rectangle, over a backing that the rectangles
-- of a connection share. The record is the object, and `backing` is the shared bytearray's content.
pub mod Rows
pub mod Bounds
pub mod Reached
pub mod Shown
pub mod Pixels
pub mod Fills
use awc_remote.Base.{
  ℕ, zero, suc, ◌+◌, ◌*◌, ◌≤◌, Bool, true, false, not, ◌&&◌, ◌||◌, Option, none, some, List, [],
  ◌∷◌, ◌++◌, Bytes, length, take, drop, replicate, repeat, splice, ltb, ◌==◌, if◌then◌else◌,
}
use awc_remote.Failure.{Result, ok, err, decode_error, value_error}

pub record RectBuffer : Type 0 where
  pub width : ℕ
  pub height : ℕ
  pub bypp : ℕ
  pub backing : Bytes
  pub nbytes : ℕ
  pub whole : Option Bytes
  pub covered : Bool

-- `RectBuffer(width, height, bypp, backing)` with a backing given.
unfoldable pub init : ℕ → ℕ → ℕ → Bytes → Result RectBuffer
init width height bypp backing =
    let needed = width * height * bypp in
    if ltb (length backing) needed
    then err value_error
    else ok (record {
      width = width;
      height = height;
      bypp = bypp;
      backing = backing;
      nbytes = needed;
      whole = none;
      covered = false;
    })

-- `_check_bounds`: coordinates off the wire are never negative.
unfoldable pub in_bounds : RectBuffer → ℕ → ℕ → ℕ → ℕ → Bool
in_bounds b x y w h = not (ltb b.width (x + w) || ltb b.height (y + h))

unfoldable pub is_whole : RectBuffer → ℕ → ℕ → ℕ → ℕ → Bool
is_whole b x y w h = x == 0 && (y == 0 && (w == b.width && h == b.height))

unfoldable pub put_back : RectBuffer → Option Bytes → RectBuffer
put_back b none = b
put_back b (some pixels) = record b { backing = splice 0 pixels b.backing; whole = none }

unfoldable pub materialize : RectBuffer → RectBuffer
unfolding put_back
materialize b = put_back b b.whole

unfoldable pub clear : RectBuffer → RectBuffer
clear b =
    if b.covered
    then b
    else record b { backing = splice 0 (replicate b.nbytes 0) b.backing; covered = true }

-- The loop of `blit`: `rows` rows from `y` down, each with the next `row_bytes` of the pixels.
unfoldable pub blit_rows : ℕ → ℕ → ℕ → ℕ → ℕ → Bytes → Bytes → Bytes
blit_rows zero y stride x_off row_bytes pixels buf = buf
blit_rows (suc rows) y stride x_off row_bytes pixels buf =
    blit_rows rows (y + 1) stride x_off row_bytes (drop row_bytes pixels)
      (splice (y * stride + x_off) (take row_bytes pixels) buf)

unfoldable pub blit_backing : RectBuffer → ℕ → ℕ → ℕ → ℕ → Bytes → Bytes
unfolding blit_rows
blit_backing b x y w h pixels =
    if x == 0 && w == b.width
    then splice (y * (b.width * b.bypp)) pixels b.backing
    else blit_rows h y (b.width * b.bypp) (x * b.bypp) (w * b.bypp) pixels b.backing

unfoldable pub blit : RectBuffer → ℕ → ℕ → ℕ → ℕ → Bytes → Result RectBuffer
unfolding is_whole in_bounds
blit b x y w h pixels =
    if is_whole b x y w h
    then (if length pixels == b.nbytes
        then ok (record b { whole = some pixels; covered = true })
        else err decode_error)
    else if not (in_bounds b x y w h)
    then err decode_error
    else if not (length pixels == w * h * b.bypp)
    then err decode_error
    else let c = clear (materialize b) in ok (record c { backing = blit_backing c x y w h pixels })

-- The loop of `fill`: the same row `h` times.
unfoldable pub fill_rows : ℕ → ℕ → ℕ → ℕ → Bytes → Bytes → Bytes
fill_rows zero y stride x_off row buf = buf
fill_rows (suc rows) y stride x_off row buf =
    fill_rows rows (y + 1) stride x_off row (splice (y * stride + x_off) row buf)

unfoldable pub fill_backing : RectBuffer → ℕ → ℕ → ℕ → ℕ → Bytes → Bytes
unfolding fill_rows
fill_backing b x y w h color =
    if x == 0 && w == b.width
    then splice (y * (b.width * b.bypp)) (repeat h (repeat w color)) b.backing
    else fill_rows h y (b.width * b.bypp) (x * b.bypp) (repeat w color) b.backing

unfoldable pub fill : RectBuffer → ℕ → ℕ → ℕ → ℕ → Bytes → Result RectBuffer
unfolding is_whole in_bounds
fill b x y w h color =
    if not (in_bounds b x y w h)
    then err decode_error
    else if not (length color == b.bypp)
    then err decode_error
    else let m = materialize b in
      let c = (if is_whole b x y w h then m else clear m) in
      ok (record c { covered = true; backing = fill_backing c x y w h color })

unfoldable pub tobytes : RectBuffer → Bytes
tobytes b = elim b.whole [ none ↦ take b.nbytes b.backing | some pixels ↦ pixels ]
