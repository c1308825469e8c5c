-- ===== src/Examples/Buffers.antt =====
-- A rectangle of two by two pixels of one byte (vncdotool/decoders/buffer.py).
use awc_remote.Base.{◌≡◌, refl, true, false, none, [], ◌∷◌, length, get_or, arith, splice}
use awc_remote.RectBuffer.{
  RectBuffer, init, blit, blit_backing, blit_rows, fill, fill_backing, fill_rows, clear,
  materialize, put_back, tobytes,
}
use awc_remote.RectBuffer.Bounds.{IsValid}
use awc_remote.RectBuffer.Reached.{Reached, made, blitted, Reached-IsValid}
use awc_remote.RectBuffer.Pixels.{blit-tobytes}
use awc_remote.RectBuffer.Shown.{shown}
use awc_remote.RectBuffer.Fills.{fill-tobytes}

-- Over a backing that still holds an earlier rectangle.
abbrev reused : RectBuffer
reused = record {
  width = 2;
  height = 2;
  bypp = 1;
  backing = 9 ∷ 9 ∷ 9 ∷ 9 ∷ [];
  nbytes = 4;
  whole = none;
  covered = false;
}

reused-IsValid : IsValid reused
reused-IsValid = record { size = refl; room = omega arith; held = tt }

-- The right column drawn, and the lower right pixel filled.
abbrev column : RectBuffer
column = record reused { backing = 0 ∷ 7 ∷ 0 ∷ 8 ∷ []; covered = true }

abbrev corner : RectBuffer
corner = record reused { backing = 0 ∷ 0 ∷ 0 ∷ 5 ∷ []; covered = true }

blit_column : get_or (tobytes column) 3 0 ≡ 8
unfolding blit blit_backing blit_rows clear materialize put_back splice tobytes
blit_column =
    blit-tobytes reused 1 0 1 2 (7 ∷ 8 ∷ []) reused-IsValid refl 1 1 0 (omega arith) (omega arith)
      (omega arith)

fill_corner : get_or (tobytes corner) 0 0 ≡ 0
unfolding fill fill_backing fill_rows clear materialize put_back splice tobytes shown
fill_corner =
    fill-tobytes reused 1 1 1 1 (5 ∷ []) reused-IsValid refl 0 0 0 (omega arith) (omega arith)
      (omega arith)

abbrev reached_column : Reached column
unfolding init blit blit_backing blit_rows clear materialize put_back splice tobytes shown
reached_column =
    blitted reused 1 0 1 2 (7 ∷ 8 ∷ []) column (made 2 2 1 (9 ∷ 9 ∷ 9 ∷ 9 ∷ []) reused refl) refl

column-IsValid : IsValid column × (length (tobytes column) ≡ 4)
column-IsValid = Reached-IsValid column reached_column
