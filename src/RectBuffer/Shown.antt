-- ===== src/RectBuffer/Shown.antt =====
-- What a rectangle's buffer holds once stale bytes count as 0 (vncdotool/decoders/buffer.py).
use awc_remote.Base.{
  ℕ, zero, ◌+◌, ◌*◌, ◌<◌, ◌≡◌, refl, Bool, true, false, Option, none, some, Bytes, replicate,
  get_or, get_or-splice, get_or-replicate, length-replicate, arith,
}
use awc_remote.RectBuffer.{RectBuffer, materialize, clear, put_back}
use awc_remote.RectBuffer.Bounds.{IsValid, Fits, prepare}

-- The byte at an offset as the rectangle stands: 0 where the backing is still stale.
abbrev pub shown_of : Option Bytes → Bool → Bytes → ℕ → ℕ
shown_of (some pixels) covered backing i = get_or pixels i 0
shown_of none true backing i = get_or backing i 0
shown_of none false backing i = 0

unfoldable pub shown : RectBuffer → ℕ → ℕ
shown b i = shown_of b.whole b.covered b.backing i

-- Byte `j` of the pixel in column `px` and row `py`.
abbrev pub pixel_offset : RectBuffer → ℕ → ℕ → ℕ → ℕ
pixel_offset b px py j = py * (b.width * b.bypp) + (px * b.bypp + j)

pub cleared :
    (b : RectBuffer) (i : ℕ)
    → IsValid b
    → b.whole ≡ none
    → i < b.nbytes
    → get_or (clear b).backing i 0 ≡ shown_of none b.covered b.backing i
unfolding clear
cleared b i v e lt = ground (
  arith,
  get_or-splice 0 (replicate b.nbytes zero) b.backing i 0,
  get_or-replicate b.nbytes zero i 0,
  length-replicate b.nbytes zero,
)

pub restored :
    (b : RectBuffer) (o : Option Bytes) (i : ℕ)
    → IsValid b
    → Fits o b.nbytes b.covered
    → b.whole ≡ o
    → i < b.nbytes
    → get_or (clear (put_back b o)).backing i 0 ≡ shown_of o b.covered b.backing i
unfolding put_back
restored b none i v f e lt = cleared b i v e lt
restored b (some p) i v f e lt =
    unfold clear in ground (arith, v.room, get_or-splice 0 p b.backing i 0)

-- Clearing and writing back show what the buffer showed.
pub prepare-shown :
    (b : RectBuffer) (i : ℕ) → IsValid b → i < b.nbytes → get_or (prepare b).backing i 0 ≡ shown b i
unfolding materialize shown
prepare-shown b i v lt = restored b b.whole i v v.held refl lt
