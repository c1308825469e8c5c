-- ===== src/Decoders/Sizes/Buffers.antt =====
-- The size of the buffers that decoders draw into (vncdotool/decoders/base.py and buffer.py).
use mathlib.Core.Path.{subst}
use awc_remote.Base.{ℕ, ◌*◌, ◌≡◌, refl, sym, ◌∙◌, not, Bytes, length, ltb, arith}
use awc_remote.Failure.{
  Guarantees, Guarantees-weaken, Guarantees-if, returns, raises, decode_error, value_error,
}
use awc_remote.PixelFormat.{PixelFormat, bypp}
use awc_remote.RectBuffer
use awc_remote.RectBuffer.{RectBuffer, blit, fill, tobytes}
use awc_remote.RectBuffer.Bounds.{IsValid, Keeps, blit-Keeps, fill-Keeps, length-tobytes}
use awc_remote.Generator.{Gen}
use awc_remote.Generator.Ensures.{
  Ensures, gives, looks, stops, Ensures-if, Ensures-bind, Ensures-lift, Ensures-modify,
}
use awc_remote.Client.{Client, Rect}
use awc_remote.Decoders.Base.{decode_into, rect_buffer, require_fits, fits_screen, enough_backing}
use awc_remote.Decoders.Sizes.{IsSized, HasPixels}

pub record IsBuffer (w h p : ℕ) (b : RectBuffer) : Type 0 where
  pub valid : IsValid b
  pub width : b.width ≡ w
  pub height : b.height ≡ h
  pub bypp : b.bypp ≡ p

module _ {w h p : ℕ} where
  kept : (b : RectBuffer) → IsBuffer w h p b → (c : RectBuffer) → Keeps b c → IsBuffer w h p c
  kept b i c (valid, shape) = record {
    valid = valid;
    width = shape.width ∙ i.width;
    height = shape.height ∙ i.height;
    bypp = shape.bypp ∙ i.bypp;
  }

  pub blit-IsBuffer :
      (b : RectBuffer) (x y bw bh : ℕ) (pixels : Bytes)
      → IsBuffer w h p b
      → Guarantees (IsBuffer w h p) (blit b x y bw bh pixels)
  blit-IsBuffer b x y bw bh pixels i =
      Guarantees-weaken (blit-Keeps b x y bw bh pixels i.valid) (kept b i)

  pub fill-IsBuffer :
      (b : RectBuffer) (x y bw bh : ℕ) (color : Bytes)
      → IsBuffer w h p b
      → Guarantees (IsBuffer w h p) (fill b x y bw bh color)
  fill-IsBuffer b x y bw bh color i =
      Guarantees-weaken (fill-Keeps b x y bw bh color i.valid) (kept b i)

  pub length-IsBuffer : (b : RectBuffer) → IsBuffer w h p b → length (tobytes b) ≡ w * h * p
  length-IsBuffer b i = length-tobytes b i.valid ∙ i.valid.size ∙ cc (i.width, i.height, i.bypp)

init-IsBuffer :
    (w h p : ℕ) (backing : Bytes) → Guarantees (IsBuffer w h p) (RectBuffer.init w h p backing)
unfolding RectBuffer.init
init-IsBuffer w h p backing =
    Guarantees-if (ltb (length backing) (w * h * p)) (λ _. raises value_error)
      (λ room. returns (record {
        valid = record { size = refl; room = ground arith; held = tt };
        width = refl;
        height = refl;
        bypp = refl;
      }))

pub require_fits-Ensures :
    {I : Client → Type 0} (w h : ℕ) → Ensures I (λ _. Unit {0}) (require_fits w h)
unfolding require_fits
require_fits-Ensures w h =
    looks (λ c i. Ensures-if (not (fits_screen c w h)) (λ _. stops decode_error) (λ _. gives tt))

rect_buffer-IsBuffer : (w h n : ℕ) → Ensures (HasPixels n) (IsBuffer w h n) (rect_buffer w h)
unfolding rect_buffer
rect_buffer-IsBuffer w h n = Ensures-bind (require_fits-Ensures w h) (λ u t. looks (λ c same.
    Ensures-lift (
      subst
        (λ p.
          Guarantees (IsBuffer w h n)
            (RectBuffer.init w h p (enough_backing c.rect_backing (w * h * p))))
        (sym same) (init-IsBuffer w h n (enough_backing c.rect_backing (w * h * n))))))

-- A decoder that draws into the buffer and keeps its size returns the rectangle's bytes.
pub decode_into-IsSized :
    (draw : RectBuffer → PixelFormat → Gen Client RectBuffer) (rect : Rect) (format : PixelFormat)
    → ((b : RectBuffer)
        → IsBuffer rect.width rect.height (bypp format) b
        → Ensures
            (HasPixels (bypp format))
            (IsBuffer rect.width rect.height (bypp format))
            (draw b format))
    → IsSized rect format (decode_into draw rect format)
unfolding IsSized decode_into
decode_into-IsSized draw rect format keeps =
    Ensures-bind (rect_buffer-IsBuffer rect.width rect.height (bypp format)) (λ target i.
      Ensures-bind (keeps target i)
        (λ drawn j. Ensures-modify _ (λ c h. h) (gives (length-IsBuffer drawn j))))
