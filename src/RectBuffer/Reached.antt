-- ===== src/RectBuffer/Reached.antt =====
-- What a decoder can make of a rectangle's buffer (vncdotool/decoders/buffer.py) by the operations that are accepted.
use awc_remote.Base.{ℕ, ◌*◌, ◌≡◌, ◌∙◌, Bytes, length}
use awc_remote.Failure.{ok}
use awc_remote.RectBuffer.{RectBuffer, init, blit, fill, clear, materialize, tobytes}
use awc_remote.RectBuffer.Bounds.{
  IsValid, blit-IsValid, fill-IsValid, init-IsValid, clear-IsValid, materialize-IsValid,
  length-tobytes,
}

-- The buffers that the operations make, in any order and number.
pub data Reached : RectBuffer → Type 0 where
  made : (w h p : ℕ) (backing : Bytes) (b : RectBuffer) → init w h p backing ≡ ok b → Reached b
  blitted :
      (b : RectBuffer) (x y w h : ℕ) (pixels : Bytes) (c : RectBuffer)
      → Reached b
      → blit b x y w h pixels ≡ ok c
      → Reached c
  filled :
      (b : RectBuffer) (x y w h : ℕ) (color : Bytes) (c : RectBuffer)
      → Reached b
      → fill b x y w h color ≡ ok c
      → Reached c
  cleared : (b : RectBuffer) → Reached b → Reached (clear b)
  materialized : (b : RectBuffer) → Reached b → Reached (materialize b)

reached-IsValid : (b : RectBuffer) → Reached b → IsValid b
reached-IsValid _ (made w h p backing b e) = init-IsValid w h p backing e
reached-IsValid _ (blitted b x y w h pixels c r e) =
    (blit-IsValid b x y w h pixels (reached-IsValid b r) e).0
reached-IsValid _ (filled b x y w h color c r e) =
    (fill-IsValid b x y w h color (reached-IsValid b r) e).0
reached-IsValid _ (cleared b r) = clear-IsValid b (reached-IsValid b r)
reached-IsValid _ (materialized b r) = materialize-IsValid b (reached-IsValid b r)

-- A buffer that is made over a backing of any content, and blitted to, filled, cleared and materialized in any order by calls that
-- are accepted, is valid, and gives out exactly as many bytes as its rectangle holds.
pub Reached-IsValid :
    (b : RectBuffer) → Reached b → IsValid b × (length (tobytes b) ≡ b.width * b.height * b.bypp)
Reached-IsValid b r = let v = reached-IsValid b r in (v, length-tobytes b v ∙ v.size)
