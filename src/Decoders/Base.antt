-- ===== src/Decoders/Base.antt =====
-- vncdotool/decoders/base.py, and what a decoder may ask of the pump in vncdotool/rfb.py.
use awc_remote.Base.{
  ℕ, ◌*◌, Bool, true, false, not, ◌&&◌, Bytes, Option, none, some, length, replicate, ltb, leb,
  ◌==◌, if◌then◌else◌,
}
use awc_remote.Failure.{decode_error}
use awc_remote.PixelFormat.{PixelFormat, bypp}
use awc_remote.RectBuffer
use awc_remote.RectBuffer.{RectBuffer, tobytes}
use awc_remote.Generator.{Gen, done, look, ◌>>=◌, ◌>>◌, lift, raise_if, modify}
use awc_remote.Client.{Client, Rect, max_desktop_size}

pub record Paste : Type 0 where
  pub pixels : Bytes
  pub pixel_format : PixelFormat

pub record Outcome : Type 0 where
  pub changed : Bool
  pub paste : Option Paste

abbrev pub nothing : Outcome
nothing = record { changed = false; paste = none }

abbrev pub changed_already : Outcome
changed_already = record { changed = true; paste = none }

abbrev pub pasted : Bytes → PixelFormat → Outcome
pasted pixels format = record {
  changed = true;
  paste = some (record { pixels = pixels; pixel_format = format });
}

-- `self.width or self.MAX_DESKTOP_SIZE`
abbrev pub limit_of : ℕ → ℕ
limit_of n = if n == 0 then max_desktop_size else n

unfoldable pub fits_screen : Client → ℕ → ℕ → Bool
fits_screen c width height = leb width (limit_of c.width) && leb height (limit_of c.height)

unfoldable pub require_fits : ℕ → ℕ → Gen Client (Unit {0})
unfolding fits_screen
require_fits width height = look (λ c. raise_if (not (fits_screen c width height)) decode_error)

-- The backing that `rectBuffer` hands over: a new one of zeros if the old one is too small. The
-- refusal of a rectangle that memory does not hold is not modelled.
unfoldable pub enough_backing : Bytes → ℕ → Bytes
enough_backing backing needed = if ltb (length backing) needed then replicate needed 0 else backing

unfoldable pub rect_buffer : ℕ → ℕ → Gen Client RectBuffer
unfolding require_fits enough_backing
rect_buffer width height = do
  require_fits width height
  look (λ c. lift (
      RectBuffer.init width height (bypp c.pixel_format)
        (enough_backing c.rect_backing (width * height * bypp c.pixel_format))))

-- `PixelDecoder.decode`: the decoder writes into the connection's backing, which holds its bytes
-- afterwards. After a raise the connection is over and the backing is not read again.
unfoldable pub decode_into :
    (RectBuffer → PixelFormat → Gen Client RectBuffer) → Rect → PixelFormat → Gen Client Outcome
unfolding rect_buffer
decode_into decode_pixels rect format = do
  target ← rect_buffer rect.width rect.height
  drawn ← decode_pixels target format
  modify (λ c. record c { rect_backing = drawn.backing })
  done (pasted (tobytes drawn) format)

-- `WholeRectDecoder.decode`
unfoldable pub decode_whole :
    (ℕ → ℕ → PixelFormat → Gen Client Paste) → Rect → PixelFormat → Gen Client Outcome
unfolding require_fits
decode_whole decode_rect rect format = do
  require_fits rect.width rect.height
  paste ← decode_rect rect.width rect.height format
  done (pasted paste.pixels paste.pixel_format)

-- `ClientDecoder.decode`
unfoldable pub decode_on_client :
    (Rect → PixelFormat → Gen Client (Unit {0})) → Rect → PixelFormat → Gen Client Outcome
decode_on_client decode_for_client rect format = do
  decode_for_client rect format
  done changed_already

-- `ControlDecoder.decode`
unfoldable pub decode_control :
    (Rect → Gen Client (Unit {0})) → Rect → PixelFormat → Gen Client Outcome
decode_control decode_for_control rect format = do decode_for_control rect; done nothing
