-- ===== src/Decoders/Sizes.antt =====
-- How many bytes the decoders of vncdotool/decoders/ return, which `_finishRectangle` of
-- vncdotool/rfb.py checks before the pixels reach the application.
pub mod Buffers
pub mod Rectangles
pub mod Tiles
pub mod Packed
pub mod Streams
pub mod Simple
pub mod Pasting
use awc_remote.Base.{
  ℕ, ◌*◌, ◌≡◌, refl, sym, ◌∙◌, Bool, true, false, not, Bytes, Option, none, some, List, length, ltb,
  ◌==◌, arith, if◌then◌else◌,
}
use awc_remote.Failure.{Result, Guarantees, decode_error}
use awc_remote.PixelFormat.{PixelFormat, bypp}
use awc_remote.Generator.{Gen}
use awc_remote.Generator.Ensures.{Ensures, gives, Ensures-bind, Ensures-lift, Ensures-read}
use awc_remote.Client.{Client, Rect}
use awc_remote.Decoders.Base.{Outcome, Paste}

-- The bytes of a rectangle in a format.
abbrev pub Sized : Rect → Option Paste → Type 0
Sized rect none = Unit {0}
Sized rect (some paste) = length paste.pixels ≡ rect.width * rect.height * bypp paste.pixel_format

-- The client's format has pixels of `n` bytes. It does so while the decoder that was given it runs.
abbrev pub HasPixels : ℕ → Client → Type 0
HasPixels n c = bypp c.pixel_format ≡ n

unfoldable pub IsSized : Rect → PixelFormat → Gen Client Outcome → Type 0
IsSized rect format g = Ensures (HasPixels (bypp format)) (λ outcome. Sized rect outcome.paste) g
