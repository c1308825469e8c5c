-- ===== src/PixelFormat/Struct.antt =====
-- The wire form of a pixel format (vncdotool/pixelformat.py).
use awc_remote.Base.{◌<◌, ◌^◌, ◌≡◌, refl, arith, length}
use awc_remote.PixelFormat.{PixelFormat, to_bytes, from_bytes}

-- Every field fits the width that the structure gives it.
pub record IsWire (f : PixelFormat) : Type 0 where
  pub bpp : f.bpp < 256
  pub depth : f.depth < 256
  pub redmax : f.redmax < 2 ^ 16
  pub greenmax : f.greenmax < 2 ^ 16
  pub bluemax : f.bluemax < 2 ^ 16
  pub redshift : f.redshift < 256
  pub greenshift : f.greenshift < 256
  pub blueshift : f.blueshift < 256

-- A format whose fields fit their widths packs to 16 bytes, which unpack to that format.
pub from_bytes-to_bytes :
    (f : PixelFormat) → IsWire f → (from_bytes (to_bytes f) ≡ f) × (length (to_bytes f) ≡ 16)
unfolding from_bytes to_bytes
from_bytes-to_bytes f h = (ground arith, refl)
