-- ===== src/Examples/Formats.antt =====
-- Pixel formats and passwords (vncdotool/pixelformat.py, `_vnc_des` of vncdotool/rfb.py).
use awc_remote.Base.{◌≡◌, length, arith}
use awc_remote.PixelFormat.{bgrx8888, to_bytes, from_bytes}
use awc_remote.PixelFormat.Struct.{IsWire, from_bytes-to_bytes}

bgrx8888-IsWire : IsWire bgrx8888
bgrx8888-IsWire = record {
  bpp = omega arith;
  depth = omega arith;
  redmax = omega arith;
  greenmax = omega arith;
  bluemax = omega arith;
  redshift = omega arith;
  greenshift = omega arith;
  blueshift = omega arith;
}

bgrx8888_wire : (from_bytes (to_bytes bgrx8888) ≡ bgrx8888) × (length (to_bytes bgrx8888) ≡ 16)
bgrx8888_wire = from_bytes-to_bytes bgrx8888 bgrx8888-IsWire
