-- ===== src/PixelFormat/Widths.antt =====
-- The packed pixels of ZRLE (vncdotool/pixelformat.py).
use awc_remote.Base.{◌+◌, ◌≤◌, arith}
use awc_remote.PixelFormat.{PixelFormat, bypp, cpixel_bytes, cpixel_offset}

-- For every format the bytes of a CPIXEL, at its offset, lie within the pixel.
pub cpixel_fits : (f : PixelFormat) → cpixel_offset f + cpixel_bytes f ≤ bypp f
unfolding cpixel_offset
cpixel_fits f = ground arith
