-- ===== src/Decoders/Rre.antt =====
-- vncdotool/decoders/rre.py: RRE, and CoRRE, which is RRE with one byte to a coordinate.
use awc_remote.Base.{
  ℕ, ◌+◌, ◌*◌, Bytes, length, drop, slice, range_step, byte_at, u16_at, u32_at, ltb, ◌==◌,
  if◌then◌else◌,
}
use awc_remote.Failure.{Result, decode_error, fold_ok}
use awc_remote.PixelFormat.{PixelFormat}
use awc_remote.RectBuffer.{RectBuffer, fill}
use awc_remote.Generator.{Gen, done, ◌>>=◌, ◌>>◌, read, lift, raise_if}
use awc_remote.Client.{Client, Rect}
use awc_remote.Decoders.Base.{Outcome, decode_into}

-- `COORDS`: "!HHHH" or "!BBBB".
pub data Coords : Type 0 where
  wide narrow : Coords

abbrev pub coords_size : Coords → ℕ
coords_size wide = 8
coords_size narrow = 4

abbrev pub coords_at : Coords → Bytes → ℕ → Rect
coords_at wide b i = record {
  x = u16_at b i;
  y = u16_at b (i + 2);
  width = u16_at b (i + 4);
  height = u16_at b (i + 6);
}
coords_at narrow b i = record {
  x = byte_at b i;
  y = byte_at b (i + 1);
  width = byte_at b (i + 2);
  height = byte_at b (i + 3);
}

-- One round of the loop over the subrectangles.
unfoldable pub subrect : Coords → ℕ → Bytes → RectBuffer → ℕ → Result RectBuffer
subrect coords bypp block target pos =
    let r = coords_at coords block (pos + bypp) in
    fill target r.x r.y r.width r.height (slice block pos bypp)

unfoldable pub rre_pixels : Coords → RectBuffer → PixelFormat → Gen Client RectBuffer
unfolding subrect
rre_pixels coords target format = do
  header ← read (4 + target.bypp)
  let count = u32_at header 0
  drawn ← lift (fill target 0 0 target.width target.height (drop 4 header))
  if count == 0 then done drawn else do
    raise_if (ltb (target.width * target.height) count) decode_error
    block ← read ((target.bypp + coords_size coords) * count)
    lift (
        fold_ok (subrect coords target.bypp block) drawn
          (range_step (length block) (target.bypp + coords_size coords)))

unfoldable pub rre_decode : Rect → PixelFormat → Gen Client Outcome
unfolding decode_into rre_pixels
rre_decode = decode_into (rre_pixels wide)

unfoldable pub corre_decode : Rect → PixelFormat → Gen Client Outcome
unfolding decode_into rre_pixels
corre_decode = decode_into (rre_pixels narrow)
