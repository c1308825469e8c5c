-- ===== src/Decoders/Simple.antt =====
-- vncdotool/decoders/raw.py, copyrect.py, cursor.py and control.py.
use awc_remote.Base.{◌+◌, ◌*◌, ◌/◌, true, ◌||◌, take, drop, u16_at, ltb, leb}
use awc_remote.Failure.{decode_error}
use awc_remote.PixelFormat.{PixelFormat, bypp}
use awc_remote.Generator.{Gen, done, look, ◌>>=◌, ◌>>◌, read, modify, raise_if}
use awc_remote.Client.{
  Client, Rect, copy_rectangle, update_cursor, update_desktop_size, update_pointer_pos, emit,
  max_desktop_size,
}
use awc_remote.Decoders.Base.{Outcome, pasted, require_fits, decode_on_client, decode_control}
use awc_remote.Failure.{value_error}

unfoldable pub raw_decode : Rect → PixelFormat → Gen Client Outcome
unfolding require_fits
raw_decode rect format = do
  require_fits rect.width rect.height
  pixels ← read (rect.width * rect.height * bypp format)
  done (pasted pixels format)

unfoldable pub copy_rect : Rect → PixelFormat → Gen Client (Unit {0})
copy_rect rect format = do
  block ← read 4
  let srcx = u16_at block 0
  let srcy = u16_at block 2
  look (λ c.
      raise_if (ltb c.width (srcx + rect.width) || ltb c.height (srcy + rect.height)) decode_error)
  modify (emit (copy_rectangle srcx srcy rect))

unfoldable pub copy_rect_decode : Rect → PixelFormat → Gen Client Outcome
unfolding copy_rect decode_on_client
copy_rect_decode = decode_on_client copy_rect

unfoldable pub cursor : Rect → PixelFormat → Gen Client (Unit {0})
cursor rect format = do
  let pixel_len = rect.width * rect.height * bypp format
  let mask_len = (rect.width + 7) / 8 * rect.height
  block ← read (pixel_len + mask_len)
  modify (emit (update_cursor rect (take pixel_len block) (drop pixel_len block)))

unfoldable pub cursor_decode : Rect → PixelFormat → Gen Client Outcome
unfolding cursor decode_on_client
cursor_decode = decode_on_client cursor

-- `updateDesktopSize` as `VNCDoToolClient` overrides it, for the fields that the decoders read.
unfoldable pub desktop_size : Rect → Gen Client (Unit {0})
desktop_size rect = do
  raise_if (leb max_desktop_size rect.width || leb max_desktop_size rect.height) value_error
  modify (λ c. record (emit (update_desktop_size rect.width rect.height) c) {
    width = rect.width;
    height = rect.height;
  })

unfoldable pub desktop_size_decode : Rect → PixelFormat → Gen Client Outcome
unfolding desktop_size decode_control
desktop_size_decode = decode_control desktop_size

unfoldable pub pointer_pos : Rect → Gen Client (Unit {0})
pointer_pos rect = modify (emit (update_pointer_pos rect.x rect.y))

unfoldable pub pointer_pos_decode : Rect → PixelFormat → Gen Client Outcome
unfolding pointer_pos decode_control
pointer_pos_decode = decode_control pointer_pos

unfoldable pub extended_key : Rect → Gen Client (Unit {0})
extended_key rect = modify (λ c. record c { extended_key = true })

unfoldable pub qemu_extended_key_decode : Rect → PixelFormat → Gen Client Outcome
unfolding extended_key decode_control
qemu_extended_key_decode = decode_control extended_key
