-- ===== src/Messages.antt =====
-- vncdotool/messages/: the server's messages other than FramebufferUpdate.
use awc_remote.Base.{
  ℕ, ◌+◌, ◌*◌, ◌%◌, Bytes, ◌∷◌, ◌++◌, map, length, range_step, byte_at, u16_at, u32_at, u32_be, ltb,
  ◌==◌, has_bit, if◌then◌else◌,
}
use awc_remote.Failure.{decode_error}
use awc_remote.Generator.{Gen, done, ◌>>=◌, ◌>>◌, read, read_some, modify, raise_if}
use awc_remote.Client.{Client, write, bell, copy_text, set_color_map, emit, max_message_payload}

-- `requirePayload`
unfoldable pub require_payload : ℕ → Gen Client (Unit {0})
require_payload n = raise_if (ltb max_message_payload n) decode_error

-- `ServerCutTextHandler`; ISO 8859-1 takes a byte to the code point of its number.
unfoldable pub server_cut_text : Gen Client (Unit {0})
unfolding require_payload
server_cut_text = do
  head ← read 7
  require_payload (u32_at head 3)
  text ← read (u32_at head 3)
  modify (emit (copy_text text))

abbrev pub color_at : Bytes → ℕ → ℕ × ℕ × ℕ
color_at block i = (u16_at block i, u16_at block (i + 2), u16_at block (i + 4))

-- `SetColourMapEntriesHandler`
unfoldable pub set_colour_map_entries : Gen Client (Unit {0})
unfolding require_payload
set_colour_map_entries = do
  head ← read 5
  let payload_len = 6 * u16_at head 3
  require_payload payload_len
  block ← read payload_len
  modify (emit (set_color_map (u16_at head 1) (map (color_at block) (range_step (length block) 6))))

-- `clientFence`: the message that answers a fence.
unfoldable pub client_fence : ℕ → Bytes → Bytes
client_fence flags payload = 248 ∷ 0 ∷ 0 ∷ 0 ∷ (u32_be flags ++ (length payload ∷ payload))

-- `ServerFenceHandler`: the three known flags are the three lowest bits.
unfoldable pub server_fence : Gen Client (Unit {0})
unfolding client_fence
server_fence = do
  head ← read 8
  let flags = u32_at head 3
  payload ← read_some (byte_at head 7)
  if has_bit flags 31 then modify (emit (write (client_fence (flags % 8) payload))) else done tt

-- `BellHandler`
unfoldable pub ring_bell : Gen Client (Unit {0})
ring_bell = modify (emit bell)

pub data Handler : Type 0 where
  implemented : Gen Client (Unit {0}) → Handler
  not_implemented : Handler

-- `self._messages.get(msgid)`
unfoldable pub message_handler : ℕ → Handler
unfolding server_cut_text set_colour_map_entries server_fence ring_bell
message_handler msgid =
    if msgid == 1
    then implemented set_colour_map_entries
    else if msgid == 2
    then implemented ring_bell
    else if msgid == 3
    then implemented server_cut_text
    else if msgid == 248
    then implemented server_fence
    else not_implemented
