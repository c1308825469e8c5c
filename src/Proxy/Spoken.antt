-- ===== src/Proxy/Spoken.antt =====
-- What a client says, the bytes that `RFBClient` of vncdotool/rfb.py writes for it, and the call by
-- which `RFBServer` of vncdotool/loggingproxy.py passes it on.
use awc_remote.Base.{ℕ, ◌^◌, ◌<◌, Bool, Bytes, List, [], ◌∷◌, ◌++◌, length, u32_be}
use awc_remote.PixelFormat.{PixelFormat, flag_byte}
use awc_remote.PixelFormat.Struct.{IsWire}
use awc_remote.Messages.{client_fence}
use awc_remote.Outgoing.{
  set_pixel_format_message, set_encodings_header, update_request_message, key_message,
  pointer_message, cut_text_message,
}
use awc_remote.Proxy.{
  Message, pixel_format_set, encodings_set, update_requested, key, pointer, cut_text, fence,
  protocol, RfbServer,
}

unfoldable pub encodings_bytes : List ℕ → Bytes
encodings_bytes [] = []
encodings_bytes (e ∷ es) = u32_be e ++ encodings_bytes es

-- What a client says, and the bytes that `RFBClient` writes for it.
pub data Spoken : Type 0 where
  says_format : PixelFormat → Spoken
  says_encodings : List ℕ → Spoken
  says_request : Bool → ℕ → ℕ → ℕ → ℕ → Spoken
  says_key : Bool → ℕ → Spoken
  says_pointer : ℕ → ℕ → ℕ → Spoken
  says_text : Bytes → Spoken
  says_fence : ℕ → Bytes → Spoken

unfoldable pub spoken_bytes : Spoken → Bytes
unfolding encodings_bytes
spoken_bytes (says_format f) = set_pixel_format_message f
spoken_bytes (says_encodings es) = set_encodings_header (length es) ++ encodings_bytes es
spoken_bytes (says_request incremental x y w h) = update_request_message incremental x y w h
spoken_bytes (says_key down k) = key_message down k
spoken_bytes (says_pointer mask x y) = pointer_message mask x y
spoken_bytes (says_text text) = cut_text_message text
spoken_bytes (says_fence flags payload) = client_fence flags payload

abbrev pub meant : Spoken → Message
meant (says_format f) = pixel_format_set f
meant (says_encodings es) = encodings_set es
meant (says_request incremental x y w h) = update_requested x y w h (flag_byte incremental)
meant (says_key down k) = key k (flag_byte down)
meant (says_pointer mask x y) = pointer x y mask
meant (says_text text) = cut_text text
meant (says_fence flags payload) = fence flags payload

abbrev pub AllFit : List ℕ → Type 0
AllFit [] = Unit
AllFit (e ∷ es) = (e < 2 ^ 32) × AllFit es

-- Every field fits its width on the wire.
abbrev pub Fits : Spoken → Type 0
Fits (says_format f) = IsWire f
Fits (says_encodings es) = (length es < 2 ^ 16) × AllFit es
Fits (says_request incremental x y w h) = (x < 2 ^ 16) × (y < 2 ^ 16) × (w < 2 ^ 16) × (h < 2 ^ 16)
Fits (says_key down k) = k < 2 ^ 32
Fits (says_pointer mask x y) = (mask < 256) × (x < 2 ^ 16) × (y < 2 ^ 16)
Fits (says_text text) = length text < 2 ^ 32
Fits (says_fence flags payload) = (flags < 2 ^ 32) × (length payload < 256)

-- A server between two messages, which waits for `n` bytes and has those of a buffer. A message that came in parts leaves
-- the length of its fixed part as `n`.
abbrev pub between : ℕ → Bytes → RfbServer → RfbServer
between n b s = record s { buffer = b; awaited = protocol; nbytes = n }
