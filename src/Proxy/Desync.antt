-- ===== src/Proxy/Desync.antt =====
-- Where `RFBServer` of vncdotool/loggingproxy.py loses its place in the stream.
use awc_remote.Base.{
  ℕ, suc, false, ◌+◌, ◌≤◌, length, ◌*◌, ◌^◌, ◌<◌, ◌≡◌, refl, true, Bytes, some, ◌++◌, drop, ltb,
  u16_be, u32_be, arith,
}
use awc_remote.Outgoing.{set_encodings_header}
use awc_remote.Proxy.{
  RfbServer, returned, raised, extended_key, hear, handle_message, type_len,
  handle_extended_key_event, call_handler, serve,
}
use awc_remote.Proxy.Spoken.{between}
use awc_remote.Proxy.RoundTrip.{fixed_part, u16_read, u32_read}

short_list : (n : ℕ) (part : Bytes) → length part < 4 * n → ltb (length part) (4 * n) ≡ true
short_list n part h = ground arith

enough :
    (n k : ℕ) (part : Bytes)
    → k ≤ 4 + length part
    → ltb (length (set_encodings_header n ++ part)) k ≡ false
enough n k part h = ground arith

-- A SetEncodings message whose list is not all there raises once the server has the bytes it waits for, and its header is
-- gone from the buffer, so that the list will be read as messages. The server waits for one byte, or for those of a fixed part
-- that came in parts.
pub serve-set_encodings_header :
    (n k more : ℕ) (part : Bytes) (s : RfbServer)
    → n < 2 ^ 16
    → length part < 4 * n
    → k ≤ 4 + length part
    → serve (suc more) (between k (set_encodings_header n ++ part) s)
      ≡ some (raised (between k part s))
unfolding serve call_handler handle_message type_len
serve-set_encodings_header n k more part s h short z = rw (
  serve,
  enough n k part z,
  fixed_part k s (set_encodings_header n) part refl,
  u16_read n h,
  short_list n part short,
)

-- The body of QEMU's extended key event, after the type and the subtype.
abbrev pub extended_key_body : ℕ → ℕ → ℕ → Bytes
extended_key_body down keysym keycode = u16_be down ++ (u32_be keysym ++ u32_be keycode)

-- An extended key event takes, after the ten bytes of its body, the first two bytes of what follows.
pub drop-handle_extended_key_event :
    (down keysym keycode : ℕ) (rest : Bytes) (s : RfbServer)
    → down < 2 ^ 16
    → keysym < 2 ^ 32
    → keycode < 2 ^ 32
    → handle_extended_key_event
        (record s { buffer = extended_key_body down keysym keycode ++ rest })
      ≡ returned (hear (extended_key keysym down keycode) (between 1 (drop 2 rest) s))
unfolding handle_extended_key_event
drop-handle_extended_key_event down keysym keycode rest s h k l =
    rw (u16_read down h, u32_read keysym k, u32_read keycode l)
