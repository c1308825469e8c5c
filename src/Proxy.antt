-- ===== src/Proxy.antt =====
-- vncdotool/loggingproxy.py: `RFBServer`, which reads what a client sends on its way to the server.
pub mod Progress
pub mod Ends
pub mod Spoken
pub mod RoundTrip
pub mod Session
pub mod Desync
pub mod Relay
pub mod Links
pub mod Claims
pub mod OneShot
pub mod Archived
pub mod Recorder
use awc_remote.Base.{
  ℕ, zero, suc, ◌+◌, ◌-◌, ◌*◌, ◌/◌, ◌%◌, Bool, true, false, not, ◌&&◌, ◌||◌, Bytes, Option, none,
  some, List, [], ◌∷◌, ◌++◌, length, take, drop, slice, byte_at, u16_at, u32_at, ltb, leb, ◌==◌,
  if◌then◌else◌,
}
use awc_remote.PixelFormat.{PixelFormat, from_bytes}

-- The messages of a client, with the fields that the `handle_` methods are given. An encoding-type is
-- its unsigned 32-bit form, and `down` and `incremental` are the bytes as they stand.
pub data Message : Type 0 where
  pixel_format_set : PixelFormat → Message
  encodings_set : List ℕ → Message
  update_requested : ℕ → ℕ → ℕ → ℕ → ℕ → Message
  key : ℕ → ℕ → Message
  pointer : ℕ → ℕ → ℕ → Message
  cut_text : Bytes → Message
  fence : ℕ → Bytes → Message
  extended_key : ℕ → ℕ → ℕ → Message

-- `_handler[0]`
pub data Awaited : Type 0 where
  version security vnc_auth_response client_init protocol extended_key_event client_cut_text :
      Awaited

-- The server's side of the proxy: `_handler` as two fields, and what it has called, in order.
pub record RfbServer : Type 0 where
  pub buffer : Bytes
  pub awaited : Awaited
  pub nbytes : ℕ
  pub cut_text_length : ℕ
  pub password_required : Bool
  pub lost : Bool
  pub heard : List Message

-- `connectionMade`
abbrev pub connection_made : Bool → RfbServer
connection_made password_required = record {
  buffer = [];
  awaited = version;
  nbytes = 12;
  cut_text_length = 0;
  password_required = password_required;
  lost = false;
  heard = [];
}

-- What a call leaves: the object, and whether it has raised (`ProtocolError` or `struct.error`).
pub data Call : Type 0 where
  returned raised : RfbServer → Call

abbrev pub server_of : Call → RfbServer
server_of (returned s) = s
server_of (raised s) = s

abbrev pub await_next : Awaited → ℕ → RfbServer → RfbServer
await_next a n s = record s { awaited = a; nbytes = n }

-- `del self.buffer[:n]`
abbrev pub delete : ℕ → RfbServer → RfbServer
delete n s = record s { buffer = drop n s.buffer }

abbrev pub hear : Message → RfbServer → RfbServer
hear m s = record s { heard = s.heard ++ m ∷ [] }

abbrev pub starts_with : Bytes → Bytes → Bool
starts_with b [] = true
starts_with [] (p ∷ ps) = false
starts_with (b ∷ bs) (p ∷ ps) = b == p && starts_with bs ps

-- b"RFB 003."
abbrev pub rfb_3 : Bytes
rfb_3 = 82 ∷ 70 ∷ 66 ∷ 32 ∷ 48 ∷ 48 ∷ 51 ∷ 46 ∷ []

-- `version in (b"00a", b"00b")`, of the three bytes from index 8.
abbrev pub is_minor : Bytes → ℕ → ℕ → Bool
is_minor msg a b =
    byte_at msg 8 == 48 && (byte_at msg 9 == 48 && (byte_at msg 10 == a || byte_at msg 10 == b))

-- The end of `_handle_version`; 51, 53, 55 and 56 are the digits.
unfoldable pub after_version : Bytes → RfbServer → Call
after_version msg s =
    if is_minor msg 51 53
    then (if s.password_required
        then returned (await_next vnc_auth_response 16 s)
        else returned (await_next client_init 1 s))
    else if is_minor msg 55 56
    then returned (await_next security 1 s)
    else returned s

-- `_handle_version`, on a buffer of at least 12 bytes. Python reads the test as
-- `(not msg.startswith(...)) and msg.endswith(...)`.
unfoldable pub handle_version_reply : RfbServer → Call
unfolding after_version
handle_version_reply s =
    let msg = take 12 s.buffer in
    let refuse = not (starts_with msg rfb_3) && byte_at msg 11 == 10 in
    after_version msg (delete 12 (if refuse then record s { lost = true } else s))

-- `_handle_security`, `_handle_VNCAuthResponse` and `_handle_clientInit`
unfoldable pub handle_security : RfbServer → Call
handle_security s =
    if byte_at s.buffer 0 == 2
    then returned (await_next vnc_auth_response 16 (delete 1 s))
    else returned (await_next client_init 1 (delete 1 s))

unfoldable pub handle_vnc_auth_response : RfbServer → Call
handle_vnc_auth_response s = returned (await_next client_init 1 (delete 16 s))

unfoldable pub handle_client_init : RfbServer → Call
handle_client_init s = returned (await_next protocol 1 (delete 1 s))

-- `TYPE_LEN.get(ptype, 0)`
unfoldable pub type_len : ℕ → ℕ
type_len ptype =
    if ptype == 0
    then 20
    else if ptype == 2
    then 4
    else if ptype == 3
    then 10
    else if ptype == 4
    then 8
    else if ptype == 5
    then 6
    else if ptype == 6
    then 8
    else if ptype == 255
    then 2
    else if ptype == 248
    then 9
    else 0

-- `unpack_from("!" + "i" * n, self.buffer)`, on a buffer that holds so many.
unfoldable pub unpack_encodings : ℕ → Bytes → List ℕ
unpack_encodings zero b = []
unpack_encodings (suc n) b = u32_at b 0 ∷ unpack_encodings n (drop 4 b)

-- A complete message of a type, on the buffer before and after its fixed part is deleted.
unfoldable pub handle_message : ℕ → Bytes → RfbServer → Call
unfolding unpack_encodings
handle_message ptype msg s =
    if ptype == 0
    then returned (hear (pixel_format_set (from_bytes (slice msg 4 16))) s)
    else if ptype == 2
    then (let nencodings = u16_at msg 2 in
        if ltb (length s.buffer) (4 * nencodings)
        then raised s
        else returned (
            hear (encodings_set (unpack_encodings nencodings s.buffer))
              (delete (4 * nencodings) s)))
    else if ptype == 3
    then returned (
        hear
          (update_requested (u16_at msg 2) (u16_at msg 4) (u16_at msg 6) (u16_at msg 8)
            (byte_at msg 1))
          s)
    else if ptype == 4
    then returned (hear (key (u32_at msg 4) (byte_at msg 1)) s)
    else if ptype == 5
    then returned (hear (pointer (u16_at msg 2) (u16_at msg 4) (byte_at msg 1)) s)
    else if ptype == 6
    then returned
        (await_next client_cut_text (u32_at msg 4) (record s { cut_text_length = u32_at msg 4 }))
    else if ptype == 248
    then returned
        (hear (fence (u32_at msg 4) (take (byte_at msg 8) s.buffer)) (delete (byte_at msg 8) s))
    else if ptype == 255
    then (if byte_at msg 1 == 0 then returned (await_next extended_key_event 10 s) else raised s)
    else raised s

-- `_handle_protocol`
unfoldable pub handle_protocol : RfbServer → Call
unfolding type_len handle_message
handle_protocol s =
    let ptype = byte_at s.buffer 0 in
    let nbytes = type_len ptype in
    if ltb (length s.buffer) nbytes
    then returned (await_next protocol nbytes s)
    else handle_message ptype (take nbytes s.buffer) (delete nbytes s)

-- `_handle_qemuExtendedKeyEvent`
unfoldable pub handle_extended_key_event : RfbServer → Call
handle_extended_key_event s =
    let m = extended_key (u32_at s.buffer 2) (u16_at s.buffer 0) (u32_at s.buffer 6) in
    returned (await_next protocol 1 (hear m (delete 12 s)))

-- `_handle_clientCutText`
unfoldable pub handle_client_cut_text : RfbServer → Call
handle_client_cut_text s =
    let m = cut_text (take s.cut_text_length s.buffer) in
    returned (await_next protocol 1 (hear m (delete s.cut_text_length s)))

-- `self._handler[0]()`
unfoldable pub call_handler : Awaited → RfbServer → Call
unfolding handle_version_reply handle_security handle_vnc_auth_response handle_client_init
    handle_protocol handle_extended_key_event handle_client_cut_text
call_handler version s = handle_version_reply s
call_handler security s = handle_security s
call_handler vnc_auth_response s = handle_vnc_auth_response s
call_handler client_init s = handle_client_init s
call_handler protocol s = handle_protocol s
call_handler extended_key_event s = handle_extended_key_event s
call_handler client_cut_text s = handle_client_cut_text s

-- The loop of `dataReceived`, for at most `fuel` rounds; `none` when they do not suffice.
unfoldable pub serve : ℕ → RfbServer → Option Call
unfolding call_handler
serve zero s = if ltb (length s.buffer) s.nbytes then some (returned s) else none
serve (suc more) s = elim (ltb (length s.buffer) s.nbytes) [
  | true ↦ some (returned s)
  | false ↦ elim (call_handler s.awaited s) [
    | returned d ↦ serve more d
    | raised d ↦ some (raised d)
  ]
]

-- `dataReceived`
unfoldable pub receive : ℕ → Bytes → RfbServer → Option Call
unfolding serve
receive fuel bytes s = serve fuel (record s { buffer = s.buffer ++ bytes })
