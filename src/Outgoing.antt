-- ===== src/Outgoing.antt =====
-- vncdotool/rfb.py: the messages of a running client, from `setPixelFormat` to `clientCutText`, and
-- `connectionLost`. Messages holds `clientFence`. An encoding-type is its unsigned 32-bit form.
pub mod Written
use awc_remote.Base.{
  ℕ, ◌+◌, ◌-◌, ◌^◌, Bool, true, false, not, ◌&&◌, Bytes, Option, none, some, List, [], ◌∷◌, ◌++◌,
  length, ltb, leb, ◌==◌, u16_be, u32_be, if◌then◌else◌,
}
use awc_remote.Failure.{Result, ok, err, struct_error, value_error, ◌>>>=◌}
use awc_remote.PixelFormat.{PixelFormat, to_bytes, flag_byte}
use awc_remote.Client.{Client, write, emit, vnc_protocol_error}
use awc_remote.Messages.{client_fence}
use awc_remote.Connection.{Conn}

-- The messages as `struct` packs them, on numbers that fit their fields.
abbrev pub set_pixel_format_message : PixelFormat → Bytes
set_pixel_format_message f = 0 ∷ 0 ∷ 0 ∷ 0 ∷ to_bytes f

abbrev pub set_encodings_header : ℕ → Bytes
set_encodings_header count = 2 ∷ 0 ∷ u16_be count

abbrev pub update_request_message : Bool → ℕ → ℕ → ℕ → ℕ → Bytes
update_request_message incremental x y width height =
    3 ∷ flag_byte incremental ∷ (u16_be x ++ (u16_be y ++ (u16_be width ++ u16_be height)))

abbrev pub key_message : Bool → ℕ → Bytes
key_message down key = 4 ∷ flag_byte down ∷ 0 ∷ 0 ∷ u32_be key

abbrev pub pointer_message : ℕ → ℕ → ℕ → Bytes
pointer_message buttonmask x y = 5 ∷ buttonmask ∷ (u16_be x ++ u16_be y)

abbrev pub cut_text_message : Bytes → Bytes
cut_text_message text = 6 ∷ 0 ∷ 0 ∷ 0 ∷ (u32_be (length text) ++ text)

-- `struct` refuses a number that does not fit its field of `bits` bits.
abbrev pub fits : ℕ → ℕ → Bool
fits bits n = ltb n (2 ^ bits)

abbrev pub send_if : Bool → Bytes → Client → Result Client
send_if fit message c = if fit then ok (emit (write message) c) else err struct_error

unfoldable pub set_pixel_format : PixelFormat → Client → Client
set_pixel_format f c = record (emit (write (set_pixel_format_message f)) c) { pixel_format = f }

-- The loop of `setEncodings`, one write for each.
unfoldable pub write_encodings : List ℕ → Client → Client
write_encodings [] c = c
write_encodings (e ∷ es) c = write_encodings es (emit (write (u32_be e)) c)

-- `encoding in JPEG_QUALITY_LEVELS`: -23 to -32.
abbrev pub is_jpeg_level : ℕ → Bool
is_jpeg_level e = leb (2 ^ 32 - 32) e && leb e (2 ^ 32 - 23)

unfoldable pub any_jpeg_level : List ℕ → Bool
any_jpeg_level [] = false
any_jpeg_level (e ∷ es) = if is_jpeg_level e then true else any_jpeg_level es

-- `encodingsOffered`, which only Tight's decoder takes note of.
unfoldable pub encodings_offered : List ℕ → Client → Client
unfolding any_jpeg_level
encodings_offered es c = record c { tight = record c.tight { jpeg_offered = any_jpeg_level es } }

unfoldable pub set_encodings : List ℕ → Client → Result Client
unfolding write_encodings encodings_offered
set_encodings es c = send_if (fits 16 (length es)) (set_encodings_header (length es)) c >>>= λ d.
    ok (encodings_offered es (write_encodings es d))

-- A size that is left out reaches to the edge of the screen; past it, it is negative and is refused.
abbrev pub default_extent : Option ℕ → ℕ → ℕ → Result ℕ
default_extent (some n) at whole = ok n
default_extent none at whole = if leb at whole then ok (whole - at) else err struct_error

unfoldable pub framebuffer_update_request :
    ℕ → ℕ → Option ℕ → Option ℕ → Bool → Client → Result Client
framebuffer_update_request x y width height incremental c = default_extent width x c.width >>>= λ w.
    default_extent height y c.height >>>= λ h.
    send_if (fits 16 x && (fits 16 y && (fits 16 w && fits 16 h)))
      (update_request_message incremental x y w h) c

unfoldable pub key_event : ℕ → Bool → Client → Result Client
key_event key down c = send_if (fits 32 key) (key_message down key) c

unfoldable pub pointer_event : ℕ → ℕ → ℕ → Client → Result Client
pointer_event x y buttonmask c =
    send_if (fits 8 buttonmask && (fits 16 x && fits 16 y)) (pointer_message buttonmask x y) c

-- `encode("iso-8859-1")`, whose error is a `ValueError`.
abbrev pub all_latin : List ℕ → Bool
all_latin [] = true
all_latin (c ∷ cs) = ltb c 256 && all_latin cs

unfoldable pub client_cut_text : List ℕ → Client → Result Client
client_cut_text text c =
    if all_latin text
    then send_if (fits 32 (length text)) (cut_text_message text) c
    else err value_error

-- `clientFence`
unfoldable pub send_fence : ℕ → Bytes → Client → Result Client
send_fence flags payload c =
    send_if (fits 32 flags && fits 8 (length payload)) (client_fence flags payload) c

-- `connectionLost`
unfoldable pub connection_lost : Conn → Conn
connection_lost c =
    if c.client.tls_handshake_pending && not c.aborted
    then record c {
      client = emit vnc_protocol_error (record c.client { tls_handshake_pending = false });
    }
    else c
