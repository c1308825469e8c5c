-- ===== src/Proxy/RoundTrip.antt =====
-- The messages that the client of vncdotool/rfb.py writes, as the proxy of vncdotool/loggingproxy.py
-- reads them.
use awc_remote.Base.{
  ℕ, ◌+◌, ◌*◌, ◌/◌, ◌%◌, ◌^◌, ◌<◌, ◌≡◌, refl, sym, ap, ◌∙◌, Bool, false, Bytes, List, [], ◌∷◌, ◌++◌,
  length, take, drop, byte_at, u32_be, ltb, take-append_left, length-append, drop-append_left,
  arith,
}
use awc_remote.PixelFormat.{PixelFormat, to_bytes, flag_byte}
use awc_remote.PixelFormat.Struct.{IsWire, from_bytes-to_bytes}
use awc_remote.Messages.{client_fence}
use awc_remote.Outgoing.{
  set_pixel_format_message, set_encodings_header, update_request_message, key_message,
  pointer_message, cut_text_message,
}
use awc_remote.Proxy.{
  pixel_format_set, encodings_set, update_requested, key, pointer, cut_text, fence, client_cut_text,
  RfbServer, returned, hear, unpack_encodings, handle_message, handle_protocol, type_len,
  handle_client_cut_text,
}
use awc_remote.Proxy.Spoken.{encodings_bytes, AllFit, between}

pub u16_read : (n : ℕ) → n < 2 ^ 16 → n / 256 % 256 * 256 + n % 256 ≡ n
u16_read n h = omega arith

pub u32_read :
    (n : ℕ)
    → n < 2 ^ 32
    → n / 2 ^ 24 % 256 * 2 ^ 24 + n / 2 ^ 16 % 256 * 2 ^ 16 + n / 256 % 256 * 256 + n % 256 ≡ n
u32_read n h = omega arith

unpacked :
    (es : List ℕ) (rest : Bytes)
    → AllFit es
    → unpack_encodings (length es) (encodings_bytes es ++ rest) ≡ es
unfolding unpack_encodings encodings_bytes
unpacked [] rest h = refl
unpacked (e ∷ es) rest h = rw (u32_read e h.0, unpacked es rest h.1)

long_enough : (front rest : Bytes) → ltb (length (front ++ rest)) (length front) ≡ false
long_enough front rest = ground (arith, length-append front rest)

-- `_handle_protocol` on a buffer that begins with the fixed part of a message.
pub fixed_part :
    (n : ℕ) (s : RfbServer) (front rest : Bytes)
    → type_len (byte_at (front ++ rest) 0) ≡ length front
    → handle_protocol (between n (front ++ rest) s)
      ≡ handle_message (byte_at (front ++ rest) 0) front (between n rest s)
unfolding handle_protocol
fixed_part n s front rest h =
    rw (h, long_enough front rest, take-append_left front rest, drop-append_left front rest)

module _ (n : ℕ) (s : RfbServer) (rest : Bytes) where
  -- Messages of one fixed part each.
  pub key_heard :
      (down : Bool) (k : ℕ)
      → k < 2 ^ 32
      → handle_protocol (between n (key_message down k ++ rest) s)
        ≡ returned (hear (key k (flag_byte down)) (between n rest s))
  unfolding handle_message type_len
  key_heard down k h = fixed_part n s (key_message down k) rest refl ∙ rw (u32_read k h)

  pub pointer_heard :
      (mask x y : ℕ)
      → x < 2 ^ 16
      → y < 2 ^ 16
      → handle_protocol (between n (pointer_message mask x y ++ rest) s)
        ≡ returned (hear (pointer x y mask) (between n rest s))
  unfolding handle_message type_len
  pointer_heard mask x y h k =
      fixed_part n s (pointer_message mask x y) rest refl ∙ rw (u16_read x h, u16_read y k)

  pub request_heard :
      (incremental : Bool) (x y w h : ℕ)
      → x < 2 ^ 16
      → y < 2 ^ 16
      → w < 2 ^ 16
      → h < 2 ^ 16
      → handle_protocol (between n (update_request_message incremental x y w h ++ rest) s)
        ≡ returned (hear (update_requested x y w h (flag_byte incremental)) (between n rest s))
  unfolding handle_message type_len
  request_heard incremental x y w h a b c d =
      fixed_part n s (update_request_message incremental x y w h) rest refl
      ∙ rw (u16_read x a, u16_read y b, u16_read w c, u16_read h d)

  pub format_heard :
      (f : PixelFormat)
      → IsWire f
      → handle_protocol (between n (set_pixel_format_message f ++ rest) s)
        ≡ returned (hear (pixel_format_set f) (between n rest s))
  unfolding handle_message type_len to_bytes
  format_heard f h =
      fixed_part n s (set_pixel_format_message f) rest refl ∙ rw ((from_bytes-to_bytes f h).0)

pub length-encodings_bytes : (es : List ℕ) → length (encodings_bytes es) ≡ 4 * length es
unfolding encodings_bytes
length-encodings_bytes [] = refl
length-encodings_bytes (e ∷ es) = omega (arith, length-encodings_bytes es)

not_short : (b rest : Bytes) (n : ℕ) → length b ≡ n → ltb (length (b ++ rest)) n ≡ false
not_short b rest n h = ground (arith, length-append b rest)

module _ (b rest : Bytes) (n : ℕ) (h : length b ≡ n) where
  front_of : take n (b ++ rest) ≡ b
  front_of = ap (λ (k : ℕ). take k (b ++ rest)) (sym h) ∙ take-append_left b rest

  back_of : drop n (b ++ rest) ≡ rest
  back_of = ap (λ (k : ℕ). drop k (b ++ rest)) (sym h) ∙ drop-append_left b rest

module _ (n : ℕ) (s : RfbServer) (rest : Bytes) where
  pub encodings_heard :
      (es : List ℕ)
      → length es < 2 ^ 16
      → AllFit es
      → handle_protocol
          (between n (set_encodings_header (length es) ++ (encodings_bytes es ++ rest)) s)
        ≡ returned (hear (encodings_set es) (between n rest s))
  unfolding handle_message type_len
  encodings_heard es h fit =
      fixed_part n s (set_encodings_header (length es)) (encodings_bytes es ++ rest) refl
      ∙ rw (
        u16_read (length es) h,
        not_short (encodings_bytes es) rest (4 * length es) (length-encodings_bytes es),
        unpacked es rest fit,
        back_of (encodings_bytes es) rest (4 * length es) (length-encodings_bytes es),
      )

  pub fence_heard :
      (flags : ℕ) (payload : Bytes)
      → flags < 2 ^ 32
      → handle_protocol (between n (client_fence flags payload ++ rest) s)
        ≡ returned (hear (fence flags payload) (between n rest s))
  unfolding handle_message type_len client_fence
  fence_heard flags payload h =
      fixed_part n s (248 ∷ 0 ∷ 0 ∷ 0 ∷ (u32_be flags ++ (length payload ∷ []))) (payload ++ rest)
        refl
      ∙ rw (u32_read flags h, take-append_left payload rest, drop-append_left payload rest)

  -- A server that awaits a text, with the text and more in its buffer.
  abbrev pub awaiting : Bytes → RfbServer
  awaiting text = record s {
    buffer = text ++ rest;
    awaited = client_cut_text;
    nbytes = length text;
    cut_text_length = length text;
  }

  pub text_awaited :
      (text : Bytes)
      → length text < 2 ^ 32
      → handle_protocol (between n (cut_text_message text ++ rest) s) ≡ returned (awaiting text)
  unfolding handle_message type_len
  text_awaited text h =
      fixed_part n s (6 ∷ 0 ∷ 0 ∷ 0 ∷ u32_be (length text)) (text ++ rest) refl
      ∙ rw (u32_read (length text) h)

  pub text_heard :
      (text : Bytes)
      → handle_client_cut_text (awaiting text)
        ≡ returned
            (hear (cut_text text) (between 1 rest (record s { cut_text_length = length text })))
  unfolding handle_client_cut_text
  text_heard text = rw (take-append_left text rest, drop-append_left text rest)
