-- ===== src/Outgoing/Written.antt =====
-- What the messages of vncdotool/rfb.py put on the wire.
use awc_remote.Base.{
  ℕ, ◌^◌, ◌<◌, ◌≡◌, refl, sym, ap, ◌∙◌, Bool, true, false, ◌&&◌, Bytes, some, List, [], ◌∷◌, ◌++◌,
  length, lt→ltb, u32_be,
}
use mathlib.Core.List.{append_assoc, append-nil}
use awc_remote.Failure.{Result, ok}
use awc_remote.Client.{Client, Event, write, emit}
use awc_remote.Messages.{client_fence}
use awc_remote.Outgoing.{
  set_pixel_format_message, set_encodings_header, update_request_message, key_message,
  pointer_message, cut_text_message, fits, send_if, set_pixel_format, write_encodings,
  encodings_offered, set_encodings, framebuffer_update_request, key_event, pointer_event, all_latin,
  client_cut_text, send_fence,
}
use awc_remote.Proxy.Spoken.{
  Spoken, says_format, says_encodings, says_request, says_key, says_pointer, says_text, says_fence,
  spoken_bytes, encodings_bytes, Fits,
}

-- The bytes that an event puts on the wire, and those of a run of events.
unfoldable pub event_bytes : Event → Bytes
event_bytes (write b) = b
event_bytes _ = []

unfoldable pub wire : List Event → Bytes
unfolding event_bytes
wire [] = []
wire (e ∷ es) = event_bytes e ++ wire es

wire-append : (es fs : List Event) → wire (es ++ fs) ≡ wire es ++ wire fs
unfolding wire
wire-append [] fs = refl
wire-append (e ∷ es) fs =
    ap (λ (b : Bytes). event_bytes e ++ b) (wire-append es fs)
    ∙ sym (append_assoc (event_bytes e) (wire es) (wire fs))

wire-write : (b : Bytes) (c : Client) → wire (emit (write b) c).events ≡ wire c.events ++ b
unfolding wire event_bytes
wire-write b c =
    wire-append c.events (write b ∷ []) ∙ ap (λ (x : Bytes). wire c.events ++ x) (append-nil b)

-- The method of the client for what it says.
abbrev pub say : Spoken → Client → Result Client
say (says_format f) c = ok (set_pixel_format f c)
say (says_encodings es) c = set_encodings es c
say (says_request incremental x y w h) c =
    framebuffer_update_request x y (some w) (some h) incremental c
say (says_key down k) c = key_event k down c
say (says_pointer mask x y) c = pointer_event x y mask c
say (says_text text) c = client_cut_text text c
say (says_fence flags payload) c = send_fence flags payload c

-- A text is in Latin-1.
abbrev pub IsLatin : Spoken → Type 0
IsLatin (says_text text) = all_latin text ≡ true
IsLatin _ = Unit

wire-write_encodings :
    (es : List ℕ) (c : Client)
    → wire (write_encodings es c).events ≡ wire c.events ++ encodings_bytes es
unfolding write_encodings encodings_bytes
wire-write_encodings [] c = sym (append-nil (wire c.events))
wire-write_encodings (e ∷ es) c =
    wire-write_encodings es (emit (write (u32_be e)) c)
    ∙ ap (λ (b : Bytes). b ++ encodings_bytes es) (wire-write (u32_be e) c)
    ∙ append_assoc (wire c.events) (u32_be e) (encodings_bytes es)

abbrev Wrote : Bytes → Client → Result Client → Type 0
Wrote b c r = (d : Client) × (r ≡ ok d) × (wire d.events ≡ wire c.events ++ b)

sent : (fit : Bool) (b : Bytes) (c : Client) → fit ≡ true → Wrote b c (send_if fit b c)
sent true b c h = (emit (write b) c, refl, wire-write b c)
sent false b c h = cc

both_fit : (a b : Bool) → a ≡ true → b ≡ true → a && b ≡ true
both_fit true b h k = k
both_fit false b h k = cc

encodings_wrote :
    (es : List ℕ) (c : Client)
    → length es < 2 ^ 16
    → Wrote (set_encodings_header (length es) ++ encodings_bytes es) c (set_encodings es c)
unfolding set_encodings encodings_offered
encodings_wrote es c h = (
  encodings_offered es (write_encodings es (emit (write (set_encodings_header (length es))) c)),
  rw (lt→ltb (length es) (2 ^ 16) h),
  wire-write_encodings es (emit (write (set_encodings_header (length es))) c)
      ∙ ap (λ (b : Bytes). b ++ encodings_bytes es)
          (wire-write (set_encodings_header (length es)) c)
      ∙ append_assoc (wire c.events) (set_encodings_header (length es)) (encodings_bytes es),
)

-- With fields that fit their widths, and a text in Latin-1, each method of the client succeeds, and
-- puts the bytes of its message on the wire after those before.
pub wire-say :
    (m : Spoken) (c : Client)
    → Fits m
    → IsLatin m
    → (d : Client) × (say m c ≡ ok d) × (wire d.events ≡ wire c.events ++ spoken_bytes m)
unfolding spoken_bytes set_pixel_format framebuffer_update_request key_event pointer_event
    client_cut_text send_fence
wire-say (says_format f) c h l =
    (set_pixel_format f c, refl, wire-write (set_pixel_format_message f) c)
wire-say (says_encodings es) c h l = encodings_wrote es c h.0
wire-say (says_request incremental x y w k) c h l =
    sent (fits 16 x && (fits 16 y && (fits 16 w && fits 16 k)))
      (update_request_message incremental x y w k) c
      (both_fit _ _ (lt→ltb x _ h.0)
        (both_fit _ _ (lt→ltb y _ h.1) (both_fit _ _ (lt→ltb w _ h.2) (lt→ltb k _ h.3))))
wire-say (says_key down k) c h l = sent (fits 32 k) (key_message down k) c (lt→ltb k _ h)
wire-say (says_pointer mask x y) c h l =
    sent (fits 8 mask && (fits 16 x && fits 16 y)) (pointer_message mask x y) c
      (both_fit _ _ (lt→ltb mask _ h.0) (both_fit _ _ (lt→ltb x _ h.1) (lt→ltb y _ h.2)))
wire-say (says_text text) c h l =
    rw (l) (sent (fits 32 (length text)) (cut_text_message text) c (lt→ltb (length text) _ h))
wire-say (says_fence flags payload) c h l =
    sent (fits 32 flags && fits 8 (length payload)) (client_fence flags payload) c
      (both_fit _ _ (lt→ltb flags _ h.0) (lt→ltb (length payload) _ h.1))
