-- ===== src/Replay/Measured.antt =====
-- The messages that vncdotool/rfb.py writes, as vncdotool/replay.py measures them.
use awc_remote.Base.{
  ℕ, suc, ◌+◌, ◌*◌, ◌<◌, ◌≡◌, refl, ap, ◌∙◌, Bool, true, false, Bytes, some, List, [], ◌∷◌, ◌++◌,
  length, length-append, drop-append_left, ltb, byte_at, ◌==◌, if◌then◌else◌, arith,
}
use awc_remote.PixelFormat.{to_bytes}
use awc_remote.Messages.{client_fence}
use awc_remote.Proxy.Spoken.{
  Spoken, says_format, says_encodings, says_request, says_key, says_pointer, says_text, says_fence,
  spoken_bytes, encodings_bytes, Fits,
}
use awc_remote.Proxy.RoundTrip.{u16_read, u32_read, length-encodings_bytes}
use awc_remote.Proxy.Desync.{extended_key_body}
use awc_remote.Replay.Sent.{
  Sent, spoken, sent_extended_key, sent_bytes, FitsField, all_sent, EachFitsField,
}
use awc_remote.Replay.{
  Measure, measured, unknown_message, client_message_length, saw_update_request,
}

-- A fence has no known length here.
abbrev pub length_of : Sent → Measure
length_of (spoken (says_fence flags payload)) = unknown_message
length_of m = measured (length (sent_bytes m))

four : (l : ℕ) → ltb (suc (suc (suc (suc l)))) 4 ≡ false
four l = ground arith

eight : (l : ℕ) → ltb (suc (suc (suc (suc (suc (suc (suc (suc l)))))))) 8 ≡ false
eight l = ground arith

two : (l : ℕ) → ltb (suc (suc l)) 2 ≡ false
two l = ground arith

four_more : (n l : ℕ) → l ≡ 4 * n → measured (4 + 4 * n) ≡ measured (suc (suc (suc (suc l))))
four_more n l e = ap measured (omega arith)

eight_more : (l : ℕ) → measured (8 + l) ≡ measured (suc (suc (suc (suc (suc (suc (suc (suc l))))))))
eight_more l = ap measured (omega arith)

-- Bytes that begin with a message are measured as that message.
message_length :
    (m : Spoken) (rest : Bytes)
    → Fits m
    → client_message_length (spoken_bytes m ++ rest) ≡ length_of (spoken m)
unfolding client_message_length spoken_bytes client_fence to_bytes
message_length (says_format f) rest h = refl
message_length (says_encodings es) rest h =
    rw (four (length (encodings_bytes es ++ rest)), u16_read (length es) h.0)
      (four_more (length es) (length (encodings_bytes es)) (length-encodings_bytes es))
message_length (says_request incremental x y w k) rest h = refl
message_length (says_key down k) rest h = refl
message_length (says_pointer mask x y) rest h = refl
message_length (says_text text) rest h =
    rw (eight (length (text ++ rest)), u32_read (length text) h) (eight_more (length text))
message_length (says_fence flags payload) rest h = refl

-- Bytes that begin with a message that can be sent are measured as that message.
sent_length :
    (m : Sent) (rest : Bytes)
    → FitsField m
    → client_message_length (sent_bytes m ++ rest) ≡ length_of m
unfolding client_message_length
sent_length (sent_extended_key down keysym keycode) rest h =
    rw (two (length (extended_key_body down keysym keycode ++ rest)))
sent_length (spoken m) rest h = message_length m rest h

whole : (front rest : Bytes) → ltb (length (front ++ rest)) (length front) ≡ false
whole front rest = ground (arith, length-append front rest)

-- A round of the loop on bytes that begin with a message of a known length.
measured_round :
    (fuel : ℕ) (front rest : Bytes)
    → 0 < length front
    → client_message_length (front ++ rest) ≡ measured (length front)
    → saw_update_request (suc fuel) (front ++ rest)
      ≡ (if byte_at front 0 == 3 then some (true, rest) else saw_update_request fuel rest)
unfolding saw_update_request
measured_round fuel [] rest some_bytes h = absurd (omega arith)
measured_round fuel (b ∷ bs) rest some_bytes h =
    rw (saw_update_request, h, whole (b ∷ bs) rest, drop-append_left (b ∷ bs) rest)

-- Whether a run of messages has a request, and the bytes that come after the first one. A fence counts as one, and takes
-- all that follows with it.
abbrev pub first_request : List Sent → Bool × Bytes
first_request [] = (false, [])
first_request (spoken (says_request incremental x y w h) ∷ ms) = (true, all_sent ms)
first_request (spoken (says_fence flags payload) ∷ ms) = (true, [])
first_request (m ∷ ms) = first_request ms

abbrev pub count : List Sent → ℕ
count [] = 0
count (m ∷ ms) = suc (count ms)

-- A round on a run that begins with a message of a known length.
first_round :
    (m : Sent) (ms : List Sent)
    → FitsField m
    → length_of m ≡ measured (length (sent_bytes m))
    → 0 < length (sent_bytes m)
    → saw_update_request (suc (count ms)) (all_sent (m ∷ ms)) ≡ (
        if byte_at (sent_bytes m) 0 == 3
        then some (true, all_sent ms)
        else saw_update_request (count ms) (all_sent ms))
first_round m ms h e some_bytes =
    measured_round (count ms) (sent_bytes m) (all_sent ms) some_bytes
      (sent_length m (all_sent ms) h ∙ e)

-- On the bytes of any run of messages with fields that fit their widths, of the kinds that the client of rfb.py writes and QEMU's
-- extended key event, the search for a request says whether the run
-- has one, and leaves just the bytes of the messages after the first; a fence, which it cannot measure, ends it as a request
-- does, and nothing is left. A round for each message is enough.
pub saw_update_request-first_request :
    (ms : List Sent)
    → EachFitsField ms
    → saw_update_request (count ms) (all_sent ms) ≡ some (first_request ms)
unfolding spoken_bytes to_bytes client_fence saw_update_request
saw_update_request-first_request [] h = refl
saw_update_request-first_request (spoken (says_format f) ∷ ms) h =
    first_round (spoken (says_format f)) ms h.0 refl (omega arith)
    ∙ saw_update_request-first_request ms h.1
saw_update_request-first_request (spoken (says_encodings es) ∷ ms) h =
    first_round (spoken (says_encodings es)) ms h.0 refl (omega arith)
    ∙ saw_update_request-first_request ms h.1
saw_update_request-first_request (spoken (says_request incremental x y w k) ∷ ms) h =
    first_round (spoken (says_request incremental x y w k)) ms h.0 refl (omega arith)
saw_update_request-first_request (spoken (says_key down k) ∷ ms) h =
    first_round (spoken (says_key down k)) ms h.0 refl (omega arith)
    ∙ saw_update_request-first_request ms h.1
saw_update_request-first_request (spoken (says_pointer mask x y) ∷ ms) h =
    first_round (spoken (says_pointer mask x y)) ms h.0 refl (omega arith)
    ∙ saw_update_request-first_request ms h.1
saw_update_request-first_request (spoken (says_text text) ∷ ms) h =
    first_round (spoken (says_text text)) ms h.0 refl (omega arith)
    ∙ saw_update_request-first_request ms h.1
saw_update_request-first_request (spoken (says_fence flags payload) ∷ ms) h = refl
saw_update_request-first_request (sent_extended_key down keysym keycode ∷ ms) h =
    first_round (sent_extended_key down keysym keycode) ms h.0 refl (omega arith)
    ∙ saw_update_request-first_request ms h.1
