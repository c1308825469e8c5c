-- ===== src/Capture/Verbatim.antt =====
-- `CaptureWriter` of vncdotool/capture.py with `preserve_auth`: the record of a session that is not
-- to be rewritten.
use awc_remote.Base.{
  none, Bool, true, false, not, ◌&&◌, ◌≡◌, refl, sym, ap, ◌∙◌, Bytes, List, [], ◌∷◌, ◌++◌, length,
  take, drop, leb, Bool-cases, take-append-drop, if◌then◌else◌, inl, inr,
}
use mathlib.Core.List.{append_assoc, append-nil}
use awc_remote.Capture.{
  Tap, s2c, c2s, same_tap, Step, stopped, want, waits, Scrubber, held_back, set_pending, watch,
  after_watch, feed, is_stopped, flush_tap, CaptureWriter, record_of, feed_capture, flush,
}

watch_verbatim :
    (tap : Tap) (g : Step) (buf : Bytes)
    → (watch true tap g buf).2 ++ (watch true tap g buf).1 ≡ buf
unfolding watch
watch_verbatim tap (stopped s) buf = refl
watch_verbatim tap (want t n s k) buf = elim (Bool-cases (same_tap t tap && leb n (length buf))) [
  | inl e ↦
      rw (watch, e, append_assoc (take n buf))
        (ap (λ (b : Bytes). take n buf ++ b)
            (watch_verbatim tap (k (take n buf) (record s { recording = none })) (drop n buf))
          ∙ take-append-drop n buf)
  | inr e ↦ rw (watch, e)
]

-- What the writer has of a direction: its record, and what it still holds back.
abbrev held : Tap → CaptureWriter → Bytes
held tap w = record_of tap w ++ held_back tap w.scrubber

after_verbatim :
    (tap : Tap) (sc : Scrubber) (w : Step × Bytes × Bytes)
    → (after_watch tap sc w).1 ++ held_back tap (after_watch tap sc w).0 ≡ w.2 ++ w.1
after_verbatim s2c sc w = elim (Bool-cases (waits s2c w.0)) [
  | inl e ↦ rw (e)
  | inr e ↦ rw (e, append-nil (w.2 ++ w.1))
]
after_verbatim c2s sc w = elim (Bool-cases (waits c2s w.0)) [
  | inl e ↦ rw (e)
  | inr e ↦ rw (e, append-nil (w.2 ++ w.1))
]

passed : (tap : Tap) (sc : Scrubber) (b : Bytes) → b ++ held_back tap (set_pending tap [] sc) ≡ b
passed s2c sc b = append-nil b
passed c2s sc b = append-nil b

feed_verbatim :
    (tap : Tap) (bytes : Bytes) (sc : Scrubber)
    → (feed true tap bytes sc).1 ++ held_back tap (feed true tap bytes sc).0
      ≡ held_back tap sc ++ bytes
unfolding feed
feed_verbatim tap [] sc = sym (append-nil (held_back tap sc))
feed_verbatim tap (b ∷ bs) sc = elim (Bool-cases (waits tap sc.step)) [
  | inl e ↦ rw (e) (
      after_verbatim tap sc (watch true tap sc.step (held_back tap sc ++ (b ∷ bs)))
      ∙ watch_verbatim tap sc.step (held_back tap sc ++ (b ∷ bs)))
  | inr e ↦ rw (e) (passed tap sc (held_back tap sc ++ (b ∷ bs)))
]

-- Feeding one direction leaves the pending bytes of the other as they were.
abbrev pub other : Tap → Tap
other s2c = c2s
other c2s = s2c

after_other :
    (tap : Tap) (sc : Scrubber) (w : Step × Bytes × Bytes)
    → held_back (other tap) (after_watch tap sc w).0 ≡ held_back (other tap) sc
after_other s2c sc w = elim (Bool-cases (waits s2c w.0)) [ inl e ↦ rw (e) | inr e ↦ rw (e) ]
after_other c2s sc w = elim (Bool-cases (waits c2s w.0)) [ inl e ↦ rw (e) | inr e ↦ rw (e) ]

set_other :
    (tap : Tap) (b : Bytes) (sc : Scrubber)
    → held_back (other tap) (set_pending tap b sc) ≡ held_back (other tap) sc
set_other s2c b sc = refl
set_other c2s b sc = refl

pub feed-other :
    (p : Bool) (tap : Tap) (bytes : Bytes) (sc : Scrubber)
    → held_back (other tap) (feed p tap bytes sc).0 ≡ held_back (other tap) sc
unfolding feed
feed-other p tap [] sc = refl
feed-other p tap (b ∷ bs) sc = elim (Bool-cases (waits tap sc.step)) [
  | inl e ↦ rw (e) (after_other tap sc (watch p tap sc.step (held_back tap sc ++ (b ∷ bs))))
  | inr e ↦ rw (e) (set_other tap [] sc)
]

-- The bytes of one direction among the chunks of a session.
abbrev pub sent : Tap → List (Tap × Bytes) → Bytes
sent tap [] = []
sent tap ((t, bytes) ∷ chunks) = (if same_tap t tap then bytes else []) ++ sent tap chunks

abbrev pub feed_session : List (Tap × Bytes) → CaptureWriter → CaptureWriter
feed_session [] w = w
feed_session ((t, bytes) ∷ chunks) w = feed_session chunks (feed_capture t bytes w)

-- A writer that preserves, with `held` after each chunk.
fed_held :
    (tap t : Tap) (bytes : Bytes) (w : CaptureWriter)
    → w.preserve_auth ≡ true
    → held tap (feed_capture t bytes w) ≡ held tap w ++ (if same_tap t tap then bytes else [])
unfolding feed_capture
fed_held s2c s2c bytes w e =
    rw (e, append_assoc w.s2c_record, feed_verbatim s2c bytes w.scrubber)
      (sym (append_assoc w.s2c_record w.scrubber.s2c_pending bytes))
fed_held c2s c2s bytes w e =
    rw (e, append_assoc w.c2s_record, feed_verbatim c2s bytes w.scrubber)
      (sym (append_assoc w.c2s_record w.scrubber.c2s_pending bytes))
fed_held s2c c2s bytes w e = rw (
  append-nil (w.s2c_record ++ w.scrubber.s2c_pending),
  feed-other w.preserve_auth c2s bytes w.scrubber,
)
fed_held c2s s2c bytes w e = rw (
  append-nil (w.c2s_record ++ w.scrubber.c2s_pending),
  feed-other w.preserve_auth s2c bytes w.scrubber,
)

fed_preserves :
    (t : Tap) (bytes : Bytes) (w : CaptureWriter)
    → (feed_capture t bytes w).preserve_auth ≡ w.preserve_auth
unfolding feed_capture
fed_preserves s2c bytes w = refl
fed_preserves c2s bytes w = refl

session_held :
    (tap : Tap) (chunks : List (Tap × Bytes)) (w : CaptureWriter)
    → w.preserve_auth ≡ true
    → held tap (feed_session chunks w) ≡ held tap w ++ sent tap chunks
session_held tap [] w e = sym (append-nil (held tap w))
session_held tap ((t, bytes) ∷ chunks) w e =
    session_held tap chunks (feed_capture t bytes w) (fed_preserves t bytes w ∙ e)
    ∙ ap (λ (b : Bytes). b ++ sent tap chunks) (fed_held tap t bytes w e)
    ∙ append_assoc (held tap w) (if same_tap t tap then bytes else []) (sent tap chunks)

session_preserves :
    (chunks : List (Tap × Bytes)) (w : CaptureWriter)
    → (feed_session chunks w).preserve_auth ≡ w.preserve_auth
session_preserves [] w = refl
session_preserves ((t, bytes) ∷ chunks) w =
    session_preserves chunks (feed_capture t bytes w) ∙ fed_preserves t bytes w

not_mid : (b : Bool) → b && not true ≡ false
not_mid true = refl
not_mid false = refl

flushed :
    (tap : Tap) (w : CaptureWriter) → w.preserve_auth ≡ true → record_of tap (flush w) ≡ held tap w
unfolding flush flush_tap
flushed s2c w e = rw (e, not_mid (not (is_stopped w.scrubber.step)))
flushed c2s w e = rw (e, not_mid (not (is_stopped w.scrubber.step)))

-- A writer that preserves the handshake, over whatever chunks of the two directions in whatever order,
-- records after `flush` exactly the bytes of each direction, after what it held of it before.
pub flush-feed_session :
    (tap : Tap) (chunks : List (Tap × Bytes)) (w : CaptureWriter)
    → w.preserve_auth ≡ true
    → record_of tap (flush (feed_session chunks w))
      ≡ record_of tap w ++ held_back tap w.scrubber ++ sent tap chunks
flush-feed_session tap chunks w e =
    flushed tap (feed_session chunks w) (session_preserves chunks w ∙ e)
    ∙ session_held tap chunks w e
