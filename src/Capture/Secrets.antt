-- ===== src/Capture/Secrets.antt =====
-- The exchange of a security type in `HandshakeScrubber._run` of vncdotool/capture.py, as it is
-- recorded without `preserve_auth`.
use awc_remote.Base.{
  none, ℕ, zero, suc, ◌<◌, Bool, true, false, ◌&&◌, ◌≡◌, refl, ap, ◌∙◌, Bytes, [], ◌∷◌, ◌++◌,
  length, drop, leb, ◌==◌, Bool-cases, inl, inr, arith, take_all,
}
use mathlib.Core.List.{append-nil}
use awc_remote.Base.Int.{ℤ, pos}
use awc_remote.Capture.{
  Tap, s2c, c2s, same_tap, Notes, Step, stopped, want, waits, notes_of, Scrubber, held_back,
  recorded_chunk, watch, after_watch, feed, append_to, CaptureWriter, feed_capture,
}
use awc_remote.Capture.Handshake.{await_result, before, after_auth, await_client_init}
use awc_remote.Capture.Chunks.{watch_ready}

-- A scrubber at a step, with nothing held back.
abbrev pub clean : Step → Scrubber
clean g = record { step = g; s2c_pending = []; c2s_pending = [] }

-- Whether a step goes on without any byte.
abbrev pub goes_on : Tap → Step → Bool
goes_on tap (stopped s) = false
goes_on tap (want t n s k) = same_tap t tap && leb n 0

abbrev pub sent_notes : Notes → Notes
sent_notes s = record s { recording = none }

halts : (p : Bool) (tap : Tap) (g : Step) → goes_on tap g ≡ false → watch p tap g [] ≡ (g, [], [])
unfolding watch
halts p tap (stopped s) h = refl
halts p tap (want t n s k) h = rw (watch, h)

pub drop_all : (n : ℕ) (b : Bytes) → length b ≡ n → drop n b ≡ []
drop_all zero [] h = refl
drop_all zero (x ∷ xs) h = absurd (omega arith)
drop_all (suc n) [] h = refl
drop_all (suc n) (x ∷ xs) h = drop_all n xs (omega arith)

pub same_itself : (tap : Tap) → same_tap tap tap ≡ true
same_itself s2c = refl
same_itself c2s = refl

pub whole :
    (tap : Tap) (n : ℕ) (b : Bytes) → length b ≡ n → same_tap tap tap && leb n (length b) ≡ true
whole tap n b h = rw (same_itself tap, h) (ground arith)

after_clean :
    (tap : Tap) (g h : Step) (r : Bytes) → after_watch tap (clean g) (h, [], r ++ []) ≡ (clean h, r)
after_clean s2c g h r = elim (Bool-cases (waits s2c h)) [
  | inl e ↦ rw (e, append-nil r)
  | inr e ↦ rw (e, append-nil r, append-nil r)
]
after_clean c2s g h r = elim (Bool-cases (waits c2s h)) [
  | inl e ↦ rw (e, append-nil r)
  | inr e ↦ rw (e, append-nil r, append-nil r)
]

pub clean_pending : (tap : Tap) (g : Step) → held_back tap (clean g) ≡ []
clean_pending s2c g = refl
clean_pending c2s g = refl

-- A call of `_feed` with exactly the block that the grammar waits for.
module _ (p : Bool) (tap : Tap) (n : ℕ) (s : Notes) (k : Bytes → Notes → Step) where
  watched_block :
      (b : Bytes)
      → length b ≡ n
      → goes_on tap (k b (sent_notes s)) ≡ false
      → watch p tap (want tap n s k) b
        ≡ (k b (sent_notes s), [], recorded_chunk p s b (notes_of (k b (sent_notes s))) ++ [])
  watched_block b h idle =
      watch_ready p tap tap n s k b (whole tap n b h)
      ∙ rw (take_all n b h, drop_all n b h, halts p tap (k b (sent_notes s)) idle)

  pub feed_block :
      (x : ℕ) (b : Bytes)
      → length (x ∷ b) ≡ n
      → goes_on tap (k (x ∷ b) (sent_notes s)) ≡ false
      → feed p tap (x ∷ b) (clean (want tap n s k)) ≡ (
        clean (k (x ∷ b) (sent_notes s)),
        recorded_chunk p s (x ∷ b) (notes_of (k (x ∷ b) (sent_notes s))),
      )
  unfolding feed waits
  feed_block x b h idle =
      rw (same_itself tap, clean_pending tap, watched_block (x ∷ b) h idle)
        (after_clean tap (want tap n s k) (k (x ∷ b) (sent_notes s))
          (recorded_chunk p s (x ∷ b) (notes_of (k (x ∷ b) (sent_notes s)))))

  feed_whole :
      (b : Bytes)
      → length b ≡ n
      → 0 < n
      → goes_on tap (k b (sent_notes s)) ≡ false
      → feed p tap b (clean (want tap n s k))
        ≡ (clean (k b (sent_notes s)), recorded_chunk p s b (notes_of (k b (sent_notes s))))
  feed_whole [] h more idle = absurd (omega arith)
  feed_whole (x ∷ b) h more idle = feed_block x b h idle

-- A writer that rewrites, at a step of the grammar.
abbrev pub at_step : Step → CaptureWriter → CaptureWriter
at_step g w = record w { preserve_auth = false; scrubber = clean g }

unrecorded :
    (s : Notes) (b : Bytes) (after : Notes)
    → s.in_auth ≡ true
    → after.recording ≡ none
    → recorded_chunk false s b after ≡ []
unfolding recorded_chunk
unrecorded s b after h e = simp (h, e)

-- A writer with more bytes at the end of a record.
abbrev pub noted : Tap → Bytes → CaptureWriter → CaptureWriter
noted s2c r w = record w { s2c_record = w.s2c_record ++ r }
noted c2s r w = record w { c2s_record = w.c2s_record ++ r }

noted_nothing : (tap : Tap) (w : CaptureWriter) → noted tap [] w ≡ w
noted_nothing s2c w = rw (append-nil w.s2c_record)
noted_nothing c2s w = rw (append-nil w.c2s_record)

appended :
    (tap : Tap) (g h : Step) (r : Bytes) (w : CaptureWriter) (fed : Scrubber × Bytes)
    → fed ≡ (clean h, r)
    → append_to tap (at_step g w) fed ≡ at_step h (noted tap r w)
appended s2c g h r w fed e = rw (e)
appended c2s g h r w fed e = rw (e)

module _ (tap : Tap) (n : ℕ) (s : Notes) (k : Bytes → Notes → Step) (b : Bytes)
    (w : CaptureWriter) where
  -- A call with the block that the grammar waits for, at the writer.
  pub spoken_block :
      length b ≡ n
      → 0 < n
      → goes_on tap (k b (sent_notes s)) ≡ false
      → feed_capture tap b (at_step (want tap n s k) w)
        ≡ at_step
            (k b (sent_notes s))
            (noted tap (recorded_chunk false s b (notes_of (k b (sent_notes s)))) w)
  unfolding feed_capture
  spoken_block h more idle =
      appended tap (want tap n s k) (k b (sent_notes s))
        (recorded_chunk false s b (notes_of (k b (sent_notes s)))) w
        (feed false tap b (clean (want tap n s k))) (feed_whole false tap n s k b h more idle)

-- A step of the exchange that says nothing of its block records nothing of it.
pub silent_block :
    (tap : Tap) (n : ℕ) (s : Notes) (k : Bytes → Notes → Step) (b : Bytes) (w : CaptureWriter)
    → s.in_auth ≡ true
    → length b ≡ n
    → 0 < n
    → goes_on tap (k b (sent_notes s)) ≡ false
    → (notes_of (k b (sent_notes s))).recording ≡ none
    → feed_capture tap b (at_step (want tap n s k) w) ≡ at_step (k b (sent_notes s)) w
silent_block tap n s k b w auth h more idle quiet =
    spoken_block tap n s k b w h more idle
    ∙ ap (λ (r : Bytes). at_step (k b (sent_notes s)) (noted tap r w))
        (unrecorded s b (notes_of (k b (sent_notes s))) auth quiet)
    ∙ ap (at_step (k b (sent_notes s))) (noted_nothing tap w)

never : (b : Bool) → b && leb 1 0 ≡ false
never b = ground arith

never_four : (b : Bool) → b && leb 4 0 ≡ false
never_four b = ground arith

module _ (v : ℤ × ℤ) (sectype : ℕ) (s : Notes) where
  pub after_auth-goes_on : (tap : Tap) → goes_on tap (after_auth v sectype s) ≡ false
  unfolding after_auth await_client_init await_result
  after_auth-goes_on tap = elim (Bool-cases (before v (pos 3, pos 8) && sectype == 1)) [
    | inl e ↦ rw (e) (never (same_tap c2s tap))
    | inr e ↦ rw (e) (never_four (same_tap s2c tap))
  ]

  pub after_auth-recording : (notes_of (after_auth v sectype s)).recording ≡ s.recording
  unfolding after_auth await_client_init await_result
  after_auth-recording = elim (Bool-cases (before v (pos 3, pos 8) && sectype == 1)) [
    | inl e ↦ rw (e)
    | inr e ↦ rw (e)
  ]
