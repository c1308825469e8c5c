-- ===== src/Capture/Exchange.antt =====
-- The secrets of a session that vncdotool/capture.py records without `preserve_auth`: the VNC challenge
-- and response, and the Diffie-Hellman numbers and credentials.
use awc_remote.Base.{
  none, some, ℕ, ◌<◌, Bool, true, false, ◌&&◌, ◌≡◌, refl, ap, ◌∙◌, Bytes, List, [], ◌∷◌, length,
  leb, u16_at, arith,
}
use awc_remote.Base.Int.{ℤ}
use awc_remote.Capture.{Tap, s2c, c2s, Notes, CaptureWriter, feed_capture}
use awc_remote.Capture.Handshake.{after_auth, exchange, ard_credentials_len}
use awc_remote.Capture.Verbatim.{feed_session}
use awc_remote.Capture.Secrets.{at_step, silent_block, after_auth-goes_on, after_auth-recording}

-- The attributes after the exchange of a type, from those before it.
abbrev pub hushed : ℕ → Notes → Notes
hushed sectype s = record s { security_type = some sectype; in_auth = true; recording = none }

-- A challenge and a response of VNC authentication leave both records as they were, and lead to a state
-- that does not depend on them.
pub exchange-vnc :
    (v : ℤ × ℤ) (s : Notes) (w : CaptureWriter) (challenge response : Bytes)
    → length challenge ≡ 16
    → length response ≡ 16
    → feed_session ((s2c, challenge) ∷ (c2s, response) ∷ []) (at_step (exchange false v 2 s) w)
      ≡ at_step (after_auth v 2 (hushed 2 s)) w
unfolding exchange
exchange-vnc v s w challenge response h k =
    ap (feed_capture c2s response)
      (silent_block s2c 16 _ _ challenge w refl h (omega arith) refl refl)
    ∙ silent_block c2s 16 _ _ response w refl k (omega arith)
        (after_auth-goes_on v 2 (hushed 2 s) c2s) (after_auth-recording v 2 (hushed 2 s))

idle_block : (b : Bool) (n : ℕ) → 0 < n → b && leb n 0 ≡ false
idle_block b n h = ground arith

-- The blocks of a Diffie-Hellman exchange, whose head gives the length of the numbers, leave both records
-- as they were, and lead to a state that does not depend on them.
pub exchange-ard :
    (v : ℤ × ℤ) (s : Notes) (w : CaptureWriter)
    (head modulus server_key credentials client_key : Bytes)
    → length head ≡ 4
    → 0 < u16_at head 2
    → length modulus ≡ u16_at head 2
    → length server_key ≡ u16_at head 2
    → length credentials ≡ ard_credentials_len
    → length client_key ≡ u16_at head 2
    → feed_session
        ((s2c, head)
          ∷ (s2c, modulus)
          ∷ (s2c, server_key)
          ∷ (c2s, credentials)
          ∷ (c2s, client_key)
          ∷ [])
        (at_step (exchange false v 30 s) w)
      ≡ at_step (after_auth v 30 (hushed 30 s)) w
unfolding exchange
exchange-ard v s w head modulus server_key credentials client_key h more m k c d =
    ap
      (λ (x : CaptureWriter).
        feed_capture c2s client_key
          (feed_capture c2s credentials (feed_capture s2c server_key (feed_capture s2c modulus x))))
      (silent_block s2c 4 _ _ head w refl h (omega arith) (idle_block true (u16_at head 2) more)
        refl)
    ∙ ap
        (λ (x : CaptureWriter).
          feed_capture c2s client_key
            (feed_capture c2s credentials (feed_capture s2c server_key x)))
        (silent_block s2c (u16_at head 2) _ _ modulus w refl m more
          (idle_block true (u16_at head 2) more) refl)
    ∙ ap (λ (x : CaptureWriter). feed_capture c2s client_key (feed_capture c2s credentials x))
        (silent_block s2c (u16_at head 2) _ _ server_key w refl k more refl refl)
    ∙ ap (feed_capture c2s client_key) (
        silent_block c2s ard_credentials_len _ _ credentials w refl c (omega arith)
          (idle_block true (u16_at head 2) more) refl)
    ∙ silent_block c2s (u16_at head 2) _ _ client_key w refl d more
        (after_auth-goes_on v 30 (hushed 30 s) c2s) (after_auth-recording v 30 (hushed 30 s))

-- The chunks of an exchange, whose secrets may be any bytes of the lengths that the type has.
pub data Exchanged : ℕ → List (Tap × Bytes) → Type 0 where
  challenged :
      (challenge response : Bytes)
      → length challenge ≡ 16
      → length response ≡ 16
      → Exchanged 2 ((s2c, challenge) ∷ (c2s, response) ∷ [])
  agreed :
      (head modulus server_key credentials client_key : Bytes)
      → length head ≡ 4
      → 0 < u16_at head 2
      → length modulus ≡ u16_at head 2
      → length server_key ≡ u16_at head 2
      → length credentials ≡ ard_credentials_len
      → length client_key ≡ u16_at head 2
      → Exchanged 30 (
          (s2c, head)
          ∷ (s2c, modulus)
          ∷ (s2c, server_key)
          ∷ (c2s, credentials)
          ∷ (c2s, client_key)
          ∷ [])

-- The challenge and response of VNC authentication, and the blocks of a Diffie-Hellman exchange, whose head gives the length of the
-- numbers, leave both records as they were, and lead to a state that does not depend on them.
pub exchange-silent :
    (v : ℤ × ℤ) (s : Notes) (w : CaptureWriter) (n : ℕ) (chunks : List (Tap × Bytes))
    → Exchanged n chunks
    → feed_session chunks (at_step (exchange false v n s) w)
      ≡ at_step (after_auth v n (hushed n s)) w
exchange-silent v s w _ _ (challenged challenge response h k) =
    exchange-vnc v s w challenge response h k
exchange-silent v s w _ _ (agreed head modulus server_key credentials client_key h more m k c d) =
    exchange-ard v s w head modulus server_key credentials client_key h more m k c d
