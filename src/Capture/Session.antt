-- ===== src/Capture/Session.antt =====
-- A whole session with VNC authentication in vncdotool/capture.py, beside the handshake that its
-- record stands for.
use awc_remote.Base.{
  none, some, ℕ, ◌<◌, Bool, true, false, ◌&&◌, ◌≡◌, refl, ap, ◌∙◌, Bytes, List, [], ◌∷◌, length,
  leb, ◌==◌, u16_at, u32_at, u32_be, arith,
}
use awc_remote.Base.Int.{ℤ, pos}
use awc_remote.Capture.{
  Tap, s2c, c2s, Notes, Step, stopped, recorded_chunk, CaptureWriter, feed_capture, record_of,
}
use awc_remote.Capture.Handshake.{
  before, after_auth, await_result, exchange, offer, offer_types, choose_type, client_reply, run,
  reply_version, version_text, no_notes, await_client_init, await_server_init, new_capture,
}
use awc_remote.Capture.Verbatim.{feed_session, sent}
use mathlib.Core.List.{append_assoc, append-nil}
use awc_remote.Capture.Secrets.{at_step, noted, spoken_block}
use awc_remote.Capture.Exchange.{hushed, exchange-vnc}

abbrev greeted : Bytes → ℤ × ℤ → Notes
greeted greeting v = record no_notes {
  protocol_version = some (version_text greeting);
  negotiated_version = some v;
}

start :
    (v : ℤ × ℤ) (greeting reply : Bytes)
    → before v (pos 3, pos 7) ≡ false
    → reply_version reply ≡ some v
    → length greeting ≡ 12
    → length reply ≡ 12
    → feed_session ((s2c, greeting) ∷ (c2s, reply) ∷ []) (new_capture false)
      ≡ at_step
          (offer_types false v (greeted greeting v))
          (noted c2s reply (noted s2c greeting (new_capture false)))
unfolding run client_reply recorded_chunk offer offer_types
start v greeting reply new e h k =
    ap (feed_capture c2s reply)
      (spoken_block s2c 12 _ _ greeting (new_capture false) h (omega arith) refl)
    ∙ spoken_block c2s 12 _ _ reply (noted s2c greeting (new_capture false)) k (omega arith)
        (rw (e, new))
    ∙ rw (e, new)

abbrev chosen : List ℕ → Notes → Notes
chosen types s = record s { security_types = types; recording = some (1 ∷ []) }

not_zero : (n : ℕ) → 0 < n → n == 0 ≡ false
not_zero n h = ground arith

idle_block : (b : Bool) (n : ℕ) → 0 < n → b && leb n 0 ≡ false
idle_block b n h = ground arith

count_block :
    (v : ℤ × ℤ) (n : ℕ) (s : Notes) (w : CaptureWriter)
    → 0 < n
    → feed_capture s2c (n ∷ []) (at_step (offer_types false v s) w)
      ≡ at_step (choose_type false v n (record s { recording = some [] })) (noted s2c [] w)
unfolding offer_types choose_type recorded_chunk
count_block v n s w some_types =
    spoken_block s2c 1 s _ (n ∷ []) w refl (omega arith)
      (rw (not_zero n some_types, idle_block true n some_types))
    ∙ rw (not_zero n some_types)

choice :
    (v : ℤ × ℤ) (types : List ℕ) (s : Notes) (w : CaptureWriter)
    → 0 < length types
    → feed_session
        ((s2c, length types ∷ []) ∷ (s2c, types) ∷ (c2s, 2 ∷ []) ∷ [])
        (at_step (offer_types false v s) w)
      ≡ at_step
          (exchange false v 2 (chosen types s))
          (noted c2s (1 ∷ []) (noted s2c (1 ∷ 1 ∷ []) (noted s2c [] w)))
unfolding choose_type recorded_chunk exchange
choice v types s w some_types =
    ap (λ (x : CaptureWriter). feed_capture c2s (2 ∷ []) (feed_capture s2c types x))
      (count_block v (length types) s w some_types)
    ∙ ap (feed_capture c2s (2 ∷ []))
        (spoken_block s2c (length types) _ _ types (noted s2c [] w) refl some_types refl)
    ∙ spoken_block c2s 1 _ _ (2 ∷ []) (noted s2c (1 ∷ 1 ∷ []) (noted s2c [] w)) refl (omega arith)
        refl

abbrev sized : Bytes → Notes → Notes
sized init s = record s {
  width = some (u16_at init 0);
  height = some (u16_at init 2);
  recording = none;
}

abbrev calm : Notes → Notes
calm s = record s { in_auth = false; recording = none }

-- ServerInit and the name, outside the exchange.
init_block :
    (init name : Bytes) (s : Notes) (w : CaptureWriter)
    → length init ≡ 24
    → 0 < length name
    → u32_at init 20 ≡ length name
    → feed_session ((s2c, init) ∷ (s2c, name) ∷ []) (at_step (await_server_init (calm s)) w)
      ≡ at_step (stopped (sized init (calm s))) (noted s2c name (noted s2c init w))
unfolding await_server_init recorded_chunk
init_block init name s w h more e =
    ap (feed_capture s2c name) (
      spoken_block s2c 24 (calm s) _ init w h (omega arith)
        (rw (e, not_zero (length name) more, idle_block true (length name) more))
      ∙ rw (e, not_zero (length name) more))
    ∙ spoken_block s2c (length name) (sized init (calm s)) (λ name s3. stopped s3) name
        (noted s2c init w) refl more refl

finish :
    (v : ℤ × ℤ) (shared : ℕ) (init name : Bytes) (s : Notes) (w : CaptureWriter)
    → before v (pos 3, pos 8) ≡ false
    → length init ≡ 24
    → 0 < length name
    → u32_at init 20 ≡ length name
    → feed_session
        ((s2c, u32_be 0) ∷ (c2s, shared ∷ []) ∷ (s2c, init) ∷ (s2c, name) ∷ [])
        (at_step (after_auth v 2 s) w)
      ≡ at_step
          (stopped (sized init (calm s)))
          (noted s2c name (noted s2c init (noted c2s (shared ∷ []) (noted s2c (u32_be 0) w))))
unfolding after_auth await_result await_client_init recorded_chunk
finish v shared init name s w latest h more e =
    ap
      (λ (g : Step).
        feed_session ((s2c, u32_be 0) ∷ (c2s, shared ∷ []) ∷ (s2c, init) ∷ (s2c, name) ∷ [])
          (at_step g w))
      {x = after_auth v 2 s} {y = await_result false (record s { in_auth = false })} (rw (latest))
    ∙ ap (feed_session ((c2s, shared ∷ []) ∷ (s2c, init) ∷ (s2c, name) ∷ []))
        (spoken_block s2c 4 (record s { in_auth = false }) _ (u32_be 0) w refl (omega arith) refl)
    ∙ ap (feed_session ((s2c, init) ∷ (s2c, name) ∷ []))
        (spoken_block c2s 1 _ _ (shared ∷ []) (noted s2c (u32_be 0) w) refl (omega arith) refl)
    ∙ init_block init name s (noted c2s (shared ∷ []) (noted s2c (u32_be 0) w)) h more e

-- The blocks of a handshake, up to the name of the desktop, that authenticates with VNC's challenge and response.
pub record Session : Type 0 where
  pub greeting : Bytes
  pub reply : Bytes
  pub types : List ℕ
  pub challenge : Bytes
  pub response : Bytes
  pub shared : ℕ
  pub server_init : Bytes
  pub name : Bytes

-- They have the sizes that the protocol gives them, in version 3.8 or later.
pub record IsVnc (v : ℤ × ℤ) (x : Session) : Type 0 where
  pub lists_types : before v (pos 3, pos 7) ≡ false
  pub latest : before v (pos 3, pos 8) ≡ false
  pub replied : reply_version x.reply ≡ some v
  pub greeting : length x.greeting ≡ 12
  pub reply : length x.reply ≡ 12
  pub types : 0 < length x.types
  pub challenge : length x.challenge ≡ 16
  pub response : length x.response ≡ 16
  pub server_init : length x.server_init ≡ 24
  pub name : 0 < length x.name
  pub name_len : u32_at x.server_init 20 ≡ length x.name

-- The part after the exchange, and the whole.
abbrev last_blocks : Session → List (Tap × Bytes)
last_blocks x = (s2c, u32_be 0) ∷ (c2s, x.shared ∷ []) ∷ (s2c, x.server_init) ∷ (s2c, x.name) ∷ []

abbrev pub vnc_session : Session → List (Tap × Bytes)
vnc_session x =
    (s2c, x.greeting)
    ∷ (c2s, x.reply)
    ∷ (s2c, length x.types ∷ [])
    ∷ (s2c, x.types)
    ∷ (c2s, 2 ∷ [])
    ∷ (s2c, x.challenge)
    ∷ (c2s, x.response)
    ∷ (s2c, u32_be 0)
    ∷ (c2s, x.shared ∷ [])
    ∷ (s2c, x.server_init)
    ∷ (s2c, x.name)
    ∷ []

-- The session of a server that offers no type but `none`, 1.
abbrev pub none_session : Session → List (Tap × Bytes)
none_session x =
    (s2c, x.greeting)
    ∷ (c2s, x.reply)
    ∷ (s2c, 1 ∷ [])
    ∷ (s2c, 1 ∷ [])
    ∷ (c2s, 1 ∷ [])
    ∷ (s2c, u32_be 0)
    ∷ (c2s, x.shared ∷ [])
    ∷ (s2c, x.server_init)
    ∷ (s2c, x.name)
    ∷ []

abbrev opened : Session → CaptureWriter
opened x = noted c2s x.reply (noted s2c x.greeting (new_capture false))

abbrev offered : Session → CaptureWriter
offered x = noted c2s (1 ∷ []) (noted s2c (1 ∷ 1 ∷ []) (noted s2c [] (opened x)))

module _ (v : ℤ × ℤ) (x : Session) (h : IsVnc v x) where
  session_end :
      feed_session (vnc_session x) (new_capture false)
      ≡ at_step
          (stopped (sized x.server_init (calm (hushed 2 (chosen x.types (greeted x.greeting v))))))
          (noted s2c x.name (
            noted s2c x.server_init (noted c2s (x.shared ∷ []) (noted s2c (u32_be 0) (offered x)))))
  session_end =
      ap
        (feed_session (
          (s2c, length x.types ∷ [])
          ∷ (s2c, x.types)
          ∷ (c2s, 2 ∷ [])
          ∷ (s2c, x.challenge)
          ∷ (c2s, x.response)
          ∷ last_blocks x))
        (start v x.greeting x.reply h.lists_types h.replied h.greeting h.reply)
      ∙ ap (feed_session ((s2c, x.challenge) ∷ (c2s, x.response) ∷ last_blocks x))
          (choice v x.types (greeted x.greeting v) (opened x) h.types)
      ∙ ap (feed_session (last_blocks x)) (
          exchange-vnc v (chosen x.types (greeted x.greeting v)) (offered x) x.challenge x.response
            h.challenge h.response)
      ∙ finish v x.shared x.server_init x.name (hushed 2 (chosen x.types (greeted x.greeting v)))
          (offered x) h.latest h.server_init h.name h.name_len

  -- The record of a whole handshake of version 3.8 or later, with a name of the desktop that is not empty, whose blocks come in a chunk each and that authenticates with VNC's challenge and response
  -- is, in each direction, what a handshake with the same desktop sends if its server offers `none` alone.
  pub feed_session-none_session :
      (tap : Tap)
      → record_of tap (feed_session (vnc_session x) (new_capture false)) ≡ sent tap (none_session x)
  feed_session-none_session s2c = ap (record_of s2c) session_end ∙ simp (append_assoc, append-nil)
  feed_session-none_session c2s = ap (record_of c2s) session_end ∙ simp (append_assoc, append-nil)
