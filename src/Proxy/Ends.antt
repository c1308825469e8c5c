-- ===== src/Proxy/Ends.antt =====
-- The loop of `RFBServer.dataReceived` in vncdotool/loggingproxy.py, and the fuel that stands for it.
use awc_remote.Base.{
  ℕ, zero, suc, ◌+◌, ◌-◌, ◌*◌, ◌<◌, ◌≤◌, ◌≡◌, ◌≢◌, ◌⊎◌, inl, inr, refl, sym, ap, true, false, Bytes,
  none, some, length, length-drop, take, drop, byte_at, u16_at, u32_at, ltb, ◌==◌, Bool-cases,
  if_both, arith, not, ◌&&◌,
}
use mathlib.Core.Path.{subst}
use awc_remote.Proxy.{
  extended_key, cut_text, version, security, vnc_auth_response, client_init, protocol,
  extended_key_event, client_cut_text, Awaited, RfbServer, Call, returned, raised, hear, await_next,
  delete, type_len, handle_protocol, after_version, handle_version_reply, handle_security,
  handle_vnc_auth_response, handle_client_init, handle_extended_key_event, handle_client_cut_text,
  call_handler, serve, starts_with, is_minor, rfb_3,
}
use awc_remote.Proxy.Progress.{
  Stops, Progress, parked, message_Progress, short_unknown, unknown, extra, IsArmed, Armed,
  rounds_left,
}

-- The handlers before the first message.
module _ (d : RfbServer) (n : ℕ) (p : d.awaited ≡ version) (h : d.nbytes ≡ 12)
    (m : 2 * length d.buffer < n) where
  same_version : IsArmed d × (Stops d ⊎ (rounds_left d < n))
  same_version = (
    subst (λ (x : Awaited). Armed x d.nbytes d.cut_text_length) (sym p) h,
    inr (omega (arith, ap extra p)),
  )

  after_version-Progress : (msg : Bytes) → Progress n (after_version msg d)
  unfolding after_version Progress
  after_version-Progress msg =
      if_both (Progress n) (is_minor msg 51 53)
        (λ e.
          if_both (Progress n) d.password_required
            (λ e. parked n vnc_auth_response 16 d refl (omega (arith, m)))
            (λ e. parked n client_init 1 d refl (omega (arith, m))))
        (λ e.
          if_both (Progress n) (is_minor msg 55 56)
            (λ e. parked n security 1 d refl (omega (arith, m))) (λ e. same_version))

twice_less : (k l : ℕ) → 0 < k → k ≤ l → 2 * (l - k) + 0 < 2 * l + 0
twice_less k l h m = omega arith

waiting_on :
    (s : RfbServer) (n t : ℕ)
    → ltb (length s.buffer) t ≡ true
    → Progress n (returned (await_next protocol t s))
unfolding Progress
waiting_on s n t e = (ground arith, inl e)

shorter :
    (s : RfbServer) (t : ℕ)
    → 2 ≤ t
    → ltb (length s.buffer) t ≡ false
    → 2 * length (drop t s.buffer) + 1 < rounds_left s
shorter s t h e = ground (arith, length-drop t s.buffer)

module _ (s : RfbServer) where
  version_Progress :
      s.awaited ≡ version
      → s.nbytes ≡ 12
      → 12 ≤ length s.buffer
      → Progress (rounds_left s) (handle_version_reply s)
  unfolding handle_version_reply
  version_Progress p h m =
      if_both
        (λ (r : RfbServer).
          Progress (rounds_left s) (after_version (take 12 s.buffer) (delete 12 r)))
        (not (starts_with (take 12 s.buffer) rfb_3) && byte_at (take 12 s.buffer) 11 == 10)
        (λ e.
          after_version-Progress (delete 12 (record s { lost = true })) (rounds_left s) p h
            (omega (arith, length-drop 12 s.buffer, m)) (take 12 s.buffer))
        (λ e.
          after_version-Progress (delete 12 s) (rounds_left s) p h
            (omega (arith, length-drop 12 s.buffer, m)) (take 12 s.buffer))

  -- A handler that takes `k` bytes and parks one that awaits some bytes.
  taken :
      (a : Awaited) (k j : ℕ) (d : RfbServer)
      → extra a ≡ 0
      → 0 < k
      → k ≤ length s.buffer
      → d.buffer ≡ drop k s.buffer
      → Armed a j d.cut_text_length
      → Progress (rounds_left s) (returned (await_next a j d))
  taken a k j d e more h b armed =
      parked (rounds_left s) a j d armed
        (omega (arith, length-drop k s.buffer, ap {B = ℕ} (λ (x : Bytes). length x) b, e))

  protocol_Progress :
      s.awaited ≡ protocol
      → 0 < s.nbytes
      → s.nbytes ≤ length s.buffer
      → Progress (rounds_left s) (handle_protocol s)
  unfolding handle_protocol
  protocol_Progress p h m =
      if_both (Progress (rounds_left s)) (ltb (length s.buffer) (type_len (byte_at s.buffer 0)))
        (λ e. waiting_on s (rounds_left s) (type_len (byte_at s.buffer 0)) e)
        (λ e. elim (short_unknown (byte_at s.buffer 0)) [
          | inl z ↦
              unknown (byte_at s.buffer 0) (take (type_len (byte_at s.buffer 0)) s.buffer)
                (delete (type_len (byte_at s.buffer 0)) s) (rounds_left s) z
          | inr two ↦
              message_Progress (delete (type_len (byte_at s.buffer 0)) s) (rounds_left s) p h
                (shorter s (type_len (byte_at s.buffer 0)) two e) (byte_at s.buffer 0)
                (take (type_len (byte_at s.buffer 0)) s.buffer)
        ])

  -- Each handler, when the buffer holds what it awaits.
  handler_Progress :
      (a : Awaited)
      → s.awaited ≡ a
      → Armed a s.nbytes s.cut_text_length
      → s.nbytes ≤ length s.buffer
      → Progress (rounds_left s) (call_handler a s)
  unfolding call_handler handle_security handle_vnc_auth_response handle_client_init
      handle_extended_key_event handle_client_cut_text
  handler_Progress version p h m = version_Progress p h (omega (arith, h, m))
  handler_Progress security p h m =
      if_both (Progress (rounds_left s)) (byte_at s.buffer 0 == 2)
        (λ e.
          taken vnc_auth_response 1 16 (delete 1 s) refl (omega arith) (omega (arith, h, m)) refl
            refl)
        (λ e. taken client_init 1 1 (delete 1 s) refl (omega arith) (omega (arith, h, m)) refl refl)
  handler_Progress vnc_auth_response p h m =
      taken client_init 16 1 (delete 16 s) refl (omega arith) (omega (arith, h, m)) refl refl
  handler_Progress client_init p h m =
      taken protocol 1 1 (delete 1 s) refl (omega arith) (omega (arith, h, m)) refl (omega arith)
  handler_Progress protocol p h m = protocol_Progress p h m
  handler_Progress extended_key_event p h m =
      parked (rounds_left s) protocol 1
        (hear (extended_key (u32_at s.buffer 2) (u16_at s.buffer 0) (u32_at s.buffer 6))
          (delete 12 s))
        (omega arith) (omega (arith, h, m, length-drop 12 s.buffer, ap extra p))
  handler_Progress client_cut_text p h m =
      parked (rounds_left s) protocol 1
        (hear (cut_text (take s.cut_text_length s.buffer)) (delete s.cut_text_length s))
        (omega arith) (omega (arith, length-drop s.cut_text_length s.buffer, ap extra p))

stopped : (fuel : ℕ) (s : RfbServer) → Stops s → serve fuel s ≢ none
unfolding serve
stopped zero s h = rw (serve, h) (λ e. cc)
stopped (suc more) s h = rw (serve, h) (λ e. cc)

resumed :
    (more n : ℕ) (c : Call)
    → Progress n c
    → ((d : RfbServer) → IsArmed d → Stops d ⊎ (rounds_left d < n) → serve more d ≢ none)
    → (elim c [ returned d ↦ serve more d | raised d ↦ some (raised d) ]) ≢ none
unfolding Progress
resumed more n (returned d) h go = go d h.0 h.1
resumed more n (raised d) h go = λ e. cc

enough_bytes : (n l : ℕ) → ltb l n ≡ false → n ≤ l
enough_bytes n l h = ground arith

-- With a handler that awaits the bytes it takes, the loop of `dataReceived` ends: with more fuel than twice the bytes of
-- the buffer, and one more while a text is awaited, it never runs out of fuel, whatever the bytes are.
pub serve-rounds_left :
    (fuel : ℕ) (s : RfbServer) → IsArmed s → rounds_left s < fuel → serve fuel s ≢ none
unfolding serve
serve-rounds_left zero s h m = absurd (omega arith)
serve-rounds_left (suc more) s h m = elim (Bool-cases (ltb (length s.buffer) s.nbytes)) [
  | inl e ↦ stopped (suc more) s e
  | inr e ↦
      rw (serve, e)
        (resumed more (rounds_left s) (call_handler s.awaited s)
          (handler_Progress s s.awaited refl h (enough_bytes s.nbytes (length s.buffer) e))
          (λ d armed next. elim next [
            | inl stop ↦ stopped more d stop
            | inr less ↦ serve-rounds_left more d armed (omega (arith, m, less))
          ]))
]
