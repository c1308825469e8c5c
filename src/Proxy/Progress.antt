-- ===== src/Proxy/Progress.antt =====
-- What a call of a handler of `RFBServer` (vncdotool/loggingproxy.py) leaves to do: the measure of its loop.
use awc_remote.Base.{
  ℕ, ◌+◌, ◌*◌, ◌<◌, ◌≤◌, ◌≡◌, ◌⊎◌, inr, refl, sym, ap, true, Bytes, length, length-drop, byte_at,
  u16_at, u32_at, ltb, ◌==◌, if_both, arith,
}
use mathlib.Core.Path.{subst}
use awc_remote.Proxy.{
  version, security, vnc_auth_response, client_init, protocol, extended_key_event, client_cut_text,
  Awaited, RfbServer, Call, returned, raised, Message, hear, await_next, delete, type_len,
  handle_message,
}

-- The handler is armed with the number of bytes that it takes.
abbrev pub Armed : Awaited → ℕ → ℕ → Type 0
Armed version n text = n ≡ 12
Armed security n text = n ≡ 1
Armed vnc_auth_response n text = n ≡ 16
Armed client_init n text = n ≡ 1
Armed protocol n text = 0 < n
Armed extended_key_event n text = n ≡ 10
Armed client_cut_text n text = n ≡ text

abbrev pub IsArmed : RfbServer → Type 0
IsArmed s = Armed s.awaited s.nbytes s.cut_text_length

-- A text may be empty, and its round then takes no byte.
abbrev pub extra : Awaited → ℕ
extra client_cut_text = 1
extra _ = 0

abbrev pub rounds_left : RfbServer → ℕ
rounds_left s = 2 * length s.buffer + extra s.awaited

-- After a call the loop stops, or fewer rounds are left.
abbrev pub Stops : RfbServer → Type 0
Stops d = ltb (length d.buffer) d.nbytes ≡ true

unfoldable pub Progress : ℕ → Call → Type 0
Progress n (raised d) = Unit
Progress n (returned d) = IsArmed d × (Stops d ⊎ (rounds_left d < n))

Armed-protocol : (a : Awaited) (n text : ℕ) → a ≡ protocol → 0 < n → Armed a n text
Armed-protocol a n text e h = subst (λ (x : Awaited). Armed x n text) (sym e) h

-- A call that leaves the server between two messages, with fewer bytes.
pub between_messages :
    (d : RfbServer) (n : ℕ)
    → d.awaited ≡ protocol
    → 0 < d.nbytes
    → 2 * length d.buffer + 1 < n
    → Progress n (returned d)
unfolding Progress
between_messages d n p h m =
    (Armed-protocol d.awaited d.nbytes d.cut_text_length p h, inr (omega (arith, ap extra p)))

-- A call that parks another handler, with fewer bytes.
pub parked :
    (n : ℕ) (a : Awaited) (k : ℕ) (d : RfbServer)
    → Armed a k d.cut_text_length
    → 2 * length d.buffer + extra a < n
    → Progress n (returned (await_next a k d))
unfolding Progress
parked n a k d h m = (h, inr m)

pub stuck : (n : ℕ) (d : RfbServer) → Progress n (raised d)
unfolding Progress
stuck n d = tt

module _ (s : RfbServer) (n : ℕ) (p : s.awaited ≡ protocol) (h : 0 < s.nbytes)
    (m : 2 * length s.buffer + 1 < n) where
  heard_whole : (msg : Message) → Progress n (returned (hear msg s))
  heard_whole msg = between_messages (hear msg s) n p h m

  heard_part : (msg : Message) (k : ℕ) → Progress n (returned (hear msg (delete k s)))
  heard_part msg k =
      between_messages (hear msg (delete k s)) n p h (omega (arith, length-drop k s.buffer))

  pub message_Progress : (ptype : ℕ) (msg : Bytes) → Progress n (handle_message ptype msg s)
  unfolding handle_message
  message_Progress ptype msg =
      if_both (Progress n) (ptype == 0) (λ e. heard_whole _)
        (λ e.
          if_both (Progress n) (ptype == 2)
            (λ e.
              if_both (Progress n) (ltb (length s.buffer) (4 * u16_at msg 2)) (λ e. stuck n s)
                (λ e. heard_part _ (4 * u16_at msg 2)))
            (λ e.
              if_both (Progress n) (ptype == 3) (λ e. heard_whole _)
                (λ e.
                  if_both (Progress n) (ptype == 4) (λ e. heard_whole _)
                    (λ e.
                      if_both (Progress n) (ptype == 5) (λ e. heard_whole _)
                        (λ e.
                          if_both (Progress n) (ptype == 6)
                            (λ e.
                              parked n client_cut_text (u32_at msg 4)
                                (record s { cut_text_length = u32_at msg 4 }) refl m)
                            (λ e.
                              if_both (Progress n) (ptype == 248)
                                (λ e. heard_part _ (byte_at msg 8))
                                (λ e.
                                  if_both (Progress n) (ptype == 255)
                                    (λ e.
                                      if_both (Progress n) (byte_at msg 1 == 0)
                                        (λ e.
                                          parked n extended_key_event 10 s refl (omega (arith, m)))
                                        (λ e. stuck n s))
                                    (λ e. stuck n s))))))))

-- A type of message that is known has a fixed part of at least two bytes.
pub short_unknown : (ptype : ℕ) → (type_len ptype ≡ 0) ⊎ (2 ≤ type_len ptype)
unfolding type_len
short_unknown ptype = ground arith

pub unknown :
    (ptype : ℕ) (msg : Bytes) (s : RfbServer) (n : ℕ)
    → type_len ptype ≡ 0
    → Progress n (handle_message ptype msg s)
unfolding type_len handle_message Progress
unknown ptype msg s n e = ground arith
