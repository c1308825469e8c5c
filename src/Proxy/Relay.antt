-- ===== src/Proxy/Relay.antt =====
-- A run of calls on the client of vncdotool/rfb.py, and the proxy of vncdotool/loggingproxy.py that reads
-- what they write.
use awc_remote.Base.{ℕ, ◌<◌, ◌≡◌, refl, sym, ap, ◌∙◌, Bytes, List, [], ◌∷◌, ◌++◌}
use mathlib.Core.List.{append_assoc, append-nil}
use awc_remote.Failure.{Result, ok, ◌>>>=◌}
use awc_remote.Client.{Client}
use awc_remote.Proxy.{RfbServer}
use awc_remote.Proxy.Spoken.{Spoken, spoken_bytes}
use awc_remote.Proxy.Session.{all_bytes, EachFits, Passed, serve-all_bytes}
use awc_remote.Outgoing.Written.{say, IsLatin, wire, wire-say}

-- The calls one after the other.
abbrev pub say_all : List Spoken → Client → Result Client
say_all [] c = ok c
say_all (m ∷ ms) c = say m c >>>= λ d. say_all ms d

abbrev pub EachLatin : List Spoken → Type 0
EachLatin [] = Unit
EachLatin (m ∷ ms) = IsLatin m × EachLatin ms

abbrev Said : List Spoken → Client → Type 0
Said ms c = (d : Client) × (say_all ms c ≡ ok d) × (wire d.events ≡ wire c.events ++ all_bytes ms)

said : (ms : List Spoken) (c : Client) → EachFits ms → EachLatin ms → Said ms c
said [] c h l = (c, refl, sym (append-nil (wire c.events)))
said (m ∷ ms) c h l =
    let first = wire-say m c h.0 l.0 in
    let rest = said ms first.0 h.1 l.1 in
    (
      rest.0,
      rw (first.1) rest.1,
      rest.2
          ∙ ap (λ (b : Bytes). b ++ all_bytes ms) first.2
          ∙ append_assoc (wire c.events) (spoken_bytes m) (all_bytes ms),
    )

-- Any run of calls on the client, with fields that fit their widths and texts in Latin-1, succeeds, and a proxy between two
-- messages that has just the bytes which the calls put on the wire in its buffer calls its handlers with what a front of the calls
-- said, in order. That is all the calls, and the buffer is empty afterwards, unless a message that came in parts has left the proxy waiting for
-- more bytes than one; then the bytes of the calls that are left stay in the buffer, and are fewer than that.
pub serve-say_all :
    (ms : List Spoken) (c : Client) (more n : ℕ) (s : RfbServer)
    → 0 < n
    → EachFits ms
    → EachLatin ms
    → (d : Client) × (say_all ms c ≡ ok d)
      × (wire d.events ≡ wire c.events ++ all_bytes ms)
      × Passed ms more n s
serve-say_all ms c more n s z h l =
    let spoken = said ms c h l in (spoken.0, spoken.1, spoken.2, serve-all_bytes ms more n s z h)
