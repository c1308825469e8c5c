-- ===== src/Replay/Sent.antt =====
-- What a viewer sends to the replay of vncdotool/replay.py: what `RFBClient` of vncdotool/rfb.py writes, and QEMU's extended key
-- event, which other viewers write.
use awc_remote.Base.{ℕ, ◌^◌, ◌<◌, Bytes, List, [], ◌∷◌, ◌++◌}
use awc_remote.Proxy.Spoken.{Spoken, spoken_bytes, Fits}
use awc_remote.Proxy.Desync.{extended_key_body}

pub data Sent : Type 0 where
  spoken : Spoken → Sent
  sent_extended_key : ℕ → ℕ → ℕ → Sent

abbrev pub sent_bytes : Sent → Bytes
sent_bytes (spoken m) = spoken_bytes m
sent_bytes (sent_extended_key down keysym keycode) = 255 ∷ 0 ∷ extended_key_body down keysym keycode

abbrev pub FitsField : Sent → Type 0
FitsField (spoken m) = Fits m
FitsField (sent_extended_key down keysym keycode) =
    (down < 2 ^ 16) × (keysym < 2 ^ 32) × (keycode < 2 ^ 32)

-- A run of messages.
abbrev pub all_sent : List Sent → Bytes
all_sent [] = []
all_sent (m ∷ ms) = sent_bytes m ++ all_sent ms

abbrev pub EachFitsField : List Sent → Type 0
EachFitsField [] = Unit
EachFitsField (m ∷ ms) = FitsField m × EachFitsField ms
