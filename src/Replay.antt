-- ===== src/Replay.antt =====
-- vncdotool/replay.py: how the replay of a capture measures what a client sends, to find its first request for
-- an update.
pub mod Sent
pub mod Measured
pub mod Player
pub mod Rounds
pub mod Search
pub mod Pacing
pub mod Serving
pub mod Playback
pub mod Holding
pub mod Split
pub mod Parts
pub mod Waiting
use awc_remote.Base.{
  ℕ, zero, suc, ◌+◌, ◌*◌, Bool, true, false, Bytes, Option, none, some, [], ◌∷◌, length, drop,
  byte_at, u16_at, u32_at, ltb, ◌==◌, if◌then◌else◌,
}

-- A length, or `NEED_MORE` or `UNKNOWN_MESSAGE`.
pub data Measure : Type 0 where
  measured : ℕ → Measure
  need_more unknown_message : Measure

unfoldable pub client_message_length : Bytes → Measure
client_message_length buffer =
    let kind = byte_at buffer 0 in
    if kind == 0
    then measured 20
    else if kind == 2
    then (if ltb (length buffer) 4 then need_more else measured (4 + 4 * u16_at buffer 2))
    else if kind == 3
    then measured 10
    else if kind == 4
    then measured 8
    else if kind == 5
    then measured 6
    else if kind == 6
    then (if ltb (length buffer) 8 then need_more else measured (8 + u32_at buffer 4))
    else if kind == 255
    then (if ltb (length buffer) 2
        then need_more
        else if byte_at buffer 1 == 0
        then measured 12
        else unknown_message)
    else unknown_message

-- `saw_update_request`, with the buffer that it leaves, for at most `fuel` rounds of the loop; `none` when they do not suffice.
unfoldable pub saw_update_request : ℕ → Bytes → Option (Bool × Bytes)
unfolding client_message_length
saw_update_request fuel [] = some (false, [])
saw_update_request zero (b ∷ buffer) = none
saw_update_request (suc fuel) (b ∷ buffer) = elim (client_message_length (b ∷ buffer)) [
  | unknown_message ↦ some (true, [])
  | need_more ↦ some (false, b ∷ buffer)
  | measured n ↦
      let rest = saw_update_request fuel (drop n (b ∷ buffer)) in
      if ltb (length (b ∷ buffer)) n
      then some (false, b ∷ buffer)
      else if b == 3
      then some (true, drop n (b ∷ buffer))
      else rest
]
