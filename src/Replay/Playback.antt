-- ===== src/Replay/Playback.antt =====
-- `ReplayProtocol` of vncdotool/replay.py over the calls of a connection.
use awc_remote.Base.{
  ℕ, ◌≡◌, ◌⊎◌, refl, ap, ◌∙◌, Bool, true, false, ◌||◌, Bytes, Option, none, some, List, [], ◌∷◌,
  ◌++◌, length, drop, ltb, if_both, arith, take-append-drop, if◌then◌else◌,
}
use awc_remote.Capture.{c2s, waits}
use awc_remote.Replay.Player.{Archive, Player, advance, connected, play_received, new_player}
use awc_remote.Replay.Rounds.{run-IsRested}
use awc_remote.Capture.Handshake.{no_notes}
use awc_remote.Replay.Pacing.{Mismatched, IsSound}
use awc_remote.Replay.Serving.{Leaves, paced-Leaves}

new_player-IsSound : (a : Archive) → IsSound a 14 new_player
new_player-IsSound a = record {
  rested = run-IsRested false no_notes;
  tidy = refl;
  front = refl;
  within = omega arith;
  all = λ z. absurd cc;
}

heard_more :
    (a : Archive) (p : Player) (w : Bool) (b : Bytes)
    → IsSound a 14 p
    → IsSound a 14 (record p { served = w; unread = b })
heard_more a p w b v = record {
  rested = v.rested;
  tidy = v.tidy;
  front = v.front;
  within = v.within;
  all = v.all;
}

advanced :
    (a : Archive) (p : Player) → IsSound a 14 p → p.exhausted ≡ false → Leaves a 14 (advance 15 a p)
unfolding advance
advanced a p v z = if_both (Leaves a 14) p.exhausted (λ e. absurd cc) (λ e. paced-Leaves a 14 p v z)

received_at :
    (a : Archive) (p : Player) (bytes : Bytes) (w : Bool)
    → IsSound a 14 p
    → Leaves a 14 (
        if p.exhausted
        then some (record p { served = w })
        else advance 15 a (record p { served = w; unread = p.unread ++ bytes }))
unfolding Leaves
received_at a p bytes w v =
    if_both (Leaves a 14) p.exhausted (λ e. (heard_more a p w p.unread v, λ z. absurd cc))
      (λ e. advanced a _ (heard_more a p w (p.unread ++ bytes) v) e)

play_received-Leaves :
    (a : Archive) (p : Player) (bytes : Bytes)
    → IsSound a 14 p
    → Leaves a 14 (play_received 15 a bytes p)
unfolding play_received
play_received-Leaves a p bytes v = received_at a p bytes (p.served || ltb 0 (length bytes)) v

-- The connection after its chunks.
abbrev pub play_on : ℕ → Archive → List Bytes → Option Player → Option Player
play_on fuel a chunks none = none
play_on fuel a [] (some p) = some p
play_on fuel a (bytes ∷ chunks) (some p) = play_on fuel a chunks (play_received fuel a bytes p)

abbrev pub play : ℕ → Archive → List Bytes → Option Player
play fuel a chunks = play_on fuel a chunks (connected fuel a)

play_on-Leaves :
    (a : Archive) (chunks : List Bytes) (o : Option Player)
    → Leaves a 14 o
    → Leaves a 14 (play_on 15 a chunks o)
unfolding Leaves
play_on-Leaves a [] none v = v
play_on-Leaves a (bytes ∷ chunks) none v = v
play_on-Leaves a [] (some p) v = v
play_on-Leaves a (bytes ∷ chunks) (some p) (v, w) =
    play_on-Leaves a chunks (play_received 15 a bytes p) (play_received-Leaves a p bytes v)

-- What has been written, and what is left, make up the capture; a connection that is over has written all
-- of it or was closed for the version; one that is not waits for the client, for a block of the handshake or for a request.
abbrev pub Plays : Archive → Player → Type 0
Plays a p =
    (p.written ++ drop p.position a.recorded ≡ a.recorded)
    × (p.exhausted ≡ true → (p.written ≡ a.recorded) ⊎ Mismatched a p)
    × (p.exhausted ≡ false → (waits c2s p.scrubber.step ≡ true) ⊎ (p.awaiting_request ≡ true))

left_Plays :
    (a : Archive) (o : Option Player) → Leaves a 14 o → (p : Player) × (o ≡ some p) × Plays a p
unfolding Leaves
left_Plays a none v = absurd v
left_Plays a (some p) (v, w) = (
  p,
  refl,
  (
    ap (λ (b : Bytes). b ++ drop p.position a.recorded) v.front
        ∙ take-append-drop p.position a.recorded,
    v.all,
    w,
  ),
)

connected-Leaves : (a : Archive) → Leaves a 14 (connected 15 a)
unfolding connected
connected-Leaves a = advanced a new_player (new_player-IsSound a) refl

-- Whatever the capture, and whatever a client sends in whatever chunks, each call of a connection that replays the
-- capture ends within 15 rounds of its loop; after the last of them what was written is the front of the capture, and
-- what is left the rest of it; if the connection is over, all was written, or it was closed since the client's version is another than the recorded one; if
-- not, it waits for the client.
pub play-Plays :
    (a : Archive) (chunks : List Bytes) → (p : Player) × (play 15 a chunks ≡ some p) × Plays a p
play-Plays a chunks = left_Plays a _ (play_on-Leaves a chunks _ (connected-Leaves a))
