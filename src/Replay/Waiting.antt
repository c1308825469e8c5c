-- ===== src/Replay/Waiting.antt =====
-- `ReplayProtocol` of vncdotool/replay.py while it holds the picture, over the chunks that a client sends.
use awc_remote.Base.{
  ℕ, ◌+◌, ◌≡◌, refl, sym, ap, ◌∙◌, Bool, true, false, Bytes, Option, none, some, List, [], ◌∷◌,
  ◌++◌, length, drop, take, if◌then◌else◌, if_both, arith,
}
use mathlib.Core.Path.{subst}
use mathlib.Core.List.{append_assoc, append-nil}
use awc_remote.Capture.{Notes}
use awc_remote.Replay.Sent.{Sent, all_sent, EachFitsField}
use awc_remote.Replay.{saw_update_request}
use awc_remote.Replay.Measured.{first_request}
use awc_remote.Replay.Search.{Ended, searched}
use awc_remote.Replay.Player.{
  Archive, Player, pace, serve_session, paced, advance, send_rest, after_search, play_received,
}
use awc_remote.Replay.Playback.{play_on}
use awc_remote.Replay.Holding.{holding, found, all_written, over, rounds_more}
use awc_remote.Replay.Split.{saw_update_request-append}
use awc_remote.Replay.Parts.{still_found}

abbrev join : List Bytes → Bytes
join [] = []
join (bytes ∷ chunks) = bytes ++ join chunks

-- A connection that is over, with what it has written, and one that may be.
unfoldable IsOver : Bytes → Option Player → Type 0
IsOver w none = ⊥
IsOver w (some q) = (q.exhausted ≡ true) × (q.written ≡ w)

unfoldable Comes : Archive → Bytes → Bool → Option Player → Type 0
Comes a w asked none = ⊥
Comes a w asked (some q) = (q.exhausted ≡ asked) × (q.written ≡ (if asked then a.recorded else w))

received-IsOver :
    (a : Archive) (bytes w : Bytes) (o : Player)
    → IsOver w (some o)
    → IsOver w (play_received 15 a bytes o)
unfolding play_received IsOver
received-IsOver a bytes w o (e, f) = if_both (IsOver w) o.exhausted (λ z. (e, f)) (λ z. absurd cc)

play_on-IsOver :
    (a : Archive) (w : Bytes) (chunks : List Bytes) (o : Option Player)
    → IsOver w o
    → IsOver w (play_on 15 a chunks o)
unfolding IsOver
play_on-IsOver a w [] none h = h
play_on-IsOver a w (bytes ∷ chunks) none h = h
play_on-IsOver a w [] (some q) h = h
play_on-IsOver a w (bytes ∷ chunks) (some q) h =
    play_on-IsOver a w chunks (play_received 15 a bytes q) (received-IsOver a bytes w q h)

over-Comes : (a : Archive) (w : Bytes) (o : Option Player) → IsOver a.recorded o → Comes a w true o
unfolding IsOver Comes
over-Comes a w none h = h
over-Comes a w (some q) h = h

module _ (a : Archive) (n : ℕ) (s : Notes) (checked : Bool) where
  -- The connection with the bytes that its last search has left.
  abbrev waiting : Bytes → Player
  waiting u = record (holding a n s checked) { unread = u }

  received :
      (u ys : Bytes) (r : Bool × Bytes)
      → saw_update_request (length (u ++ ys)) (u ++ ys) ≡ some r
      → play_received 15 a ys (waiting u) ≡ after_search a (waiting (u ++ ys)) (some r)
  unfolding play_received advance paced pace serve_session
  received u ys r e = ap (after_search a (waiting (u ++ ys))) e

  rest_sent : (u rest : Bytes) → IsOver a.recorded (after_search a (waiting u) (some (true, rest)))
  unfolding IsOver send_rest
  rest_sent u rest = (
    (over a (waiting rest) (drop n a.recorded)).0,
    all_written a n s checked rest (drop n a.recorded) refl,
  )

  -- The search over all that comes, and what the connection does over the chunks.
  abbrev Waits : Bytes → List Bytes → Option Player → Type 0
  Waits c chunks o =
      (asked : Bool) × (rounds : ℕ) × (rest : Bytes) × (saw_update_request rounds (c ++ join chunks)
        ≡ some (asked, rest))
      × Comes a (take n a.recorded) asked (play_on 15 a chunks o)

  asked_now :
      (chunks : List Bytes) (c u rest : Bytes) (rounds : ℕ)
      → saw_update_request rounds c ≡ some (true, rest)
      → Waits c chunks (after_search a (waiting u) (some (true, rest)))
  asked_now chunks c u rest rounds h =
      let f = still_found rounds c (join chunks) rest h in
      let o = after_search a (waiting u) (some (true, rest)) in
      (
        true,
        rounds,
        f.0,
        f.1,
        over-Comes a (take n a.recorded) (play_on 15 a chunks o)
            (play_on-IsOver a a.recorded chunks o (rest_sent u rest)),
      )

  regrouped :
      (c ys : Bytes) (chunks : List Bytes) (o : Option Player)
      → Waits (c ++ ys) chunks o
      → (asked : Bool) × (rounds : ℕ) × (rest : Bytes) × (saw_update_request rounds
            (c ++ join (ys ∷ chunks))
          ≡ some (asked, rest))
        × Comes a (take n a.recorded) asked (play_on 15 a chunks o)
  regrouped c ys chunks o (asked, rounds, rest, e, f) = (
    asked,
    rounds,
    rest,
    ap (saw_update_request rounds) (sym (append_assoc c ys (join chunks))) ∙ e,
    f,
  )

  -- The next chunk, given how the chunks behind it are waited for.
  after_chunk :
      (ys : Bytes) (chunks : List Bytes) (c u : Bytes) (rounds k : ℕ) (r : Bool × Bytes)
      → ((v : Bytes) (l : ℕ)
          → saw_update_request l (c ++ ys) ≡ some (false, v)
          → Waits (c ++ ys) chunks (some (waiting v)))
      → saw_update_request (rounds + k) (c ++ ys) ≡ some r
      → Waits (c ++ ys) chunks (after_search a (waiting (u ++ ys)) (some r))
  after_chunk ys chunks c u rounds k (true, rest) f h =
      asked_now chunks (c ++ ys) (u ++ ys) rest (rounds + k) h
  after_chunk ys chunks c u rounds k (false, rest) f h = f rest (rounds + k) h

  ends : (o : Option (Bool × Bytes)) → Ended o → (r : Bool × Bytes) × (o ≡ some r)
  unfolding Ended
  ends none h = absurd h
  ends (some r) h = (r, refl)

  kept_on :
      (chunks : List Bytes) (c u : Bytes) (rounds : ℕ)
      → saw_update_request rounds c ≡ some (false, u)
      → Waits c chunks (some (waiting u))
  unfolding Comes
  kept_on [] c u rounds h =
      (false, rounds, u, ap (saw_update_request rounds) (append-nil c) ∙ h, (refl, refl))
  kept_on (ys ∷ chunks) c u rounds h =
      let k = length (u ++ ys) in
      let r = ends (saw_update_request k (u ++ ys)) (searched k (u ++ ys) (omega arith)) in
      let o = received u ys r.0 r.1 in
      regrouped c ys chunks (play_received 15 a ys (waiting u)) (
        subst (Waits (c ++ ys) chunks) (sym o) (
          after_chunk ys chunks c u rounds k r.0 (λ v l g. kept_on chunks (c ++ ys) v l g)
            (saw_update_request-append rounds k c ys u r.0 h r.1)))

answer_of :
    {asked : Bool} {rest : Bytes} {r : Bool × Bytes}
    → ◌≡◌ {A = Option (Bool × Bytes)} (some (asked, rest)) (some r)
    → asked ≡ r.0
answer_of {asked = asked} h =
    ap (λ (o : Option (Bool × Bytes)). elim o [ none ↦ asked | some q ↦ q.0 ]) h

-- Two searches over the same bytes, each with rounds enough, come to the same.
same_search :
    (j k : ℕ) (b : Bytes) (asked : Bool) (rest : Bytes) (r : Bool × Bytes)
    → saw_update_request j b ≡ some (asked, rest)
    → saw_update_request k b ≡ some r
    → asked ≡ r.0
same_search j k b asked rest r e f =
    let x : saw_update_request (k + j) b ≡ some (asked, rest) = rounds_more k j b (asked, rest) e in
    let y : saw_update_request (j + k) b ≡ some r = rounds_more j k b r f in
    let z : saw_update_request (k + j) b ≡ some r =
      ap (λ (i : ℕ). saw_update_request i b) (omega arith) ∙ y in
    let t : some (asked, rest) ≡ some r = sym x ∙ z in answer_of t

came :
    (a : Archive) (w : Bytes) (asked : Bool) (o : Option Player)
    → Comes a w asked o
    → (q : Player) × (o ≡ some q)
      × (q.exhausted ≡ asked)
      × (q.written ≡ (if asked then a.recorded else w))
unfolding Comes
came a w asked none h = absurd h
came a w asked (some q) h = (q, refl, h.0, h.1)

-- After the handshake the picture is held however the client's bytes are cut: when the chunks that come are together the bytes of a
-- run of messages with fields that fit their widths, of the kinds that the client of rfb.py writes and QEMU's extended key event, a
-- connection that waits for a request has written the whole capture after the last chunk, with nothing left to play, if the run has a
-- request or a fence, which the search cannot tell from one; and else it has written nothing more than before, and has not played out.
pub play_on-first_request :
    (a : Archive) (n : ℕ) (s : Notes) (checked : Bool) (ms : List Sent) (chunks : List Bytes)
    → EachFitsField ms
    → join chunks ≡ all_sent ms
    → (q : Player) × (play_on 15 a chunks (some (holding a n s checked)) ≡ some q)
      × (q.exhausted ≡ (first_request ms).0)
      × (q.written ≡ (if (first_request ms).0 then a.recorded else take n a.recorded))
unfolding saw_update_request
play_on-first_request a n s checked ms chunks h e =
    let v = kept_on a n s checked chunks [] [] 0 refl in
    let o = play_on 15 a chunks (some (holding a n s checked)) in
    let same : v.0 ≡ (first_request ms).0 =
      same_search v.1 (length (all_sent ms)) (all_sent ms) v.0 v.2 (first_request ms)
        (ap (saw_update_request v.1) (sym e) ∙ v.3) (found ms h) in
    came a (take n a.recorded) (first_request ms).0 o
      (subst (λ (z : Bool). Comes a (take n a.recorded) z o) same v.4)
