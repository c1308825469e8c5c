-- ===== src/Replay/Holding.antt =====
-- How `ReplayProtocol` of vncdotool/replay.py holds the picture until the client asks for it.
use awc_remote.Base.{
  ℕ, zero, suc, ◌+◌, ◌-◌, ◌<◌, ◌≡◌, refl, sym, ap, ◌∙◌, Bool, true, false, Bytes, Option, some,
  List, [], ◌∷◌, ◌++◌, length, length-append, take, drop, take-append-drop, ltb, ◌==◌,
  if◌then◌else◌, arith,
}
use mathlib.Core.List.{append-nil}
use awc_remote.Capture.{Notes, stopped}
use awc_remote.Capture.Secrets.{clean}
use awc_remote.Proxy.Session.{some_bytes}
use awc_remote.Replay.Sent.{Sent, spoken, sent_extended_key, sent_bytes, all_sent, EachFitsField}
use awc_remote.Replay.{
  Measure, measured, unknown_message, need_more, client_message_length, saw_update_request,
}
use awc_remote.Replay.Measured.{first_request, count, saw_update_request-first_request}
use awc_remote.Replay.Player.{
  Archive, Player, pace, serve_session, paced, advance, send_rest, send_bytes, after_search,
  play_received,
}

-- A round more does not change what the search finds.
abbrev pub searched : (ℕ → Option (Bool × Bytes)) → ℕ → Bytes → Measure → Option (Bool × Bytes)
searched more x b m = elim m [
  | unknown_message ↦ some (true, [])
  | need_more ↦ some (false, x ∷ b)
  | measured n ↦
      if ltb (length (x ∷ b)) n
      then some (false, x ∷ b)
      else if x == 3
      then some (true, drop n (x ∷ b))
      else more n
]

either_way :
    (b c : Bool) (u v o o' : Option (Bool × Bytes)) (r : Bool × Bytes)
    → (if b then u else if c then v else o) ≡ some r
    → (o ≡ some r → o' ≡ some r)
    → (if b then u else if c then v else o') ≡ some r
either_way true c u v o o' r h f = h
either_way false true u v o o' r h f = h
either_way false false u v o o' r h f = f h

searched_more :
    (f g : ℕ → Option (Bool × Bytes)) (x : ℕ) (b : Bytes) (m : Measure) (r : Bool × Bytes)
    → searched f x b m ≡ some r
    → ((n : ℕ) → f n ≡ some r → g n ≡ some r)
    → searched g x b m ≡ some r
searched_more f g x b unknown_message r h k = h
searched_more f g x b need_more r h k = h
searched_more f g x b (measured n) r h k =
    either_way (ltb (length (x ∷ b)) n) (x == 3) _ _ (f n) (g n) r h (k n)

round_more :
    (fuel : ℕ) (b : Bytes) (r : Bool × Bytes)
    → saw_update_request fuel b ≡ some r
    → saw_update_request (suc fuel) b ≡ some r
unfolding saw_update_request
round_more fuel [] r h = h
round_more zero (x ∷ b) r h = absurd cc
round_more (suc fuel) (x ∷ b) r h =
    searched_more (λ n. saw_update_request fuel (drop n (x ∷ b)))
      (λ n. saw_update_request (suc fuel) (drop n (x ∷ b))) x b (client_message_length (x ∷ b)) r h
      (λ n e. round_more fuel (drop n (x ∷ b)) r e)

pub rounds_more :
    (extra fuel : ℕ) (b : Bytes) (r : Bool × Bytes)
    → saw_update_request fuel b ≡ some r
    → saw_update_request (extra + fuel) b ≡ some r
rounds_more zero fuel b r h = ap (λ (n : ℕ). saw_update_request n b) (omega arith) ∙ h
rounds_more (suc extra) fuel b r h =
    let e : suc extra + fuel ≡ suc (extra + fuel) = omega arith in
    rw (e) (round_more (extra + fuel) b r (rounds_more extra fuel b r h))

some_sent : (m : Sent) → 0 < length (sent_bytes m)
some_sent (spoken m) = some_bytes m
some_sent (sent_extended_key down keysym keycode) = omega arith

count_bytes : (ms : List Sent) → (extra : ℕ) × (length (all_sent ms) ≡ extra + count ms)
count_bytes [] = (0, omega arith)
count_bytes (m ∷ ms) =
    let c = count_bytes ms in
    (
      length (sent_bytes m) - 1 + c.0,
      omega (arith, length-append (sent_bytes m) (all_sent ms), c.1, some_sent m),
    )

pub found :
    (ms : List Sent)
    → EachFitsField ms
    → saw_update_request (length (all_sent ms)) (all_sent ms) ≡ some (first_request ms)
found ms h =
    let c = count_bytes ms in
    ap (λ (n : ℕ). saw_update_request n (all_sent ms)) c.1
    ∙ rounds_more c.0 (count ms) (all_sent ms) (first_request ms)
        (saw_update_request-first_request ms h)

-- A connection after the handshake, which has sent the front of the capture and read all that came.
abbrev pub holding : Archive → ℕ → Notes → Bool → Player
holding a n s checked = record {
  unread = [];
  position = n;
  exhausted = false;
  awaiting_request = true;
  served = true;
  version_checked = checked;
  scrubber = clean (stopped s);
  written = take n a.recorded;
  closed = false;
}

-- What the search leaves: whether all is written, and the bytes that are left for later.
abbrev pub Answered : Archive → Player → Bool × Bytes → Player → Type 0
Answered a p (asked, rest) q =
    (q.exhausted ≡ asked)
    × (q.unread ≡ rest)
    × (q.written ≡ (if asked then a.recorded else p.written))

pub all_written :
    (a : Archive) (n : ℕ) (s : Notes) (checked : Bool) (unread r : Bytes)
    → drop n a.recorded ≡ r
    → (send_bytes a (record (holding a n s checked) { unread = unread }) r).written ≡ a.recorded
all_written a n s checked unread [] h =
    sym (append-nil (take n a.recorded))
    ∙ ap (λ (b : Bytes). take n a.recorded ++ b) (sym h)
    ∙ take-append-drop n a.recorded
all_written a n s checked unread (x ∷ r) h =
    ap (λ (b : Bytes). take n a.recorded ++ b) (sym h) ∙ take-append-drop n a.recorded

pub over :
    (a : Archive) (p : Player) (r : Bytes)
    → ((send_bytes a p r).exhausted ≡ true) × ((send_bytes a p r).unread ≡ p.unread)
over a p [] = (refl, refl)
over a p (x ∷ r) = (refl, refl)

answered :
    (a : Archive) (n : ℕ) (s : Notes) (checked : Bool) (unread : Bytes) (r : Bool × Bytes)
    → (q : Player) × (after_search a (record (holding a n s checked) { unread = unread }) (some r)
        ≡ some q)
      × Answered a (holding a n s checked) r q
unfolding send_rest
answered a n s checked unread (false, rest) = (_, refl, (refl, refl, refl))
answered a n s checked unread (true, rest) =
    let o = over a (record (holding a n s checked) { unread = rest }) (drop n a.recorded) in
    (_, refl, (o.0, o.1, all_written a n s checked rest (drop n a.recorded) refl))

-- After the handshake the picture is held: when bytes come that are those of any run of messages with fields that fit their widths, a
-- connection that waits for a request has written the whole capture afterwards if the run has one, or has a fence, which the search
-- cannot tell from one, and nothing more than before if it has none; it keeps for later the bytes of the messages after the request.
pub play_received-first_request :
    (a : Archive) (n : ℕ) (s : Notes) (checked : Bool) (ms : List Sent)
    → EachFitsField ms
    → (q : Player) × (play_received 15 a (all_sent ms) (holding a n s checked) ≡ some q)
      × Answered a (holding a n s checked) (first_request ms) q
unfolding play_received advance paced pace serve_session
play_received-first_request a n s checked ms h =
    let r = answered a n s checked (all_sent ms) (first_request ms) in
    (
      r.0,
      ap (after_search a (record (holding a n s checked) { unread = all_sent ms })) (found ms h)
          ∙ r.1,
      r.2,
    )
