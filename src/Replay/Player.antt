-- ===== src/Replay/Player.antt =====
-- `ReplayProtocol` and `ReplayFactory.connection_finished` of vncdotool/replay.py: a capture played back to
-- a client. The stall timer, which only logs, has no part.
use awc_remote.Base.{
  ℕ, zero, suc, ◌+◌, Bool, true, false, not, ◌&&◌, ◌||◌, Bytes, Option, none, some, [], ◌∷◌, ◌++◌,
  length, take, drop, slice, ltb, if◌then◌else◌,
}
use awc_remote.Base.Int.{ℤ, eq_ℤ}
use awc_remote.Capture.{Tap, s2c, c2s, Step, stopped, want, notes_of, Scrubber, feed, is_stopped}
use awc_remote.Capture.Handshake.{new_scrubber}
use awc_remote.Replay.{saw_update_request}

-- The capture: its bytes, and the version that was negotiated, where it is on record.
pub record Archive : Type 0 where
  pub recorded : Bytes
  pub recorded_version : Option (ℤ × ℤ)

-- The attributes of a connection; `written` and `closed` are what its transport was told.
pub record Player : Type 0 where
  pub unread : Bytes
  pub position : ℕ
  pub exhausted : Bool
  pub awaiting_request : Bool
  pub served : Bool
  pub version_checked : Bool
  pub scrubber : Scrubber
  pub written : Bytes
  pub closed : Bool

abbrev pub new_player : Player
new_player = record {
  unread = [];
  position = 0;
  exhausted = false;
  awaiting_request = false;
  served = false;
  version_checked = false;
  scrubber = new_scrubber false;
  written = [];
  closed = false;
}

abbrev pub equal_versions : ℤ × ℤ → ℤ × ℤ → Bool
equal_versions (a, b) (c, d) = eq_ℤ a c && eq_ℤ b d

-- Whether the client's version is another than the archive's, which may lack one.
abbrev pub is_other_version : Option (ℤ × ℤ) → ℤ × ℤ → Bool
is_other_version none v = false
is_other_version (some w) v = not (equal_versions w v)

-- What a round of the loop of `advance` leads to: the next round, a return, or the session.
pub data Pace : Type 0 where
  go_on hold serve_rest : Player → Pace

-- `_version_mismatch`, of the version that the handshake has by now.
unfoldable pub version_mismatch : Archive → Player → Option (ℤ × ℤ) → Pace
version_mismatch a p none = go_on p
version_mismatch a p (some v) =
    if p.version_checked
    then go_on p
    else if is_other_version a.recorded_version v
    then hold (record p { version_checked = true; closed = true; exhausted = true })
    else go_on (record p { version_checked = true })

abbrev pub negotiated_by : Scrubber → Option (ℤ × ℤ)
negotiated_by sc = (notes_of sc.step).negotiated_version

-- A round that waits for `n` bytes of the capture, or of the client.
unfoldable pub pace_at : Archive → Tap → ℕ → Player → Pace
unfolding version_mismatch
pace_at a s2c n p =
    let chunk = slice a.recorded p.position n in
    if ltb (length chunk) n
    then serve_rest p
    else go_on (record p {
      written = p.written ++ chunk;
      position = p.position + n;
      scrubber = (feed false s2c chunk p.scrubber).0;
    })
pace_at a c2s n p =
    let sc = (feed false c2s (take n p.unread) p.scrubber).0 in
    if ltb (length p.unread) n
    then hold p
    else version_mismatch a (record p { unread = drop n p.unread; scrubber = sc })
        (negotiated_by sc)

unfoldable pub pace : Archive → Step → Player → Pace
unfolding pace_at
pace a (stopped s) p = serve_rest p
pace a (want t n s k) p = pace_at a t n p

-- The end of `_serve_session`, with what is left of the capture.
abbrev pub send_bytes : Archive → Player → Bytes → Player
send_bytes a p [] = record p { exhausted = true }
send_bytes a p (b ∷ bytes) = record p {
  written = p.written ++ (b ∷ bytes);
  position = length a.recorded;
  exhausted = true;
}

unfoldable pub send_rest : Archive → Player → Player
send_rest a p = send_bytes a p (drop p.position a.recorded)

abbrev pub has_width : Option ℕ → Bool
has_width none = false
has_width (some w) = true

-- What follows the search for a request.
abbrev pub after_search : Archive → Player → Option (Bool × Bytes) → Option Player
after_search a p none = none
after_search a p (some (false, rest)) = some (record p { unread = rest })
after_search a p (some (true, rest)) = some (send_rest a (record p { unread = rest }))

-- `_serve_session`; the search goes as many rounds as there are bytes.
unfoldable pub serve_session : Archive → Player → Option Player
unfolding send_rest
serve_session a p =
    let g = p.scrubber.step in
    let awaits = p.awaiting_request || (is_stopped g && has_width (notes_of g).width) in
    let q = record p { awaiting_request = awaits } in
    if awaits
    then after_search a q (saw_update_request (length q.unread) q.unread)
    else some (send_rest a q)

-- The loop of `advance`, for at most `fuel` rounds; `none` when they do not suffice.
unfoldable pub paced : ℕ → Archive → Player → Option Player
unfolding pace serve_session
paced zero a p = none
paced (suc fuel) a p = elim (pace a p.scrubber.step p) [
  | go_on q ↦ paced fuel a q
  | hold q ↦ some q
  | serve_rest q ↦ serve_session a q
]

-- `advance`
unfoldable pub advance : ℕ → Archive → Player → Option Player
unfolding paced
advance fuel a p = if p.exhausted then some p else paced fuel a p

-- `connectionMade` and `dataReceived`
unfoldable pub connected : ℕ → Archive → Option Player
unfolding advance
connected fuel a = advance fuel a new_player

unfoldable pub play_received : ℕ → Archive → Bytes → Player → Option Player
unfolding advance
play_received fuel a bytes p =
    let q = record p { served = p.served || ltb 0 (length bytes) } in
    if q.exhausted then some q else advance fuel a (record q { unread = q.unread ++ bytes })

-- `connectionLost`: whether the server ends with the connection, if the reactor runs.
abbrev pub connection_finished : Bool → Player → Bool
connection_finished forever p = p.served && not forever
