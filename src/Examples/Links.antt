-- ===== src/Examples/Links.antt =====
-- Connections of the logging proxy (vncdotool/loggingproxy.py), and a capture that is replayed (vncdotool/replay.py).
use awc_remote.Base.{◌+◌, ◌≤◌, ◌≡◌, true, false, none, some, List, [], ◌∷◌, length}
use awc_remote.Capture.{s2c, c2s}
use awc_remote.Proxy.Links.{ProxyEvent, connects, sends, ends}
use awc_remote.Proxy.Claims.{count_served}
use awc_remote.Proxy.OneShot.{run_proxy, one_shot_factory, run_proxy-one_shot}
use awc_remote.Proxy.Archived.{EachClear, LinksClear, run_proxy-EachClear}
use awc_remote.Replay.Player.{Archive, Player}
use awc_remote.Replay.Playback.{play, Plays, play-Plays}

-- A client is served, a second one comes too early, and the first one ends.
abbrev two_clients : List ProxyEvent
two_clients =
    connects ∷ connects ∷ sends c2s 1 (82 ∷ []) ∷ sends s2c 1 (82 ∷ 70 ∷ []) ∷ ends 1 true ∷ []

one_archive :
    count_served (run_proxy two_clients (one_shot_factory true false, [])).1
      + length (run_proxy two_clients (one_shot_factory true false, [])).0.archives
    ≤ 1
one_archive = run_proxy-one_shot two_clients true false

clear_archive :
    EachClear (run_proxy two_clients (one_shot_factory true false, [])).0.archives
    × LinksClear (run_proxy two_clients (one_shot_factory true false, [])).1
clear_archive = run_proxy-EachClear two_clients (one_shot_factory true false) tt

-- A capture that ends in the greeting "RFB 003.008\n".
abbrev greeting_only : Archive
greeting_only = record {
  recorded = 82 ∷ 70 ∷ 66 ∷ 32 ∷ 48 ∷ 48 ∷ 51 ∷ 46 ∷ 48 ∷ 48 ∷ 56 ∷ 10 ∷ [];
  recorded_version = none;
}

greeting_played :
    (p : Player) × (play 15 greeting_only ((82 ∷ []) ∷ (70 ∷ []) ∷ []) ≡ some p)
    × Plays greeting_only p
greeting_played = play-Plays greeting_only ((82 ∷ []) ∷ (70 ∷ []) ∷ [])
