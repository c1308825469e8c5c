-- ===== src/Examples/Proxies.antt =====
-- Messages of a client and their way through the proxy and the replay (vncdotool/rfb.py,
-- vncdotool/loggingproxy.py, vncdotool/replay.py).
use awc_remote.Base.{
  Bytes, ◌≡◌, ◌≢◌, refl, none, some, true, false, List, [], ◌∷◌, ◌++◌, arith, take, drop,
  if◌then◌else◌,
}
use awc_remote.Failure.{ok}
use awc_remote.Client.{Client, new_client}
use awc_remote.Proxy.{RfbServer, connection_made, raised, serve}
use awc_remote.Proxy.Spoken.{
  Spoken, says_request, says_key, says_text, says_encodings, spoken_bytes, between,
}
use awc_remote.Proxy.Session.{all_bytes, Passed, serve-all_bytes}
use awc_remote.Proxy.Ends.{serve-rounds_left}
use awc_remote.Proxy.Desync.{serve-set_encodings_header}
use awc_remote.Proxy.Relay.{say_all, serve-say_all}
use awc_remote.Replay.{saw_update_request}
use awc_remote.Capture.Handshake.{no_notes}
use awc_remote.Replay.Player.{Archive, Player}
use awc_remote.Replay.Holding.{holding}
use awc_remote.Replay.Playback.{play_on}
use awc_remote.Replay.Waiting.{play_on-first_request}
use awc_remote.Replay.Sent.{Sent, spoken, sent_extended_key, all_sent}
use awc_remote.Replay.Measured.{count, first_request, saw_update_request-first_request}
use awc_remote.Outgoing.{set_encodings_header}
use awc_remote.Outgoing.Written.{wire}

abbrev joined : RfbServer
joined = connection_made false

-- The key `a` goes down, and a text follows.
abbrev two_messages : List Spoken
two_messages = says_key true 97 ∷ says_text (104 ∷ 105 ∷ []) ∷ []

-- After a request in two parts the server waits for ten bytes, and two keys are sixteen: the second has to wait.
abbrev two_keys : List Spoken
two_keys = says_key true 97 ∷ says_key false 97 ∷ []

two_keys_heard : Passed two_keys 0 10 joined
two_keys_heard = serve-all_bytes two_keys 0 10 joined (omega arith) (omega arith, (omega arith, tt))

abbrev quiet_client : Client
quiet_client = new_client (record {
  shared = false;
  username = none;
  password = none;
  tls_hostname = none;
  tls_allow_unverified = false;
})

abbrev three_calls : List Spoken
three_calls = says_encodings (0 ∷ 16 ∷ []) ∷ says_key true 97 ∷ says_text (104 ∷ 105 ∷ []) ∷ []

three_calls_relayed :
    (d : Client) × (say_all three_calls quiet_client ≡ ok d)
    × (wire d.events ≡ wire quiet_client.events ++ all_bytes three_calls)
    × Passed three_calls 0 1 joined
three_calls_relayed =
    serve-say_all three_calls quiet_client 0 1 joined (omega arith)
      ((omega arith, (omega arith, (omega arith, tt))), (omega arith, (omega arith, tt)))
      (tt, (tt, (refl, tt)))

joined_ends : serve 1 joined ≢ none
joined_ends = serve-rounds_left 1 joined refl (omega arith)

-- Of two encodings the first has come.
split_encodings :
    serve 1 (between 1 (set_encodings_header 2 ++ (0 ∷ 0 ∷ 0 ∷ 16 ∷ [])) joined)
    ≡ some (raised (between 1 (0 ∷ 0 ∷ 0 ∷ 16 ∷ []) joined))
split_encodings =
    serve-set_encodings_header 2 1 0 (0 ∷ 0 ∷ 0 ∷ 16 ∷ []) joined (omega arith) (omega arith)
      (omega arith)

-- A key as an extended event, a request, and the key again.
abbrev keys_and_request : List Sent
keys_and_request =
    sent_extended_key 1 97 30
    ∷ spoken (says_request false 0 0 8 8)
    ∷ spoken (says_key false 97)
    ∷ []

request_found :
    saw_update_request (count keys_and_request) (all_sent keys_and_request)
    ≡ some (first_request keys_and_request)
request_found = saw_update_request-first_request keys_and_request (
  (omega arith, omega arith, omega arith),
  ((omega arith, omega arith, omega arith, omega arith), (omega arith, tt)),
)

-- A capture of four bytes, of which two are out when a request comes.
abbrev four_bytes : Archive
four_bytes = record { recorded = 1 ∷ 2 ∷ 3 ∷ 4 ∷ []; recorded_version = none }

-- The bytes of the three messages, cut within the first and within the request.
abbrev cut_messages : List Bytes
cut_messages = let b = all_sent keys_and_request in take 5 b ∷ take 8 (drop 5 b) ∷ drop 13 b ∷ []

picture_asked :
    (q : Player) × (play_on 15 four_bytes cut_messages (some (holding four_bytes 2 no_notes true))
      ≡ some q)
    × (q.exhausted ≡ (first_request keys_and_request).0)
    × (q.written ≡ (
        if (first_request keys_and_request).0
        then four_bytes.recorded
        else take 2 four_bytes.recorded))
unfolding spoken_bytes
picture_asked =
    play_on-first_request four_bytes 2 no_notes true keys_and_request cut_messages
      (
        (omega arith, omega arith, omega arith),
        ((omega arith, omega arith, omega arith, omega arith), (omega arith, tt)),
      )
      refl
