-- ===== src/Examples/Commands.antt =====
-- Command lines (vncdotool/command.py).
use awc_remote.Base.{
  ℕ, ◌/◌, ◌≡◌, ◌≢◌, refl, Bool, true, false, Option, none, some, [], ◌∷◌, ◌==◌, arith,
}
use awc_remote.Base.Int.{ℤ, pos, negsuc}
use awc_remote.Text.Integer.{int_of, signed, skip_spaces, digits_from}
use awc_remote.DoTool.Keys.{text}
use awc_remote.Command.{Platform, ok}
use awc_remote.Command.Build.{build}
use awc_remote.Command.Script.{
  key_line, type_line, pastefile_line, move_line, expect_line, pause_line, no_fuzz, Lines,
  all_words, all_calls, rounds,
}
use awc_remote.Command.Spoken.{build-all_words}
use awc_remote.Command.Ends.{build-out_of_fuel}
use awc_remote.Command.Servers.{
  Resolver, unspec, address, parse_server, is_websocket_url, scheme_of, family_of,
}
use awc_remote.Command.Spelled.{plain_host, port, spell, parse_server-spell}
use awc_remote.Command.Status.{
  completed, lost_connection, run_events, exit_argument, outcome, success, CompletesFirst,
  run_events-outcome,
}

abbrev whole_number : Option ℤ → Option ℕ
whole_number none = none
whole_number (some (pos n)) = some n
whole_number (some (negsuc n)) = none

abbrev same_number : ℕ → ℤ → Bool
same_number a (pos b) = a == b
same_number a (negsuc b) = false

-- A platform where every float is a whole number.
abbrev platform : Platform ℕ
platform = record {
  read_int = int_of;
  read_float = λ w. whole_number (int_of w);
  to_int = λ n. some (pos n);
  equals = same_number;
  milliseconds = λ n. 0;
  divide = λ a b. some (a / b);
  is_file = λ w. false;
  content = λ w. some (120 ∷ 13 ∷ 10 ∷ 121 ∷ []);
  lex = λ w. none;
  extension = λ w. text ".png";
}

-- key a, type -a, mousemove 5 7, pastefile f, expect b, sleep 3; the file holds the letter x, both parts of a line's end, and y.
abbrev script : Lines ℕ
script =
    (text "key", key_line (text "a"))
    ∷ (text "type", type_line (text "-a"))
    ∷ (text "mousemove", move_line ((text "5", pos 5), (text "7", pos 7)))
    ∷ (text "pastefile", pastefile_line (text "f") ((120 ∷ []) ∷ []) (121 ∷ []))
    ∷ (text "expect", expect_line (text "b") no_fuzz)
    ∷ (text "sleep", pause_line (text "3") 3 3)
    ∷ []

script_built :
    build platform (some 10) 1 false (rounds script 0) (all_words script [])
    ≡ some (ok (all_calls platform (some 10) 1 false script []))
unfolding int_of signed skip_spaces digits_from
script_built = build-all_words platform (some 10) 1 false script (
  refl,
  tt,
  (
    refl,
    tt,
    (
      refl,
      (refl, refl),
      (refl, (refl, ((refl, tt), tt), (refl, tt)), (refl, refl, (refl, (refl, refl), tt))),
    ),
  ),
)

unknown_ends : build platform none 1 false 2 (text "go" ∷ text "on" ∷ []) ≢ none
unknown_ends =
    build-out_of_fuel platform none 1 false (λ w. refl) 2 (text "go" ∷ text "on" ∷ []) (omega arith)

-- A machine without files that has every IPv6 address.
abbrev resolver : Resolver
resolver = record {
  exists = λ path. false;
  has_unix = true;
  is_ipv4 = λ host. false;
  is_ipv6 = λ host. true;
  read_int = int_of;
  show = λ n. [];
  urlsplit = λ url. none;
  urlunsplit = λ scheme netloc path query. path;
}

desk_5901 :
    parse_server resolver (spell (plain_host (text "desk")) (port (text "5901") (pos 5901)))
    ≡ some (address unspec (text "desk") (pos 5901))
unfolding is_websocket_url scheme_of family_of int_of signed skip_spaces digits_from
desk_5901 =
    parse_server-spell resolver (plain_host (text "desk")) (port (text "5901") (pos 5901))
      (refl, refl) (refl, refl) refl

completed_then_lost :
    (exit_argument (run_events (completed ∷ lost_connection (λ t. true) ∷ []) none)
      ≡ outcome (completed ∷ lost_connection (λ t. true) ∷ []))
    × (exit_argument (run_events (completed ∷ lost_connection (λ t. true) ∷ []) none) ≡ success
        → CompletesFirst (completed ∷ lost_connection (λ t. true) ∷ []))
completed_then_lost = run_events-outcome (completed ∷ lost_connection (λ t. true) ∷ [])
