-- ===== src/Examples/Captures.antt =====
-- Recorded sessions (vncdotool/capture.py).
use awc_remote.Base.{◌≡◌, refl, true, false, Bytes, [], ◌∷◌, ◌++◌, replicate, arith, inl, u32_be}
use awc_remote.Base.Int.{pos}
use awc_remote.Capture.{Tap, s2c, c2s, feed, flush, record_of, held_back}
use awc_remote.Capture.Handshake.{
  no_notes, reply_version, exchange, after_auth, new_scrubber, new_capture,
}
use awc_remote.Capture.Verbatim.{feed_session, sent, flush-feed_session}
use awc_remote.Capture.Chunks.{then_feed, feed-append}
use awc_remote.Capture.Held.{IsHeld, HoldsShort, feed-IsHeld}
use awc_remote.Capture.Secrets.{at_step}
use awc_remote.Capture.Exchange.{hushed, agreed, exchange-silent}
use awc_remote.Capture.Session.{Session, IsVnc, none_session}
use awc_remote.Capture.Cuts.{Chunks, feed_session-stripped}
use awc_remote.Text.Integer.{int_of, signed, skip_spaces, digits_from}

-- "RFB 003.008\n"
abbrev greeting_3_8 : Bytes
greeting_3_8 = 82 ∷ 70 ∷ 66 ∷ 32 ∷ 48 ∷ 48 ∷ 51 ∷ 46 ∷ 48 ∷ 48 ∷ 56 ∷ 10 ∷ []

abbrev one_desktop : Session
one_desktop = record {
  greeting = greeting_3_8;
  reply = greeting_3_8;
  types = 1 ∷ 2 ∷ [];
  challenge = replicate 16 7;
  response = replicate 16 9;
  shared = 1;
  server_init = replicate 23 0 ++ (1 ∷ []);
  name = 65 ∷ [];
}

one_desktop-IsVnc : IsVnc (pos 3, pos 8) one_desktop
unfolding reply_version int_of signed skip_spaces digits_from
one_desktop-IsVnc = record {
  lists_types = refl;
  latest = refl;
  replied = refl;
  greeting = refl;
  reply = refl;
  types = omega arith;
  challenge = refl;
  response = refl;
  server_init = refl;
  name = omega arith;
  name_len = refl;
}

-- The greeting comes in two chunks, the types with their count in one, and the last two blocks in one.
abbrev cut_desktop : Chunks
cut_desktop =
    (s2c, 82 ∷ 70 ∷ [])
    ∷ (s2c, 66 ∷ 32 ∷ 48 ∷ 48 ∷ 51 ∷ 46 ∷ 48 ∷ 48 ∷ 56 ∷ 10 ∷ [])
    ∷ (c2s, greeting_3_8)
    ∷ (s2c, 2 ∷ 1 ∷ 2 ∷ [])
    ∷ (c2s, 2 ∷ [])
    ∷ (s2c, replicate 16 7)
    ∷ (c2s, replicate 16 9)
    ∷ (s2c, u32_be 0)
    ∷ (c2s, 1 ∷ [])
    ∷ (s2c, replicate 23 0 ++ (1 ∷ 65 ∷ []))
    ∷ []

one_desktop_stripped :
    record_of s2c (feed_session cut_desktop (new_capture false))
    ≡ sent s2c (none_session one_desktop)
one_desktop_stripped =
    feed_session-stripped (pos 3, pos 8) one_desktop cut_desktop s2c one_desktop-IsVnc refl

ard_exchange_silent :
    feed_session
      ((s2c, 0 ∷ 2 ∷ 0 ∷ 2 ∷ [])
        ∷ (s2c, 5 ∷ 6 ∷ [])
        ∷ (s2c, 7 ∷ 8 ∷ [])
        ∷ (c2s, replicate 128 1)
        ∷ (c2s, 3 ∷ 4 ∷ [])
        ∷ [])
      (at_step (exchange false (pos 3, pos 8) 30 no_notes) (new_capture false))
    ≡ at_step (after_auth (pos 3, pos 8) 30 (hushed 30 no_notes)) (new_capture false)
ard_exchange_silent =
    exchange-silent (pos 3, pos 8) no_notes (new_capture false) 30 _
      (agreed (0 ∷ 2 ∷ 0 ∷ 2 ∷ []) (5 ∷ 6 ∷ []) (7 ∷ 8 ∷ []) (replicate 128 1) (3 ∷ 4 ∷ []) refl
        (omega arith) refl refl refl refl)

split_greeting :
    feed false s2c ((82 ∷ 70 ∷ []) ++ (66 ∷ 32 ∷ [])) (new_scrubber false)
    ≡ then_feed false s2c (66 ∷ 32 ∷ []) (feed false s2c (82 ∷ 70 ∷ []) (new_scrubber false))
split_greeting = feed-append false s2c (82 ∷ 70 ∷ []) (66 ∷ 32 ∷ []) (new_scrubber false)

new_scrubber-IsHeld : (tap : Tap) → HoldsShort tap (new_scrubber false)
new_scrubber-IsHeld s2c = inl refl
new_scrubber-IsHeld c2s = inl refl

greeting-IsHeld : IsHeld (feed false s2c (82 ∷ 70 ∷ []) (new_scrubber false)).0
greeting-IsHeld = feed-IsHeld false s2c (82 ∷ 70 ∷ []) (new_scrubber false) new_scrubber-IsHeld

preserved_whole :
    record_of c2s
      (flush (feed_session ((s2c, greeting_3_8) ∷ (c2s, 82 ∷ []) ∷ []) (new_capture true)))
    ≡ record_of c2s (new_capture true)
      ++ held_back c2s (new_scrubber true)
      ++ sent c2s ((s2c, greeting_3_8) ∷ (c2s, 82 ∷ []) ∷ [])
preserved_whole =
    flush-feed_session c2s ((s2c, greeting_3_8) ∷ (c2s, 82 ∷ []) ∷ []) (new_capture true) refl
