-- ===== src/Capture/Cuts.antt =====
-- `CaptureWriter` of vncdotool/capture.py on the blocks of a session as they come off the wire: a block in several chunks, or
-- several blocks of one side in a chunk.
use awc_remote.Base.{false, ◌≡◌, refl, sym, ap, ◌∙◌, Bytes, List, [], ◌∷◌, ◌++◌}
use awc_remote.Base.Int.{ℤ}
use mathlib.Core.List.{append_assoc}
use awc_remote.Capture.{
  Tap, s2c, c2s, Scrubber, CaptureWriter, feed, feed_capture, append_to, record_of,
}
use awc_remote.Capture.Handshake.{new_capture}
use awc_remote.Capture.Chunks.{feed-append}
use awc_remote.Capture.Verbatim.{feed_session, sent}
use awc_remote.Capture.Session.{
  Session, IsVnc, vnc_session, none_session, feed_session-none_session,
}

regrouped :
    (tap : Tap) (w : CaptureWriter) (sc : Scrubber) (xs ys : Bytes)
    → append_to tap w (sc, xs ++ ys) ≡ append_to tap (append_to tap w (sc, xs)) (sc, ys)
regrouped s2c w sc xs ys =
    ap (λ (b : Bytes). record w { scrubber = sc; s2c_record = b })
      (sym (append_assoc w.s2c_record xs ys))
regrouped c2s w sc xs ys =
    ap (λ (b : Bytes). record w { scrubber = sc; c2s_record = b })
      (sym (append_assoc w.c2s_record xs ys))

last_scrubber :
    (tap : Tap) (w : CaptureWriter) (a b : Scrubber × Bytes)
    → append_to tap (append_to tap w (b.0, a.1)) b ≡ append_to tap (append_to tap w a) b
last_scrubber s2c w a b = refl
last_scrubber c2s w a b = refl

fed_after :
    (tap : Tap) (w : CaptureWriter) (a : Scrubber × Bytes) (ys : Bytes)
    → append_to tap (append_to tap w a) (feed w.preserve_auth tap ys a.0)
      ≡ feed_capture tap ys (append_to tap w a)
unfolding feed_capture
fed_after s2c w a ys = refl
fed_after c2s w a ys = refl

-- Two chunks of one side come to what the bytes of both at once come to.
feed_capture-append :
    (tap : Tap) (xs ys : Bytes) (w : CaptureWriter)
    → feed_capture tap (xs ++ ys) w ≡ feed_capture tap ys (feed_capture tap xs w)
unfolding feed_capture
feed_capture-append tap xs ys w =
    let a = feed w.preserve_auth tap xs w.scrubber in
    let b = feed w.preserve_auth tap ys a.0 in
    ap (append_to tap w) (feed-append w.preserve_auth tap xs ys w.scrubber)
    ∙ regrouped tap w b.0 a.1 b.1
    ∙ last_scrubber tap w a b
    ∙ fed_after tap w a ys

abbrev pub Chunks : Type 0
Chunks = List (Tap × Bytes)

-- Chunks of one side that follow each other, as one.
abbrev before_merged : Tap → Bytes → Chunks → Chunks
before_merged s2c b ((s2c, c) ∷ rest) = (s2c, b ++ c) ∷ rest
before_merged c2s b ((c2s, c) ∷ rest) = (c2s, b ++ c) ∷ rest
before_merged tap b rest = (tap, b) ∷ rest

abbrev pub merged : Chunks → Chunks
merged [] = []
merged ((tap, b) ∷ rest) = before_merged tap b (merged rest)

before_merged-feed :
    (tap : Tap) (b : Bytes) (rest : Chunks) (w : CaptureWriter)
    → feed_session (before_merged tap b rest) w ≡ feed_session ((tap, b) ∷ rest) w
before_merged-feed s2c b [] w = refl
before_merged-feed c2s b [] w = refl
before_merged-feed s2c b ((s2c, c) ∷ rest) w =
    ap (feed_session rest) (feed_capture-append s2c b c w)
before_merged-feed c2s b ((c2s, c) ∷ rest) w =
    ap (feed_session rest) (feed_capture-append c2s b c w)
before_merged-feed s2c b ((c2s, c) ∷ rest) w = refl
before_merged-feed c2s b ((s2c, c) ∷ rest) w = refl

merged-feed :
    (chunks : Chunks) (w : CaptureWriter) → feed_session (merged chunks) w ≡ feed_session chunks w
merged-feed [] w = refl
merged-feed ((tap, b) ∷ rest) w =
    before_merged-feed tap b (merged rest) w ∙ merged-feed rest (feed_capture tap b w)

-- The record of a whole handshake of version 3.8 or later, from the server's version to the name of its desktop, which is not empty,
-- that authenticates with VNC's challenge and response
-- is, in each direction, what a handshake with the same desktop sends if its server offers `none` alone, in whatever chunks the
-- bytes that one side sends between two of the other's come.
pub feed_session-stripped :
    (v : ℤ × ℤ) (x : Session) (chunks : Chunks) (tap : Tap)
    → IsVnc v x
    → merged chunks ≡ merged (vnc_session x)
    → record_of tap (feed_session chunks (new_capture false)) ≡ sent tap (none_session x)
feed_session-stripped v x chunks tap h e =
    ap (record_of tap) (
      sym (merged-feed chunks (new_capture false))
      ∙ ap (λ (c : Chunks). feed_session c (new_capture false)) e
      ∙ merged-feed (vnc_session x) (new_capture false))
    ∙ feed_session-none_session v x h tap
