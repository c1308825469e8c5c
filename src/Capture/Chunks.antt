-- ===== src/Capture/Chunks.antt =====
-- `HandshakeScrubber._feed` of vncdotool/capture.py, and the chunks in which the bytes arrive.
use awc_remote.Base.{
  ℕ, none, Bool, true, false, ◌&&◌, ◌≡◌, refl, sym, ap, ◌∙◌, Bytes, [], ◌∷◌, ◌++◌, length, take,
  drop, leb, ◌≤◌, Bool-cases, take-append_le, drop-append_le, length-append, inl, inr, arith,
}
use mathlib.Core.List.{append_assoc, append-nil}
use awc_remote.Capture.{
  Tap, s2c, c2s, same_tap, Notes, Step, stopped, want, waits, notes_of, Scrubber, held_back,
  set_pending, recorded_chunk, watch, after_watch, feed,
}

abbrev pub Watched : Type 0
Watched = Step × Bytes × Bytes

-- A second round of the loop on more bytes, and the records of both.
abbrev then_watch : Bool → Tap → Bytes → Watched → Watched
then_watch p tap ys w = let v = watch p tap w.0 (w.1 ++ ys) in (v.0, v.1, w.2 ++ v.2)

enough :
    (n : ℕ) (b : Bool) (xs ys : Bytes)
    → b && leb n (length xs) ≡ true
    → (b && leb n (length (xs ++ ys)) ≡ true) × (n ≤ length xs)
enough n b xs ys h = (ground (arith, length-append xs ys), ground arith)

-- A record in front of both.
abbrev pub with_record : Bytes → Watched → Watched
with_record r w = (w.0, w.1, r ++ w.2)

prefix_record :
    (p : Bool) (tap : Tap) (ys r : Bytes) (w : Watched)
    → with_record r (then_watch p tap ys w) ≡ then_watch p tap ys (with_record r w)
prefix_record p tap ys r w =
    ap (λ (b : Bytes). ((watch p tap w.0 (w.1 ++ ys)).0, (watch p tap w.0 (w.1 ++ ys)).1, b))
      (sym (append_assoc r w.2 (watch p tap w.0 (w.1 ++ ys)).2))

-- A round of the loop on a whole block, and the rounds after it.
abbrev pub sent_round : Bool → Tap → Notes → (Bytes → Notes → Step) → Bytes → Bytes → Watched
sent_round p tap s k chunk buf =
    let next = k chunk (record s { recording = none }) in
    with_record (recorded_chunk p s chunk (notes_of next)) (watch p tap next buf)

module _ (p : Bool) (tap t : Tap) (n : ℕ) (s : Notes) (k : Bytes → Notes → Step) where
  pub watch_ready :
      (buf : Bytes)
      → same_tap t tap && leb n (length buf) ≡ true
      → watch p tap (want t n s k) buf ≡ sent_round p tap s k (take n buf) (drop n buf)
  unfolding watch
  watch_ready buf e = rw (watch, e)

  watch_short :
      (buf : Bytes)
      → same_tap t tap && leb n (length buf) ≡ false
      → watch p tap (want t n s k) buf ≡ (want t n s k, buf, [])
  unfolding watch
  watch_short buf e = rw (watch, e)

  sent-append :
      (xs ys : Bytes)
      → n ≤ length xs
      → sent_round p tap s k (take n (xs ++ ys)) (drop n (xs ++ ys))
        ≡ sent_round p tap s k (take n xs) (drop n xs ++ ys)
  sent-append xs ys h =
      ap (λ (b : Bytes). sent_round p tap s k b (drop n (xs ++ ys))) (take-append_le n xs ys h)
      ∙ ap (λ (b : Bytes). sent_round p tap s k (take n xs) b) (drop-append_le n xs ys h)

watch-append :
    (p : Bool) (tap : Tap) (g : Step) (xs ys : Bytes)
    → watch p tap g (xs ++ ys) ≡ then_watch p tap ys (watch p tap g xs)
unfolding watch
watch-append p tap (stopped s) xs ys = refl
watch-append p tap (want t n s k) xs ys = elim (Bool-cases (same_tap t tap && leb n (length xs))) [
  | inl e ↦
      let f = enough n (same_tap t tap) xs ys e in
      let next = k (take n xs) (record s { recording = none }) in
      let r = recorded_chunk p s (take n xs) (notes_of next) in
      watch_ready p tap t n s k (xs ++ ys) f.0
      ∙ sent-append p tap t n s k xs ys f.1
      ∙ ap (with_record r)
          (watch-append p tap (k (take n xs) (record s { recording = none })) (drop n xs) ys)
      ∙ prefix_record p tap ys r (watch p tap next (drop n xs))
      ∙ ap (then_watch p tap ys) (sym (watch_ready p tap t n s k xs e))
  | inr e ↦ ap (then_watch p tap ys) (sym (watch_short p tap t n s k xs e))
]

watch_idle :
    (p : Bool) (tap : Tap) (g : Step) (buf : Bytes)
    → waits tap g ≡ false
    → watch p tap g buf ≡ (g, buf, [])
unfolding watch waits
watch_idle p tap (stopped s) buf h = refl
watch_idle p tap (want t n s k) buf h = rw (watch, h)

-- The scrubber and the record of two calls of `_feed`.
abbrev pub then_feed : Bool → Tap → Bytes → Scrubber × Bytes → Scrubber × Bytes
then_feed p tap ys a = let b : Scrubber × Bytes = feed p tap ys a.0 in (b.0, a.1 ++ b.1)

abbrev behind : Bytes → Scrubber × Bytes → Scrubber × Bytes
behind r b = (b.0, r ++ b.1)

after_both :
    (tap : Tap) (sc : Scrubber) (w v : Watched)
    → after_watch tap sc (v.0, v.1, w.2 ++ v.2)
      ≡ behind w.2 (after_watch tap (set_pending tap w.1 (record sc { step = w.0 })) v)
after_both s2c sc w v = elim (Bool-cases (waits s2c v.0)) [
  | inl e ↦ rw (e)
  | inr e ↦ rw (e, append_assoc w.2 v.2 v.1)
]
after_both c2s sc w v = elim (Bool-cases (waits c2s v.0)) [
  | inl e ↦ rw (e)
  | inr e ↦ rw (e, append_assoc w.2 v.2 v.1)
]

idle_record : (a b c : Bytes) → (a ++ []) ++ (b ++ c) ≡ (a ++ b) ++ c
idle_record a b c = rw (append-nil a, append_assoc a b c)

module _ (tap : Tap) (sc : Scrubber) (w : Watched) where
  after_waiting :
      waits tap w.0 ≡ true
      → after_watch tap sc w ≡ (set_pending tap w.1 (record sc { step = w.0 }), w.2)
  after_waiting e = rw (e)

  after_idle :
      waits tap w.0 ≡ false
      → after_watch tap sc w ≡ (set_pending tap [] (record sc { step = w.0 }), w.2 ++ w.1)
  after_idle e = rw (e)

-- A call of `_feed` on a scrubber whose step and pending bytes are known.
module _ (p : Bool) (sc : Scrubber) (g : Step) (b : Bytes) (y : ℕ) (ys : Bytes) where
  feed_waiting :
      (tap : Tap)
      → waits tap g ≡ true
      → feed p tap (y ∷ ys) (set_pending tap b (record sc { step = g }))
        ≡ after_watch tap
            (set_pending tap b (record sc { step = g }))
            (watch p tap g (b ++ (y ∷ ys)))
  unfolding feed
  feed_waiting s2c e = rw (e)
  feed_waiting c2s e = rw (e)

  feed_idle :
      (tap : Tap)
      → waits tap g ≡ false
      → feed p tap (y ∷ ys) (set_pending tap b (record sc { step = g }))
        ≡ (set_pending tap [] (record sc { step = g }), b ++ (y ∷ ys))
  unfolding feed
  feed_idle s2c e = rw (e)
  feed_idle c2s e = rw (e)

watched_twice :
    (p : Bool) (tap : Tap) (sc : Scrubber) (w : Watched) (y : ℕ) (ys : Bytes)
    → after_watch tap sc (then_watch p tap (y ∷ ys) w)
      ≡ then_feed p tap (y ∷ ys) (after_watch tap sc w)
watched_twice p tap sc w y ys = elim (Bool-cases (waits tap w.0)) [
  | inl e ↦
      after_both tap sc w (watch p tap w.0 (w.1 ++ (y ∷ ys)))
      ∙ ap (behind w.2) (sym (feed_waiting p sc w.0 w.1 y ys tap e))
      ∙ ap (then_feed p tap (y ∷ ys)) (sym (after_waiting tap sc w e))
  | inr e ↦
      ap (λ (v : Watched). after_watch tap sc (v.0, v.1, w.2 ++ v.2))
        (watch_idle p tap w.0 (w.1 ++ (y ∷ ys)) e)
      ∙ after_idle tap sc (w.0, w.1 ++ (y ∷ ys), w.2 ++ []) e
      ∙ ap (λ (b : Bytes). (set_pending tap [] (record sc { step = w.0 }), b))
          (idle_record w.2 w.1 (y ∷ ys))
      ∙ ap (behind (w.2 ++ w.1)) (sym (feed_idle p sc w.0 [] y ys tap e))
      ∙ ap (then_feed p tap (y ∷ ys)) (sym (after_idle tap sc w e))
]

feed_nothing :
    (p : Bool) (tap : Tap) (xs : Bytes) (sc : Scrubber)
    → feed p tap (xs ++ []) sc ≡ then_feed p tap [] (feed p tap xs sc)
unfolding feed
feed_nothing p tap xs sc = rw (append-nil xs, append-nil (feed p tap xs sc).1)

-- Feeding a direction the bytes of two chunks at once leaves the same scrubber, and records the
-- same bytes, as feeding it the one chunk and then the other.
pub feed-append :
    (p : Bool) (tap : Tap) (xs ys : Bytes) (sc : Scrubber)
    → feed p tap (xs ++ ys) sc ≡ then_feed p tap ys (feed p tap xs sc)
unfolding feed
feed-append p tap [] ys sc = refl
feed-append p tap (x ∷ xs) [] sc = feed_nothing p tap (x ∷ xs) sc
feed-append p tap (x ∷ xs) (y ∷ ys) sc = elim (Bool-cases (waits tap sc.step)) [
  | inl e ↦ rw (e) (
      ap (after_watch tap sc) (
        ap (watch p tap sc.step) (sym (append_assoc (held_back tap sc) (x ∷ xs) (y ∷ ys)))
        ∙ watch-append p tap sc.step (held_back tap sc ++ (x ∷ xs)) (y ∷ ys))
      ∙ watched_twice p tap sc (watch p tap sc.step (held_back tap sc ++ (x ∷ xs))) y ys)
  | inr e ↦ rw (e) (
      ap (λ (b : Bytes). (set_pending tap [] sc, b))
        (sym (append_assoc (held_back tap sc) (x ∷ xs) (y ∷ ys)))
      ∙ ap (behind (held_back tap sc ++ (x ∷ xs))) (sym (feed_idle p sc sc.step [] y ys tap e)))
]
