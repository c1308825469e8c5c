-- ===== src/Capture/Held.antt =====
-- What `HandshakeScrubber` of vncdotool/capture.py holds back between two calls.
use awc_remote.Base.{
  none, ℕ, ◌<◌, Bool, true, false, ◌&&◌, ◌⊎◌, ◌≡◌, refl, ◌∙◌, Bytes, [], ◌∷◌, ◌++◌, length, take,
  drop, leb, Bool-cases, inl, inr, arith,
}
use awc_remote.Capture.{
  Tap, s2c, c2s, same_tap, Step, stopped, want, waits, Scrubber, held_back, set_pending, watch,
  after_watch, feed,
}
use awc_remote.Capture.Verbatim.{other, feed-other}

-- The `nbytes` of the pending `_Want`.
abbrev pub wanted : Step → ℕ
wanted (stopped s) = 0
wanted (want t n s k) = n

-- A direction holds bytes back only while the grammar waits on it, and fewer than it waits for.
abbrev pub HoldsShort : Tap → Scrubber → Type 0
HoldsShort tap sc =
    (held_back tap sc ≡ [])
    ⊎ (waits tap sc.step ≡ true) × (length (held_back tap sc) < wanted sc.step)

abbrev pub IsHeld : Scrubber → Type 0
IsHeld sc = (tap : Tap) → HoldsShort tap sc

abbrev Short : Tap → Step → Bytes → Type 0
Short tap g b = waits tap g ≡ true → length b < wanted g

too_few : (b : Bool) (n l : ℕ) → b && leb n l ≡ false → b ≡ true → l < n
too_few b n l h e = ground arith

watch-Short :
    (p : Bool) (tap : Tap) (g : Step) (buf : Bytes)
    → Short tap (watch p tap g buf).0 (watch p tap g buf).1
unfolding watch waits
watch-Short p tap (stopped s) buf = λ e. cc
watch-Short p tap (want t n s k) buf = elim (Bool-cases (same_tap t tap && leb n (length buf))) [
  | inl e ↦
      rw (watch, e)
        (watch-Short p tap (k (take n buf) (record s { recording = none })) (drop n buf))
  | inr e ↦ rw (watch, e) (λ h. too_few (same_tap t tap) n (length buf) e h)
]

after_HoldsShort :
    (tap : Tap) (sc : Scrubber) (w : Step × Bytes × Bytes)
    → Short tap w.0 w.1
    → HoldsShort tap (after_watch tap sc w).0
after_HoldsShort s2c sc w h = elim (Bool-cases (waits s2c w.0)) [
  | inl e ↦ rw (e) (inr (e, h e))
  | inr e ↦ rw (e) (inl refl)
]
after_HoldsShort c2s sc w h = elim (Bool-cases (waits c2s w.0)) [
  | inl e ↦ rw (e) (inr (e, h e))
  | inr e ↦ rw (e) (inl refl)
]

one_waits : (tap : Tap) (g : Step) → waits tap g ≡ true → waits (other tap) g ≡ false
unfolding waits
one_waits tap (stopped s) h = cc
one_waits s2c (want s2c n s k) h = refl
one_waits s2c (want c2s n s k) h = cc
one_waits c2s (want c2s n s k) h = refl
one_waits c2s (want s2c n s k) h = cc

idle_empty :
    (tap : Tap) (sc : Scrubber)
    → HoldsShort tap sc
    → waits tap sc.step ≡ false
    → held_back tap sc ≡ []
idle_empty tap sc (inl e) h = e
idle_empty tap sc (inr (e, short)) h = cc

idle_step :
    (tap : Tap) (sc : Scrubber)
    → HoldsShort (other tap) sc
    → HoldsShort (other tap) (set_pending tap [] sc)
idle_step s2c sc h = h
idle_step c2s sc h = h

idle_own : (tap : Tap) (sc : Scrubber) → HoldsShort tap (set_pending tap [] sc)
idle_own s2c sc = inl refl
idle_own c2s sc = inl refl

fed_own :
    (p : Bool) (tap : Tap) (bytes : Bytes) (sc : Scrubber)
    → HoldsShort tap sc
    → HoldsShort tap (feed p tap bytes sc).0
unfolding feed
fed_own p tap [] sc h = h
fed_own p tap (b ∷ bs) sc h = elim (Bool-cases (waits tap sc.step)) [
  | inl e ↦ rw (e) (
      after_HoldsShort tap sc (watch p tap sc.step (held_back tap sc ++ (b ∷ bs)))
        (watch-Short p tap sc.step (held_back tap sc ++ (b ∷ bs))))
  | inr e ↦ rw (e) (idle_own tap sc)
]

fed_other :
    (p : Bool) (tap : Tap) (bytes : Bytes) (sc : Scrubber)
    → HoldsShort (other tap) sc
    → HoldsShort (other tap) (feed p tap bytes sc).0
unfolding feed
fed_other p tap [] sc h = h
fed_other p tap (b ∷ bs) sc h = elim (Bool-cases (waits tap sc.step)) [
  | inl e ↦
      inl (feed-other p tap (b ∷ bs) sc ∙ idle_empty (other tap) sc h (one_waits tap sc.step e))
  | inr e ↦ rw (e) (idle_step tap sc h)
]

-- Between two calls, whatever chunks have come, a direction holds bytes back only while the handshake's
-- grammar waits on that direction, and fewer than it waits for: each call keeps this so.
pub feed-IsHeld :
    (p : Bool) (tap : Tap) (bytes : Bytes) (sc : Scrubber)
    → IsHeld sc
    → IsHeld (feed p tap bytes sc).0
feed-IsHeld p s2c bytes sc h s2c = fed_own p s2c bytes sc (h s2c)
feed-IsHeld p s2c bytes sc h c2s = fed_other p s2c bytes sc (h c2s)
feed-IsHeld p c2s bytes sc h c2s = fed_own p c2s bytes sc (h c2s)
feed-IsHeld p c2s bytes sc h s2c = fed_other p c2s bytes sc (h s2c)
