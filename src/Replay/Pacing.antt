-- ===== src/Replay/Pacing.antt =====
-- A round of the loop of `ReplayProtocol.advance` in vncdotool/replay.py.
use awc_remote.Base.{
  ℕ, zero, suc, ◌+◌, ◌≤◌, ◌≡◌, ◌⊎◌, inr, refl, sym, ap, ◌∙◌, true, false, Bytes, Option, none, some,
  [], ◌∷◌, ◌++◌, length, take, drop, slice, ltb, if_both, arith, length-take, length-drop,
}
use mathlib.Core.Path.{subst}
use awc_remote.Base.Int.{ℤ}
use awc_remote.Capture.{s2c, c2s, Step, stopped, want, waits, Scrubber, feed, Notes}
use awc_remote.Capture.Secrets.{clean}
use awc_remote.Replay.Player.{
  negotiated_by, Archive, Player, Pace, go_on, hold, serve_rest, version_mismatch, is_other_version,
  pace_at, pace,
}
use awc_remote.Replay.Rounds.{IsRested, IsRested-more, fed_rested}

-- The connection was closed, and the client's version is another than the recorded one.
abbrev pub Mismatched : Archive → Player → Type 0
Mismatched a p =
    (p.closed ≡ true)
    × (v : ℤ × ℤ) × (negotiated_by p.scrubber ≡ some v)
    × (is_other_version a.recorded_version v ≡ true)

-- What has been written is the front of the capture up to the position, and the connection is over only
-- when that is all of it, or when the versions differ.
pub record IsSound (a : Archive) (n : ℕ) (p : Player) : Type 0 where
  pub rested : IsRested n p.scrubber.step
  pub tidy : p.scrubber ≡ clean p.scrubber.step
  pub front : p.written ≡ take p.position a.recorded
  pub within : p.position ≤ length a.recorded
  pub all : p.exhausted ≡ true → (p.written ≡ a.recorded) ⊎ Mismatched a p

settled :
    (n : ℕ) (sc : Scrubber) (h : Step)
    → sc ≡ clean h
    → IsRested n h
    → IsRested n sc.step × (sc ≡ clean sc.step)
settled n sc h e r = (
  subst (λ (g : Step). IsRested n g) (sym (ap (λ (c : Scrubber). c.step) e)) r,
  e ∙ sym (ap (λ (c : Scrubber). clean c.step) e),
)

-- After a round: the next one has fewer blocks to ask for, and a return waits for the client.
unfoldable pub IsPaced : Archive → ℕ → Pace → Type 0
IsPaced a n (go_on q) = IsSound a n q × (q.exhausted ≡ false)
IsPaced a n (hold q) =
    IsSound a (suc n) q × (q.exhausted ≡ false → waits c2s q.scrubber.step ≡ true)
IsPaced a n (serve_rest q) = IsSound a (suc n) q × (q.exhausted ≡ false)

take_nil : (n : ℕ) → take {A = ℕ} n [] ≡ []
take_nil zero = refl
take_nil (suc n) = refl

take-add : (n m : ℕ) (b : Bytes) → take (n + m) b ≡ take n b ++ take m (drop n b)
take-add zero m b = ap (λ (k : ℕ). take k b) (omega arith)
take-add (suc n) m [] = rw (take_nil (suc n + m), take_nil m)
take-add (suc n) m (x ∷ b) = let e : suc n + m ≡ suc (n + m) = omega arith in rw (e, take-add n m b)

full_chunk :
    (b : Bytes) (n m : ℕ)
    → ltb (length (slice b n m)) m ≡ false
    → n ≤ length b
    → (length (slice b n m) ≡ m) × (n + m ≤ length b)
full_chunk b n m h k =
    let e = length-take m (drop n b) in
    let d = length-drop n b in (ground (arith, e, d), ground (arith, e, d))

taken : (b : Bytes) (m : ℕ) → ltb (length b) m ≡ false → length (take m b) ≡ m
taken b m h = let e = length-take m b in ground (arith, e)

-- A round on a step that waits for a block.
module _ (a : Archive) (n m : ℕ) (s : Notes) (k : Bytes → Notes → Step) (p : Player)
    (v : IsSound a (suc n) p) (open_ : p.exhausted ≡ false) where
  shut : {A : Type 0} → p.exhausted ≡ true → A
  shut e = absurd cc

  server_round :
      p.scrubber ≡ clean (want s2c m s k)
      → IsRested (suc n) (want s2c m s k)
      → IsPaced a n (pace_at a s2c m p)
  unfolding pace_at IsPaced
  server_round e r =
      if_both (IsPaced a n) (ltb (length (slice a.recorded p.position m)) m) (λ h. (v, open_))
        (λ h.
          let c = full_chunk a.recorded p.position m h v.within in
          let f = fed_rested n s2c m s k (slice a.recorded p.position m) c.0 r in
          let t =
            settled n _ f.0
              (ap (λ (x : Scrubber). (feed false s2c (slice a.recorded p.position m) x).0) e ∙ f.2)
              f.1 in
          (
            record {
              rested = t.0;
              tidy = t.1;
              front = rw (v.front, take-add p.position m a.recorded);
              within = c.1;
              all = λ z. shut z;
            },
            open_,
          ))

  checked :
      (q : Player) (o : Option (ℤ × ℤ))
      → IsSound a n q
      → q.exhausted ≡ false
      → negotiated_by q.scrubber ≡ o
      → IsPaced a n (version_mismatch a q o)
  unfolding version_mismatch IsPaced
  checked q none w z m = (w, z)
  checked q (some u) w z m =
      if_both (IsPaced a n) q.version_checked (λ h. (w, z))
        (λ h.
          if_both (IsPaced a n) (is_other_version a.recorded_version u)
            (λ h. (
              record {
                rested = IsRested-more n _ w.rested;
                tidy = w.tidy;
                front = w.front;
                within = w.within;
                all = λ z. inr (refl, u, m, h);
              },
              λ z. absurd cc,
            ))
            (λ h. (
              record {
                rested = w.rested;
                tidy = w.tidy;
                front = w.front;
                within = w.within;
                all = w.all;
              },
              z,
            )))

  client_round :
      p.scrubber ≡ clean (want c2s m s k)
      → IsRested (suc n) (want c2s m s k)
      → IsPaced a n (pace_at a c2s m p)
  unfolding pace_at IsPaced waits
  client_round e r =
      if_both (IsPaced a n) (ltb (length p.unread) m) (λ h. (v, λ z. rw (e)))
        (λ h.
          let f = fed_rested n c2s m s k (take m p.unread) (taken p.unread m h) r in
          let t =
            settled n _ f.0 (ap (λ (x : Scrubber). (feed false c2s (take m p.unread) x).0) e ∙ f.2)
              f.1 in
          checked _ _
            (record {
              rested = t.0;
              tidy = t.1;
              front = v.front;
              within = v.within;
              all = λ z. shut z;
            })
            open_ refl)

pub pace-IsPaced :
    (a : Archive) (n : ℕ) (p : Player)
    → IsSound a (suc n) p
    → p.exhausted ≡ false
    → (g : Step) → p.scrubber ≡ clean g
    → IsRested (suc n) g
    → IsPaced a n (pace a g p)
unfolding pace IsPaced
pace-IsPaced a n p v z (stopped s) e r = (v, z)
pace-IsPaced a n p v z (want s2c m s k) e r = server_round a n m s k p v z e r
pace-IsPaced a n p v z (want c2s m s k) e r = client_round a n m s k p v z e r
