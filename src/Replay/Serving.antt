-- ===== src/Replay/Serving.antt =====
-- A call of `ReplayProtocol.advance` in vncdotool/replay.py, and the fuel that stands for its loop.
use awc_remote.Base.{
  ℕ, zero, suc, ◌≡◌, ◌⊎◌, inl, inr, refl, sym, ap, ◌∙◌, Bool, true, false, ◌&&◌, ◌||◌, Bytes,
  Option, none, some, [], ◌∷◌, ◌++◌, length, take, drop, if_both, arith, take-append-drop, take_all,
}
use mathlib.Core.List.{append-nil}
use awc_remote.Capture.{c2s, Step, stopped, want, waits, is_stopped, notes_of}
use awc_remote.Replay.Player.{
  Archive, Player, Pace, go_on, hold, serve_rest, pace, send_rest, send_bytes, after_search,
  serve_session, paced, has_width,
}
use awc_remote.Replay.Rounds.{IsRested, IsRested-more}
use awc_remote.Replay.Search.{Ended, searched}
use awc_remote.Replay.Pacing.{IsSound, IsPaced, pace-IsPaced}

-- What a call leaves: a sound connection, over or waiting for the client.
unfoldable pub Leaves : Archive → ℕ → Option Player → Type 0
Leaves a n none = ⊥
Leaves a n (some p) =
    IsSound a n p
    × (p.exhausted ≡ false → (waits c2s p.scrubber.step ≡ true) ⊎ (p.awaiting_request ≡ true))

all_of : (n : ℕ) (b r : Bytes) → drop n b ≡ r → take n b ++ r ≡ b
all_of n b r h = ap (λ (c : Bytes). take n b ++ c) (sym h) ∙ take-append-drop n b

full : (b : Bytes) → take (length b) b ≡ b
full b = take_all (length b) b refl

sent_bytes :
    (a : Archive) (n : ℕ) (p : Player) (r : Bytes)
    → drop p.position a.recorded ≡ r
    → IsSound a n p
    → Leaves a n (some (send_bytes a p r))
unfolding Leaves
sent_bytes a n p [] h v = (
  record {
    rested = v.rested;
    tidy = v.tidy;
    front = v.front;
    within = v.within;
    all = λ z. inl (
        v.front
        ∙ sym (append-nil (take p.position a.recorded))
        ∙ all_of p.position a.recorded [] h);
  },
  λ z. absurd cc,
)
sent_bytes a n p (b ∷ r) h v =
    let e : p.written ++ (b ∷ r) ≡ a.recorded =
      ap (λ (c : Bytes). c ++ (b ∷ r)) v.front ∙ all_of p.position a.recorded (b ∷ r) h in
    (
      record {
        rested = v.rested;
        tidy = v.tidy;
        front = e ∙ sym (full a.recorded);
        within = omega arith;
        all = λ z. inl e;
      },
      λ z. absurd cc,
    )

sent_rest : (a : Archive) (n : ℕ) (p : Player) → IsSound a n p → Leaves a n (some (send_rest a p))
unfolding send_rest
sent_rest a n p v = sent_bytes a n p (drop p.position a.recorded) refl v

-- What the search and the request change does not matter.
resound :
    (a : Archive) (n : ℕ) (p : Player) (w : Bool) (b : Bytes)
    → IsSound a n p
    → IsSound a n (record p { awaiting_request = w; unread = b })
resound a n p w b v = record {
  rested = v.rested;
  tidy = v.tidy;
  front = v.front;
  within = v.within;
  all = v.all;
}

after_searched :
    (a : Archive) (n : ℕ) (p : Player) (o : Option (Bool × Bytes))
    → Ended o
    → p.awaiting_request ≡ true
    → p.exhausted ≡ false
    → IsSound a n p
    → Leaves a n (after_search a p o)
unfolding Ended Leaves
after_searched a n p none h w z v = absurd h
after_searched a n p (some (false, rest)) h w z v =
    (resound a n p p.awaiting_request rest v, λ e. inr w)
after_searched a n p (some (true, rest)) h w z v =
    sent_rest a n (record p { unread = rest }) (resound a n p p.awaiting_request rest v)

served_session :
    (a : Archive) (n : ℕ) (p : Player)
    → p.exhausted ≡ false
    → IsSound a n p
    → Leaves a n (serve_session a p)
unfolding serve_session
served_session a n p z v =
    let g = p.scrubber.step in
    let w = p.awaiting_request || (is_stopped g && has_width (notes_of g).width) in
    let u = resound a n p w p.unread v in
    if_both (Leaves a n) w
      (λ e. after_searched a n _ _ (searched (length p.unread) p.unread (omega arith)) e z u)
      (λ e. sent_rest a n (record p { awaiting_request = w }) u)

IsSound-more : (a : Archive) (n : ℕ) (p : Player) → IsSound a n p → IsSound a (suc n) p
IsSound-more a n p v = record {
  rested = IsRested-more n _ v.rested;
  tidy = v.tidy;
  front = v.front;
  within = v.within;
  all = v.all;
}

Leaves-more : (a : Archive) (n : ℕ) (o : Option Player) → Leaves a n o → Leaves a (suc n) o
unfolding Leaves
Leaves-more a n none h = h
Leaves-more a n (some p) (v, w) = (IsSound-more a n p v, w)

last_round :
    (a : Archive) (p : Player) (g : Step)
    → IsRested zero g
    → IsSound a zero p
    → p.exhausted ≡ false
    → Leaves a zero
        (elim (pace a g p) [ go_on q ↦ none | hold q ↦ some q | serve_rest q ↦ serve_session a q ])
unfolding pace IsRested
last_round a p (stopped s) r v z = served_session a zero p z v
last_round a p (want t m s k) r v z = absurd r

next_round :
    (a : Archive) (n fuel : ℕ) (o : Pace)
    → IsPaced a n o
    → ((q : Player) → IsSound a n q → q.exhausted ≡ false → Leaves a n (paced fuel a q))
    → Leaves a
        (suc n)
        (elim o [ go_on q ↦ paced fuel a q | hold q ↦ some q | serve_rest q ↦ serve_session a q ])
unfolding IsPaced Leaves
next_round a n fuel (go_on q) (v, z) f = Leaves-more a n _ (f q v z)
next_round a n fuel (hold q) (v, w) f = (v, λ z. inl (w z))
next_round a n fuel (serve_rest q) (v, z) f = served_session a (suc n) q z v

-- As many rounds as blocks are left, and one more, are enough.
pub paced-Leaves :
    (a : Archive) (n : ℕ) (p : Player)
    → IsSound a n p
    → p.exhausted ≡ false
    → Leaves a n (paced (suc n) a p)
unfolding paced
paced-Leaves a zero p v z = last_round a p p.scrubber.step v.rested v z
paced-Leaves a (suc n) p v z =
    next_round a n (suc n) (pace a p.scrubber.step p)
      (pace-IsPaced a n p v z p.scrubber.step v.tidy v.rested) (λ q u y. paced-Leaves a n q u y)
