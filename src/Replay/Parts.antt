-- ===== src/Replay/Parts.antt =====
-- How `ReplayProtocol` of vncdotool/replay.py waits for a request whose bytes come in parts.
use awc_remote.Base.{
  ℕ, zero, suc, ◌≡◌, ◌⊎◌, inl, inr, refl, ap, ◌∙◌, Bool, true, false, Bytes, Option, some, [], ◌∷◌,
  ◌++◌, length, drop, drop-append_le, ltb, ◌==◌, if◌then◌else◌,
}
use awc_remote.Replay.{
  Measure, measured, unknown_message, need_more, client_message_length, saw_update_request,
}
use awc_remote.Replay.Holding.{searched}
use awc_remote.Replay.Split.{Stable, reached, longer, measure-append, round_on}

asked_or_goes_on :
    (short asked : Bool) (u v rest : Bytes) (o : Option (Bool × Bytes))
    → (if short then some (false, u) else if asked then some (true, v) else o) ≡ some (true, rest)
    → (short ≡ false) × ((asked ≡ true) ⊎ ((asked ≡ false) × (o ≡ some (true, rest))))
asked_or_goes_on true asked u v rest o h = absurd cc
asked_or_goes_on false true u v rest o h = (refl, inl refl)
asked_or_goes_on false false u v rest o h = (refl, inr (refl, h))

-- A search that finds a request, and whatever it leaves.
abbrev pub Finds : Option (Bool × Bytes) → Type 0
Finds o = (rest : Bytes) × (o ≡ some (true, rest))

module _ (n x : ℕ) (b ys : Bytes) where
  unknown_still :
      client_message_length (x ∷ b) ≡ unknown_message
      → Finds (saw_update_request (suc n) (x ∷ (b ++ ys)))
  unfolding saw_update_request Stable
  unknown_still e =
      let s : client_message_length (x ∷ (b ++ ys)) ≡ unknown_message =
        measure-append x b ys (λ z. absurd cc) ∙ e in
      ([], rw (saw_update_request, s))

  measured_still :
      (l : ℕ)
      → client_message_length (x ∷ b) ≡ measured l
      → client_message_length (x ∷ (b ++ ys)) ≡ measured l
  unfolding Stable
  measured_still l e = measure-append x b ys (λ z. absurd cc) ∙ e

  asked_still :
      (l : ℕ)
      → client_message_length (x ∷ b) ≡ measured l
      → ltb (length (x ∷ b)) l ≡ false
      → x == 3 ≡ true
      → Finds (saw_update_request (suc n) (x ∷ (b ++ ys)))
  unfolding saw_update_request
  asked_still l e s t = (
    drop l (x ∷ (b ++ ys)),
    rw (saw_update_request, measured_still l e, longer (x ∷ b) ys l s, t),
  )

  round_still :
      (l : ℕ)
      → client_message_length (x ∷ b) ≡ measured l
      → ltb (length (x ∷ b)) l ≡ false
      → x == 3 ≡ false
      → Finds (saw_update_request n (drop l (x ∷ b) ++ ys))
      → Finds (saw_update_request (suc n) (x ∷ (b ++ ys)))
  round_still l e s t (rest, f) = (
    rest,
    round_on n x (b ++ ys) l (measured_still l e) (longer (x ∷ b) ys l s) t
        ∙ ap (saw_update_request n) (drop-append_le l (x ∷ b) ys (reached (x ∷ b) l s))
        ∙ f,
  )

  found_still :
      (m : Measure) (rest : Bytes)
      → client_message_length (x ∷ b) ≡ m
      → searched (λ l. saw_update_request n (drop l (x ∷ b))) x b m ≡ some (true, rest)
      → ((l : ℕ)
          → saw_update_request n (drop l (x ∷ b)) ≡ some (true, rest)
          → Finds (saw_update_request n (drop l (x ∷ b) ++ ys)))
      → Finds (saw_update_request (suc n) (x ∷ (b ++ ys)))
  found_still unknown_message rest e h k = unknown_still e
  found_still need_more rest e h k = absurd cc
  found_still (measured l) rest e h k =
      let g = asked_or_goes_on (ltb (length (x ∷ b)) l) (x == 3) _ _ rest _ h in
      elim g.1 [ inl t ↦ asked_still l e g.0 t | inr o ↦ round_still l e g.0 o.0 (k l o.1) ]

-- More bytes do not hide a request.
pub still_found :
    (n : ℕ) (b ys rest : Bytes)
    → saw_update_request n b ≡ some (true, rest)
    → Finds (saw_update_request n (b ++ ys))
unfolding saw_update_request
still_found n [] ys rest h = absurd cc
still_found zero (x ∷ b) ys rest h = absurd cc
still_found (suc n) (x ∷ b) ys rest h =
    found_still n x b ys (client_message_length (x ∷ b)) rest refl h
      (λ l g. still_found n (drop l (x ∷ b)) ys rest g)
