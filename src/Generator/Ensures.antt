-- ===== src/Generator/Ensures.antt =====
-- Postconditions of generators, with a rule for each way to build one.
use awc_remote.Base.{ℕ, ◌≡◌, refl, Bool, true, false, Bytes, length, if◌then◌else◌}
use awc_remote.Failure.{Exn, Result, Guarantees, returns, raises}
use awc_remote.Generator.{Gen, done, raise, ask, look, change, pending, ◌>>=◌, lift, raise_if}

-- Whatever blocks of the lengths it asks for it is sent, and whatever client that satisfies `I` it
-- meets: it keeps `I`, and if it returns, its value satisfies `P`.
pub data Ensures {S A : Type 0} (I : S → Type 0) (P : A → Type 0) : Gen S A → Type 0 where
  gives : {a : A} → P a → Ensures I P (done a)
  stops : (e : Exn) → Ensures I P (raise e)
  asks :
      (n : ℕ) {k : Bytes → Gen S A}
      → ((b : Bytes) → length b ≡ n → Ensures I P (k b))
      → Ensures I P (ask n k)
  looks : {k : S → Gen S A} → ((s : S) → I s → Ensures I P (k s)) → Ensures I P (look k)
  changes :
      (f : S → S) {m : Gen S A}
      → ((s : S) → I s → I (f s))
      → Ensures I P m
      → Ensures I P (change f m)
  peeks : {k : Bool → Gen S A} → ((p : Bool) → Ensures I P (k p)) → Ensures I P (pending k)

module _ {S A B : Type 0} {I : S → Type 0} {P : A → Type 0} {Q : B → Type 0} where
  pub Ensures-bind :
      {m : Gen S A} {f : A → Gen S B}
      → Ensures I P m
      → ((a : A) → P a → Ensures I Q (f a))
      → Ensures I Q (m >>= f)
  unfolding ◌>>=◌
  Ensures-bind (gives {a} h) g = g a h
  Ensures-bind (stops e) g = stops e
  Ensures-bind (asks n h) g = asks n (λ b l. Ensures-bind (h b l) g)
  Ensures-bind (looks h) g = looks (λ s i. Ensures-bind (h s i) g)
  Ensures-bind (peeks h) g = peeks (λ p. Ensures-bind (h p) g)
  Ensures-bind (changes f keep h) g = changes f keep (Ensures-bind h g)

module _ {S A : Type 0} {I : S → Type 0} {P : A → Type 0} where
  pub Ensures-if :
      (b : Bool) {x y : Gen S A}
      → (b ≡ true → Ensures I P x)
      → (b ≡ false → Ensures I P y)
      → Ensures I P (if b then x else y)
  Ensures-if true f g = f refl
  Ensures-if false f g = g refl

  pub Ensures-lift : {r : Result A} → Guarantees P r → Ensures I P (lift r)
  Ensures-lift (returns h) = gives h
  Ensures-lift (raises e) = stops e

  pub Ensures-read :
      (n : ℕ) {f : Bytes → Gen S A}
      → ((b : Bytes) → length b ≡ n → Ensures I P (f b))
      → Ensures I P (ask n done >>= f)
  unfolding ◌>>=◌
  Ensures-read n h = asks n h

  pub Ensures-guard :
      (b : Bool) (e : Exn) {m : Gen S A}
      → (b ≡ false → Ensures I P m)
      → Ensures I P (raise_if b e >>= λ _. m)
  unfolding ◌>>=◌
  Ensures-guard true e h = stops e
  Ensures-guard false e h = h refl

  pub Ensures-modify :
      (f : S → S) {m : Gen S A}
      → ((s : S) → I s → I (f s))
      → Ensures I P m
      → Ensures I P (change f (done tt) >>= λ _. m)
  unfolding ◌>>=◌
  Ensures-modify f keep h = changes f keep h
