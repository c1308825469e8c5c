-- ===== src/Failure.antt =====
-- The exceptions of vncdotool/decoders/errors.py and vncdotool/security/errors.py, and a
-- computation that may raise one. The texts of the messages are not modelled.
use mathlib.Core.Path.{◌≡◌, refl, subst}
use awc_remote.Base.{Bool, true, false, List, [], ◌∷◌, if◌then◌else◌}

-- `zlib_error` is `zlib.error`, `struct_error` is `struct.error`, and `value_error` stands for the
-- built-in exceptions that no handler of the pump names. `out_of_fuel` has no counterpart in the
-- program: a loop of the model that is not shown to end.
pub data Exn : Type 0 where
  decode_error security_error zlib_error struct_error value_error out_of_fuel : Exn

pub data Result {ℓ} (A : Type ℓ) : Type ℓ where
  ok : A → Result A
  err : Exn → Result A

-- A partial-correctness statement: if the computation returns, its value satisfies `P`.
pub data Guarantees {ℓ κ} {A : Type ℓ} (P : A → Type κ) : Result A → Type (ℓ ⊔ κ) where
  returns : {a : A} → P a → Guarantees P (ok a)
  raises : (e : Exn) → Guarantees P (err e)

module _ {ℓ κ} {A : Type ℓ} {P : A → Type κ} where
  pub Guarantees-ok : {r : Result A} {a : A} → Guarantees P r → r ≡ ok a → P a
  Guarantees-ok (returns h) e = subst P (cc) h
  Guarantees-ok (raises x) e = cc

  pub Guarantees-if :
      (b : Bool) {x y : Result A}
      → (b ≡ true → Guarantees P x)
      → (b ≡ false → Guarantees P y)
      → Guarantees P (if b then x else y)
  Guarantees-if true f g = f refl
  Guarantees-if false f g = g refl

-- A loop over a list whose body may raise.
abbrev pub fold_ok {ℓ κ} : {S : Type ℓ} {A : Type κ} → (S → A → Result S) → S → List A → Result S
fold_ok f s [] = ok s
fold_ok f s (a ∷ l) = elim (f s a) [ ok t ↦ fold_ok f t l | err e ↦ err e ]

module _ {ℓ κ ι} {S : Type ℓ} {A : Type κ} (P : S → Type ι) (f : S → A → Result S)
    (step : (s : S) (a : A) → P s → Guarantees P (f s a)) where
  after_step :
      (r : Result S) (l : List A)
      → Guarantees P r
      → ((t : S) → P t → Guarantees P (fold_ok f t l))
      → Guarantees P (elim r [ ok t ↦ fold_ok f t l | err e ↦ err e ])
  after_step (ok t) l (returns h) g = g t h
  after_step (err e) l h g = raises e

  -- The body's invariant holds at the end of the loop.
  pub fold_ok-Guarantees : (s : S) (l : List A) → P s → Guarantees P (fold_ok f s l)
  fold_ok-Guarantees s [] h = returns h
  fold_ok-Guarantees s (a ∷ l) h =
      after_step (f s a) l (step s a h) (λ t. λ g. fold_ok-Guarantees t l g)

-- The chain of two computations that may raise.
infixl 5 ◌>>>=◌
abbrev pub ◌>>>=◌ : {A B : Type 0} → Result A → (A → Result B) → Result B
ok a >>>= f = f a
err e >>>= f = err e

module _ {A B : Type 0} {P : A → Type 0} {Q : B → Type 0} where
  pub Guarantees-bind :
      {r : Result A} {f : A → Result B}
      → Guarantees P r
      → ((a : A) → P a → Guarantees Q (f a))
      → Guarantees Q (r >>>= f)
  Guarantees-bind (returns {a} h) g = g a h
  Guarantees-bind (raises e) g = raises e

module _ {A : Type 0} {P Q : A → Type 0} where
  pub Guarantees-weaken : {r : Result A} → Guarantees P r → ((a : A) → P a → Q a) → Guarantees Q r
  Guarantees-weaken (returns {a} h) g = returns (g a h)
  Guarantees-weaken (raises e) g = raises e

pub Guarantees-after :
    {A B : Type 0} {Q : B → Type 0} (r : Result A) {f : A → Result B}
    → ((a : A) → Guarantees Q (f a))
    → Guarantees Q (r >>>= f)
Guarantees-after (ok a) g = g a
Guarantees-after (err e) g = raises e
