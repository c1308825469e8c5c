-- ===== src/Generator.antt =====
-- The generators that decoders, message handlers and security handlers are: a Python generator
-- yields the number of bytes it needs, is sent a block of them, and ends by a return or a raise.
-- Between two yields it may read and change the client, a value of type `S`.
pub mod Resume
pub mod Ensures
use awc_remote.Base.{
  ℕ, zero, suc, Bool, true, false, Bytes, Option, none, some, List, [], ◌∷◌, if◌then◌else◌,
}
use awc_remote.Failure.{Exn, Result, ok, err}

pub data Gen (S A : Type 0) : Type 0 where
  done : A → Gen S A
  raise : Exn → Gen S A
  ask : ℕ → (Bytes → Gen S A) → Gen S A
  look : (S → Gen S A) → Gen S A
  change : (S → S) → Gen S A → Gen S A
  -- looks whether bytes have arrived that nobody has asked for
  pending : (Bool → Gen S A) → Gen S A

-- `yield from`, and a chain of statements.
infixl 5 ◌>>=◌ ◌>>◌
unfoldable pub ◌>>=◌ : {S A B : Type 0} → Gen S A → (A → Gen S B) → Gen S B
done a >>= f = f a
raise e >>= f = raise e
ask n k >>= f = ask n (λ b. k b >>= f)
look k >>= f = look (λ s. k s >>= f)
change g m >>= f = change g (m >>= f)
pending k >>= f = pending (λ p. k p >>= f)

abbrev pub ◌>>◌ : {S B : Type 0} → Gen S (Unit {0}) → Gen S B → Gen S B
m >> k = m >>= λ _. k

module _ {S : Type 0} where
  -- `yield n`
  abbrev pub read : ℕ → Gen S Bytes
  read n = ask n done

  -- `(yield n) if n else b""`
  abbrev pub read_some : ℕ → Gen S Bytes
  read_some zero = done []
  read_some (suc n) = ask (suc n) done

  abbrev pub modify : (S → S) → Gen S (Unit {0})
  modify f = change f (done tt)

  abbrev pub gets : {A : Type 0} → (S → A) → Gen S A
  gets f = look (λ s. done (f s))

  abbrev pub lift : {A : Type 0} → Result A → Gen S A
  lift (ok a) = done a
  lift (err e) = raise e

  -- `if test: raise e`
  abbrev pub raise_if : Bool → Exn → Gen S (Unit {0})
  raise_if b e = if b then raise e else done tt
