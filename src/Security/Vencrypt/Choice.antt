-- ===== src/Security/Vencrypt/Choice.antt =====
-- `choose` of vncdotool/vencrypt.py.
use mathlib.Core.Path.{subst}
use awc_remote.Base.{
  ◌≡◌, ◌≢◌, ℕ, refl, inl, inr, Bool, true, false, not, ◌&&◌, Option, none, some, List, [], ◌∷◌,
  ◌==◌, if◌then◌else◌, &&_both, ◌||◌, Bool-cases, ==_or, arith, sym,
}
use awc_remote.Text.{Codes}
use awc_remote.Security.Vencrypt.{
  Policy, Credentials, given, named, elem, anonymous_subtypes, preference, unusable, is_none,
  choose_from, choose, client_options,
}

-- The first of `order` that is offered and usable.
pub data IsFirst (offered : List ℕ) (policy : Policy) (credentials : Credentials)
    : List ℕ → ℕ → Type 0 where
  here :
      {s : ℕ} {rest : List ℕ}
      → elem s offered ≡ true
      → unusable s policy credentials ≡ none
      → IsFirst offered policy credentials (s ∷ rest) s
  later :
      {s t : ℕ} {rest : List ℕ}
      → elem s offered && is_none (unusable s policy credentials) ≡ false
      → IsFirst offered policy credentials rest t
      → IsFirst offered policy credentials (s ∷ rest) t

is_first-usable :
    (offered : List ℕ) (policy : Policy) (credentials : Credentials) (order : List ℕ) (s : ℕ)
    → IsFirst offered policy credentials order s
    → unusable s policy credentials ≡ none
is_first-usable offered policy credentials [] s h = elim h [ ]
is_first-usable offered policy credentials (t ∷ rest) s (here m u) = u
is_first-usable offered policy credentials (t ∷ rest) s (later n h) =
    is_first-usable offered policy credentials rest s h

is_none-true : {A : Type 0} (o : Option A) → is_none o ≡ true → o ≡ none
is_none-true none e = refl
is_none-true (some a) e = cc

module _ (offered : List ℕ) (policy : Policy) (credentials : Credentials) where
  found :
      (t s : ℕ) (rest : List ℕ) (b : Bool)
      → elem t offered && is_none (unusable t policy credentials) ≡ b
      → (choose_from rest offered policy credentials ≡ some s
          → IsFirst offered policy credentials rest s)
      → (if b then some t else choose_from rest offered policy credentials) ≡ some s
      → IsFirst offered policy credentials (t ∷ rest) s
  found t s rest true h next e =
      subst (IsFirst offered policy credentials (t ∷ rest)) (cc)
        (here (&&_both _ _ h).0 (is_none-true _ (&&_both _ _ h).1))
  found t s rest false h next e = later h (next e)

  first :
      (order : List ℕ) (s : ℕ)
      → choose_from order offered policy credentials ≡ some s
      → IsFirst offered policy credentials order s
  unfolding choose_from
  first [] s e = cc
  first (t ∷ rest) s e = found t s rest _ refl (first rest s) e

  -- The subtype that `choose` returns is the first of the preference, from the most protected, that
  -- the server offers and the policy and the credentials allow.
  pub choose-first :
      (s : ℕ)
      → choose offered policy credentials ≡ some s
      → IsFirst offered policy credentials preference s
  unfolding choose
  choose-first s e = first preference s e

  skipped :
      (t : ℕ) (rest : List ℕ) (b : Bool)
      → elem t offered && is_none (unusable t policy credentials) ≡ b
      → (if b then some t else choose_from rest offered policy credentials) ≡ none
      → (elem t offered && is_none (unusable t policy credentials) ≡ false)
        × (choose_from rest offered policy credentials ≡ none)
  skipped t rest true h e = cc
  skipped t rest false h e = (h, e)

  refused :
      (order : List ℕ)
      → choose_from order offered policy credentials ≡ none
      → (s : ℕ) → elem s order ≡ true
      → elem s offered && is_none (unusable s policy credentials) ≡ false
  unfolding choose_from
  refused [] e s m = cc
  refused (t ∷ rest) e s m = elim (==_or s t (elem s rest) m) [
    | inl h ↦
        subst (λ u. elem u offered && is_none (unusable u policy credentials) ≡ false) (sym h)
          (skipped t rest _ refl e).0
    | inr h ↦ refused rest (skipped t rest _ refl e).1 s h
  ]

second_refuses :
    {A : Type 0} (x y : A) (rest : Option A) (a b : Bool)
    → b ≡ false
    → is_none (if a then some x else (if not b then some y else rest)) ≡ false
second_refuses x y rest true b h = refl
second_refuses x y rest false true h = cc
second_refuses x y rest false false h = refl

unknown :
    (s : ℕ) (policy : Policy) (credentials : Credentials)
    → elem s preference ≡ false
    → is_none (unusable s policy credentials) ≡ false
unfolding unusable
unknown s policy credentials h = second_refuses _ _ _ (s == 256) (elem s preference) h

second_false : (a b : Bool) → a ≡ true → a && b ≡ false → b ≡ false
second_false true b h e = e
second_false false b h e = cc

-- When `choose` returns none, each subtype that the server offers is unusable.
pub choose-none :
    (offered : List ℕ) (policy : Policy) (credentials : Credentials)
    → choose offered policy credentials ≡ none
    → (s : ℕ) → elem s offered ≡ true
    → is_none (unusable s policy credentials) ≡ false
unfolding choose
choose-none offered policy credentials e s m = elim (Bool-cases (elem s preference)) [
  | inl h ↦ second_false _ _ m (refused offered policy credentials preference e s h)
  | inr h ↦ unknown s policy credentials h
]

options :
    (s : ℕ) (hostname : Option Codes) (allow : Bool) (credentials : Credentials)
    → unusable s (record { hostname = hostname; allow_unverified = allow }) credentials ≡ none
    → client_options s (record { hostname = hostname; allow_unverified = allow }) ≢ none
unfolding unusable client_options
options s none true credentials e = ground arith
options s none false credentials e = ground arith
options s (some h) allow credentials e = ground arith

-- For a subtype that `choose` returns, `client_options` never lacks a hostname.
pub choose-client_options :
    (offered : List ℕ) (policy : Policy) (credentials : Credentials) (s : ℕ)
    → choose offered policy credentials ≡ some s
    → client_options s policy ≢ none
choose-client_options offered policy credentials s e =
    options s policy.hostname policy.allow_unverified credentials (
      is_first-usable offered policy credentials preference s
        (choose-first offered policy credentials s e))

permitted :
    (s : ℕ) (policy : Policy) (credentials : Credentials)
    → unusable s policy credentials ≡ none
    → (s ≢ 256) × (elem s anonymous_subtypes ≡ true → policy.allow_unverified ≡ true)
unfolding unusable
permitted s policy credentials e = (ground arith, ground arith)

-- A subtype that `choose` returns never sends the password in the clear (256, Plain without TLS), and
-- is anonymous, without a certificate, only if the policy allows unverified peers.
pub choose-permitted :
    (offered : List ℕ) (policy : Policy) (credentials : Credentials) (s : ℕ)
    → choose offered policy credentials ≡ some s
    → (s ≢ 256) × (elem s anonymous_subtypes ≡ true → policy.allow_unverified ≡ true)
choose-permitted offered policy credentials s e = permitted s policy credentials (
    is_first-usable offered policy credentials preference s
      (choose-first offered policy credentials s e))

-- What the documentation asks for: a verified connection needs a name to verify, unless unverified peers are allowed; VNC's
-- authentication needs a password, and a login a user name too.
abbrev pub verifies : Policy → Bool
verifies policy = policy.allow_unverified || named policy.hostname

abbrev pub logs_in : Credentials → Bool
logs_in credentials = given credentials.username && given credentials.password

module _ (offered : List ℕ) (policy : Policy) (credentials : Credentials) where
  allows_261 :
      is_none (unusable 261 policy credentials) ≡ verifies policy && given credentials.password
  unfolding unusable
  allows_261 = ground arith

  allows_262 : is_none (unusable 262 policy credentials) ≡ verifies policy && logs_in credentials
  unfolding unusable
  allows_262 = ground arith

  allows_260 : is_none (unusable 260 policy credentials) ≡ verifies policy
  unfolding unusable
  allows_260 = ground arith

  allows_258 :
      is_none (unusable 258 policy credentials)
      ≡ policy.allow_unverified && given credentials.password
  unfolding unusable
  allows_258 = ground arith

  allows_259 :
      is_none (unusable 259 policy credentials) ≡ policy.allow_unverified && logs_in credentials
  unfolding unusable
  allows_259 = ground arith

  allows_257 : is_none (unusable 257 policy credentials) ≡ policy.allow_unverified
  unfolding unusable
  allows_257 = ground arith

  -- The subtype that the client speaks is the first of these that the server offers: with a certificate and VNC's authentication
  -- (261), a login (262) or neither (260), if the certificate can be verified or need not be; else anonymous with VNC's authentication (258), a login (259)
  -- or neither (257), if unverified peers are allowed; where VNC's authentication counts only with a password, and a login only with
  -- a user name and a password. There is none if none of these is offered.
  pub choose-ranked : choose offered policy credentials ≡ (
      if elem 261 offered && (verifies policy && given credentials.password)
      then some 261
      else if elem 262 offered && (verifies policy && logs_in credentials)
      then some 262
      else if elem 260 offered && (verifies policy)
      then some 260
      else if elem 258 offered && (policy.allow_unverified && given credentials.password)
      then some 258
      else if elem 259 offered && (policy.allow_unverified && logs_in credentials)
      then some 259
      else if elem 257 offered && (policy.allow_unverified)
      then some 257
      else none)
  unfolding choose choose_from
  choose-ranked = rw (allows_261, allows_262, allows_260, allows_258, allows_259, allows_257)
