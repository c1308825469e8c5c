-- ===== src/Security/Vencrypt.antt =====
-- vncdotool/vencrypt.py: which VeNCrypt subtype the client speaks.
pub mod Choice
use awc_remote.Base.{
  ℕ, Bool, true, false, not, ◌&&◌, ◌||◌, Option, none, some, List, [], ◌∷◌, ◌==◌, leb,
  if◌then◌else◌,
}
use awc_remote.Client.{Library}
use awc_remote.Text.{Codes}

pub record Policy : Type 0 where
  pub hostname : Option Codes
  pub allow_unverified : Bool

pub record Credentials : Type 0 where
  pub username : Option Codes
  pub password : Option Codes

abbrev pub elem : ℕ → List ℕ → Bool
elem x [] = false
elem x (y ∷ ys) = x == y || elem x ys

-- TLSNone 257, TLSVnc 258, TLSPlain 259, X509None 260, X509Vnc 261, X509Plain 262.
abbrev pub anonymous_subtypes : List ℕ
anonymous_subtypes = 257 ∷ 258 ∷ 259 ∷ []

abbrev pub x509_subtypes : List ℕ
x509_subtypes = 260 ∷ 261 ∷ 262 ∷ []

abbrev pub is_vnc_auth : ℕ → Bool
is_vnc_auth subtype = elem subtype (258 ∷ 261 ∷ [])

abbrev pub is_plain_auth : ℕ → Bool
is_plain_auth subtype = elem subtype (259 ∷ 262 ∷ [])

-- Most protected first.
abbrev pub preference : List ℕ
preference = 261 ∷ 262 ∷ 260 ∷ 258 ∷ 259 ∷ 257 ∷ []

pub data Refusal : Type 0 where
  in_the_clear unimplemented anonymous no_hostname no_password no_credentials : Refusal

abbrev pub given : Option Codes → Bool
given none = false
given (some t) = true

-- `not policy.hostname`: absent, or the empty text.
abbrev pub named : Option Codes → Bool
named none = false
named (some []) = false
named (some (c ∷ cs)) = true

-- `unusable`, with a name for each of its texts.
unfoldable pub unusable : ℕ → Policy → Credentials → Option Refusal
unusable subtype policy credentials =
    if subtype == 256
    then some in_the_clear
    else if not (elem subtype preference)
    then some unimplemented
    else if elem subtype anonymous_subtypes && not policy.allow_unverified
    then some anonymous
    else if elem subtype x509_subtypes
        && (not policy.allow_unverified && not (named policy.hostname))
    then some no_hostname
    else if is_vnc_auth subtype && not (given credentials.password)
    then some no_password
    else if is_plain_auth subtype
        && (not (given credentials.username) || not (given credentials.password))
    then some no_credentials
    else none

abbrev pub is_none {ℓ} : {A : Type ℓ} → Option A → Bool
is_none none = true
is_none (some a) = false

-- The loop of `choose` over what is left of the preference.
unfoldable pub choose_from : List ℕ → List ℕ → Policy → Credentials → Option ℕ
unfolding unusable
choose_from [] offered policy credentials = none
choose_from (s ∷ rest) offered policy credentials =
    if elem s offered && is_none (unusable s policy credentials)
    then some s
    else choose_from rest offered policy credentials

unfoldable pub choose : List ℕ → Policy → Credentials → Option ℕ
unfolding choose_from
choose = choose_from preference

-- How `client_options` sets TLS up: `none` is the error of a missing hostname.
pub data Options : Type 0 where
  anonymous_options unverified_options : Options
  verified_options : Codes → Options

unfoldable pub client_options : ℕ → Policy → Option Options
client_options subtype policy =
    if elem subtype anonymous_subtypes
    then some anonymous_options
    else if policy.allow_unverified
    then some unverified_options
    else elim policy.hostname [ none ↦ none | some host ↦ some (verified_options host) ]

-- Whether the options can be built: a verified connection has its trust roots to load.
abbrev pub loads : Library → Option Options → Bool
loads lib none = false
loads lib (some anonymous_options) = true
loads lib (some unverified_options) = true
loads lib (some (verified_options host)) = lib.certificates_load host

abbrev pub can_start_tls : Library → ℕ → Policy → Bool
can_start_tls lib subtype policy = loads lib (client_options subtype policy)
