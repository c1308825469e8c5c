-- ===== src/Connection/Handshake/Versions.antt =====
-- The version that `_handleInitial` of vncdotool/rfb.py agrees on, and the security type that
-- `_handleSecurityTypes` picks.
use awc_remote.Base.{
  ℕ, zero, suc, arith, suc, arith, ◌≡◌, refl, Bool, ◌&&◌, ◌||◌, ◌==◌, Bytes, none, some, [], ◌∷◌,
  ltb, if◌then◌else◌,
}
use awc_remote.Security.{version_lt}
use awc_remote.Security.Vencrypt.{elem}
use awc_remote.Connection.Handshake.{best_version, negotiated, best_auth, supported_auths}

-- Whatever version a server announces, the client answers 3.3 to one from 3.3 up to 3.7, 3.7 to
-- one from 3.7 up to 3.8, 3.8 to every later one; a version below 3.3 has no answer.
pub negotiated-steps :
    (server : ℕ × ℕ)
    → negotiated server ≡ (
        if version_lt server (3, 3)
        then none
        else if version_lt server (3, 7)
        then some (3, 3)
        else if version_lt server (3, 8)
        then some (3, 7)
        else some (3, 8))
unfolding negotiated best_version
negotiated-steps (zero, minor) = refl
negotiated-steps (suc zero, minor) = refl
negotiated-steps (suc (suc zero), minor) = refl
negotiated-steps (suc (suc (suc zero)), minor) = ground arith
negotiated-steps (suc (suc (suc (suc n))), minor) = ground arith

-- A type more in the list, given which of the four the rest of it has.
ranked :
    (t : ℕ) (a b c d : Bool) (rest : ℕ)
    → rest ≡ (if a then 30 else if b then 19 else if c then 2 else if d then 1 else 0)
    → (if elem t supported_auths && ltb rest t then t else rest) ≡ (
        if 30 == t || a
        then 30
        else if 19 == t || b
        then 19
        else if 2 == t || c
        then 2
        else if 1 == t || d
        then 1
        else 0)
ranked t a b c d rest e = ground arith

-- The security type that the client picks of the server's list is ARD's (30) if the list has it, else that of VeNCrypt (19), of VNC
-- authentication (2) or of none (1), the first of these that the list has, and 0 stands for no type in common.
pub best_auth-ranked :
    (types : Bytes)
    → best_auth types ≡ (
        if elem 30 types
        then 30
        else if elem 19 types
        then 19
        else if elem 2 types
        then 2
        else if elem 1 types
        then 1
        else 0)
unfolding best_auth
best_auth-ranked [] = refl
best_auth-ranked (t ∷ ts) =
    ranked t (elem 30 ts) (elem 19 ts) (elem 2 ts) (elem 1 ts) (best_auth ts) (best_auth-ranked ts)
