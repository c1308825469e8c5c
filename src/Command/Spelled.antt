-- ===== src/Command/Spelled.antt =====
-- Server addresses as a user writes them, and `parse_server` of vncdotool/command.py.
use awc_remote.Base.{
  ℕ, ◌≡◌, refl, ◌∙◌, Bool, true, false, ◌&&◌, not, some, List, [], ◌∷◌, ◌++◌, ◌==◌, arith,
}
use mathlib.Core.List.{append-nil}
use awc_remote.Base.Int.{ℤ, pos, add_ℕ}
use awc_remote.DoTool.Keys.{Text}
use awc_remote.Command.Servers.{
  Resolver, Family, inet6, address, parse_server, parse_plain, is_websocket_url, split_colon,
  partition_bracket, family_of, or_localhost, named_server, bracketed, port_of,
}

-- A character that a text does not have.
abbrev pub lacks : ℕ → Text → Bool
lacks c [] = true
lacks c (d ∷ ds) = not (d == c) && lacks c ds

-- What follows the host: nothing, a display or a port, each as its digits and its number.
pub data Suffix : Type 0 where
  no_suffix : Suffix
  display port : Text → ℤ → Suffix

abbrev pub spell_suffix : Suffix → Text
spell_suffix no_suffix = []
spell_suffix (display w n) = 58 ∷ w
spell_suffix (port w n) = 58 ∷ 58 ∷ w

abbrev pub port_number : Suffix → ℤ
port_number no_suffix = pos 5900
port_number (display w n) = add_ℕ n 5900
port_number (port w n) = n

abbrev pub SuffixReads : Resolver → Suffix → Type 0
SuffixReads r no_suffix = Unit
SuffixReads r (display w n) = (lacks 58 w ≡ true) × (r.read_int w ≡ some n)
SuffixReads r (port w n) = (lacks 58 w ≡ true) × (r.read_int w ≡ some n)

-- A host by name or by a number, and one in brackets.
pub data Host : Type 0 where
  plain_host bracketed_host : Text → Host

abbrev pub spell : Host → Suffix → Text
spell (plain_host h) s = h ++ spell_suffix s
spell (bracketed_host h) s = 91 ∷ (h ++ (93 ∷ spell_suffix s))

abbrev pub HostReads : Resolver → Host → Type 0
HostReads r (plain_host h) = (lacks 58 h ≡ true) × (lacks 91 h ≡ true)
HostReads r (bracketed_host h) = (lacks 93 h ≡ true) × (r.is_ipv6 h ≡ true)

abbrev pub family : Resolver → Host → Family
family r (plain_host h) = family_of r (or_localhost h)
family r (bracketed_host h) = inet6

abbrev pub host_name : Host → Text
host_name (plain_host h) = or_localhost h
host_name (bracketed_host h) = h

unlike : (a b : ℕ) (rest : Bool) → not (a == b) && rest ≡ true → (a == b ≡ false) × (rest ≡ true)
unlike a b rest h = (ground arith, ground arith)

split_lacks : (w : Text) → lacks 58 w ≡ true → split_colon w ≡ (w, [])
unfolding split_colon
split_lacks [] h = refl
split_lacks (c ∷ w) h = let u = unlike c 58 (lacks 58 w) h in rw (split_lacks w u.1, u.0)

split-append :
    (h rest : Text)
    → lacks 58 h ≡ true
    → split_colon (h ++ (58 ∷ rest)) ≡ (h, (split_colon rest).0 ∷ (split_colon rest).1)
unfolding split_colon
split-append [] rest e = refl
split-append (c ∷ h) rest e =
    let u = unlike c 58 (lacks 58 h) e in rw (split-append h rest u.1, u.0)

-- The parts after the first.
abbrev parts : Suffix → List Text
parts no_suffix = []
parts (display w n) = w ∷ []
parts (port w n) = [] ∷ w ∷ []

module _ (r : Resolver) where
  split_suffix :
      (h : Text) (s : Suffix)
      → lacks 58 h ≡ true
      → SuffixReads r s
      → split_colon (h ++ spell_suffix s) ≡ (h, parts s)
  split_suffix h no_suffix e f = rw (append-nil h) (split_lacks h e)
  split_suffix h (display w n) e f = rw (split-append h w e, split_lacks w f.0)
  split_suffix h (port w n) e f =
      rw (split-append h (58 ∷ w) e, split-append [] w refl, split_lacks w f.0)

  port_parts : (s : Suffix) → SuffixReads r s → port_of r (parts s) ≡ some (port_number s)
  port_parts no_suffix f = refl
  port_parts (display w n) f = rw (port_of, f.1)
  port_parts (port w n) f = f.1

  named_suffix :
      (h : Text) (s : Suffix)
      → lacks 58 h ≡ true
      → SuffixReads r s
      → named_server r (split_colon (h ++ spell_suffix s))
        ≡ some (address (family_of r (or_localhost h)) (or_localhost h) (port_number s))
  named_suffix h s e f = rw (split_suffix h s e f, port_parts s f)

  bracket_suffix :
      (h : Text) (s : Suffix)
      → r.is_ipv6 h ≡ true
      → SuffixReads r s
      → bracketed r (some (h, spell_suffix s)) ≡ some (address inet6 h (port_number s))
  bracket_suffix h s e f = rw (e, split_suffix [] s refl f, port_parts s f)

  partition-append :
      (h rest : Text) → lacks 93 h ≡ true → partition_bracket (h ++ (93 ∷ rest)) ≡ some (h, rest)
  unfolding partition_bracket
  partition-append [] rest e = refl
  partition-append (c ∷ h) rest e =
      let u = unlike c 93 (lacks 93 h) e in rw (partition-append h rest u.1, u.0)

  -- A text that does not begin with "[" is split at its colons.
  no_bracket :
      (h : Text) (s : Suffix)
      → lacks 91 h ≡ true
      → parse_plain r (h ++ spell_suffix s) ≡ named_server r (split_colon (h ++ spell_suffix s))
  no_bracket [] no_suffix e = refl
  no_bracket [] (display w n) e = refl
  no_bracket [] (port w n) e = refl
  no_bracket (c ∷ h) s e = rw ((unlike c 91 (lacks 91 h) e).0)

  plain :
      (h : Host) (s : Suffix)
      → HostReads r h
      → SuffixReads r s
      → parse_plain r (spell h s) ≡ some (address (family r h) (host_name h) (port_number s))
  plain (plain_host h) s e f = no_bracket h s e.1 ∙ named_suffix h s e.0 f
  plain (bracketed_host h) s e f =
      rw (partition-append h (spell_suffix s) e.0) (bracket_suffix h s e.1 f)

  -- A host by name or number, without a colon or an opening bracket, or an IPv6 address in brackets, which is followed by nothing,
  -- by a colon and a display, or by two colons and a port, is parsed, unless it reads as a web socket's URL: to its address family,
  -- to the host, or 127.0.0.1 where none is given, and to port 5900, to 5900 more than the display, or to the port.
  pub parse_server-spell :
      (h : Host) (s : Suffix)
      → HostReads r h
      → SuffixReads r s
      → is_websocket_url (spell h s) ≡ false
      → parse_server r (spell h s) ≡ some (address (family r h) (host_name h) (port_number s))
  unfolding parse_server
  parse_server-spell h s e f n = rw (n) (plain h s e f)
