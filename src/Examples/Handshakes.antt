-- ===== src/Examples/Handshakes.antt =====
-- Servers that a client meets (vncdotool/rfb.py, vncdotool/vencrypt.py).
use awc_remote.Base.{ℕ, ◌≡◌, ◌≢◌, refl, true, false, none, some, List, [], ◌∷◌}
use awc_remote.Client.{Library}
use awc_remote.Security.Vencrypt.{Policy, Credentials, elem, anonymous_subtypes, choose}
use awc_remote.Security.Vencrypt.Choice.{choose-ranked, choose-permitted}
use awc_remote.Connection.{Conn, new_connection}
use awc_remote.Connection.Handshake.{negotiated, best_auth, finish_security}
use awc_remote.Connection.Handshake.{header, begins_header}
use awc_remote.Base.{Bytes, ◌++◌, ◌↔◌}
use awc_remote.Connection.Handshake.Lines.{Digits, AreDigits, line_of, begins_header-completion}
use awc_remote.Connection.Handshake.Versions.{negotiated-steps, best_auth-ranked}
use awc_remote.Connection.Loop.{ready, drain}
use awc_remote.Connection.Loop.Stall.{drain-finish_security}

-- A server of version 3.5, which the list of versions lacks.
version_3_5 : negotiated (3, 5) ≡ some (3, 3)
version_3_5 = negotiated-steps (3, 5)

-- None, VNC authentication, Tight, and a type without a number of its own.
auth_of_four : best_auth (1 ∷ 2 ∷ 16 ∷ 77 ∷ []) ≡ 2
unfolding best_auth
auth_of_four = best_auth-ranked (1 ∷ 2 ∷ 16 ∷ 77 ∷ [])

abbrev strict : Policy
strict = record { hostname = some (104 ∷ []); allow_unverified = false }

abbrev unnamed : Policy
unnamed = record { hostname = none; allow_unverified = false }

abbrev with_password : Credentials
with_password = record { username = none; password = some (112 ∷ []) }

-- A server that offers every subtype with TLS, and the plain one.
abbrev all_subtypes : List ℕ
all_subtypes = 256 ∷ 257 ∷ 258 ∷ 259 ∷ 260 ∷ 261 ∷ 262 ∷ []

best_subtype : choose all_subtypes strict with_password ≡ some 261
best_subtype = choose-ranked all_subtypes strict with_password

permit_strict :
    (◌≢◌ {A = ℕ} 261 256) × (elem 261 anonymous_subtypes ≡ true → strict.allow_unverified ≡ true)
unfolding choose
permit_strict = choose-permitted all_subtypes strict with_password 261 refl

abbrev no_library : Library
no_library = record {
  decompress = λ calls block limit. none;
  open_jpeg = λ block. none;
  triple_des = λ key block. block;
  urandom = λ n. [];
  ard_response = λ credentials generator key_len modulus server_key. [];
  certificates_load = λ host. true;
  typed_username = [];
  typed_password = [];
}

-- A connection whose server has refused the password with an empty reason.
abbrev refused : Conn
refused =
    record (new_connection (record {
      shared = false;
      username = none;
      password = some (112 ∷ []);
      tls_hostname = none;
      tls_allow_unverified = false;
    })) { starting = false; expected_len = 0 }

refused_spins :
    (drain 3 no_library (finish_security false refused) ≡ finish_security false refused)
    × (ready (drain 3 no_library (finish_security false refused)) ≡ true)
refused_spins = drain-finish_security 3 no_library refused refl refl

-- Four bytes of a line, "RFB ".
begun_line : (begins_header (82 ∷ 70 ∷ 66 ∷ 32 ∷ []) header ≡ true) ↔ (
    (more : Bytes) × (d : Digits) × (e : Digits) × AreDigits d
    × AreDigits e
    × ((82 ∷ 70 ∷ 66 ∷ 32 ∷ []) ++ more ≡ line_of d e))
begun_line = begins_header-completion (82 ∷ 70 ∷ 66 ∷ 32 ∷ [])
