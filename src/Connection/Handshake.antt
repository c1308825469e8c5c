-- ===== src/Connection/Handshake.antt =====
-- The version of `_handleInitial`, and the handlers of the handshake.
pub mod Versions
pub mod Lines
use awc_remote.Base.{
  ℕ, zero, suc, ◌+◌, ◌-◌, ◌*◌, ◌/◌, ◌%◌, Bool, true, false, not, ◌&&◌, ◌||◌, Bytes, Option, none,
  some, List, [], ◌∷◌, ◌++◌, map, length, take, drop, slice, byte_at, u32_at, ltb, leb, ◌==◌,
  if◌then◌else◌,
}
use mathlib.Core.List.{foldr}
use awc_remote.PixelFormat.{from_bytes}
use awc_remote.Base.{u16_at}
use awc_remote.Client.{Client, Library, write, vnc_connection_made, emit, max_message_payload}
use awc_remote.Generator.{Gen, done}
use awc_remote.Generator.Resume.{Resumed, returned, failed, parked, resume}
use awc_remote.Security.{version_lt, security_handler}
use awc_remote.Security.Vencrypt.{elem}
use awc_remote.Connection.{
  Conn, Handler, number_security_types, security_types, auth, conn_failed, conn_message,
  server_init, server_name, connection, pump_security, expect, abort, crash, is_security_error,
}

-- `_HEADER_TRANSLATE`: every digit reads as 0.
abbrev pub norm_byte : ℕ → ℕ
norm_byte b = if leb 48 b && leb b 57 then 48 else b

-- b"RFB 000.000\n"
abbrev pub header : Bytes
header = 82 ∷ 70 ∷ 66 ∷ 32 ∷ 48 ∷ 48 ∷ 48 ∷ 46 ∷ 48 ∷ 48 ∷ 48 ∷ 10 ∷ []

-- `_HEADER.startswith(norm)`, of the bytes before translation.
unfoldable pub begins_header : Bytes → Bytes → Bool
begins_header [] pattern = true
begins_header (b ∷ bs) [] = false
begins_header (b ∷ bs) (p ∷ ps) = norm_byte b == p && begins_header bs ps

-- `int(digits)` of three digits.
abbrev pub three_digits : Bytes → ℕ → ℕ
three_digits b i =
    (byte_at b i - 48) * 100 + (byte_at b (i + 1) - 48) * 10 + (byte_at b (i + 2) - 48)

-- b"%03d" of a number below 1000.
abbrev pub show_three : ℕ → Bytes
show_three n = (48 + n / 100 % 10) ∷ (48 + n / 10 % 10) ∷ (48 + n % 10) ∷ []

abbrev pub supported_versions : List (ℕ × ℕ)
supported_versions = (3, 3) ∷ (3, 7) ∷ (3, 8) ∷ (3, 889) ∷ (4, 0) ∷ (4, 1) ∷ (5, 0) ∷ []

abbrev pub later : ℕ × ℕ → Option (ℕ × ℕ) → ℕ × ℕ
later v none = v
later v (some w) = if version_lt v w then w else v

-- `max(v for v in SUPPORTED_SERVER_VERSIONS if v <= server)`; `none` is the ValueError of no `v`.
unfoldable pub best_version : ℕ × ℕ → List (ℕ × ℕ) → Option (ℕ × ℕ)
best_version server [] = none
best_version server (v ∷ vs) =
    let rest = best_version server vs in if version_lt server v then rest else some (later v rest)

abbrev pub cap_version : ℕ × ℕ → ℕ × ℕ
cap_version v = if version_lt (3, 8) v then (3, 8) else v

unfoldable pub negotiated : ℕ × ℕ → Option (ℕ × ℕ)
unfolding best_version
negotiated server = elim (best_version server supported_versions) [
  | none ↦ none
  | some v ↦ some (cap_version v)
]

abbrev pub version_line : ℕ × ℕ → Bytes
version_line (major, minor) =
    82 ∷ 70 ∷ 66 ∷ 32 ∷ (show_three major ++ (46 ∷ (show_three minor ++ 10 ∷ [])))

unfoldable pub handle_version : ℕ × ℕ → Conn → Conn
unfolding negotiated expect crash
handle_version server c = elim (negotiated server) [
  | none ↦ crash c
  | some version ↦
      let d = record c {
        packet = drop 12 c.packet;
        starting = false;
        version_server = server;
        client = record (emit (write (version_line version)) c.client) { version = version };
      } in
      if version_lt version (3, 7) then expect auth 4 d else expect number_security_types 1 d
]

-- `_handleInitial`, without the loop that `expect` starts at its end.
unfoldable pub handle_initial : Conn → Conn
unfolding begins_header handle_version abort
handle_initial c =
    let head = take 12 c.packet in
    if not (begins_header head header)
    then abort c
    else if length head == 12
    then handle_version (three_digits head 4, three_digits head 8) c
    else c

unfoldable pub handle_number_security_types : Bytes → Conn → Conn
unfolding expect
handle_number_security_types block c =
    if byte_at block 0 == 0
    then expect conn_failed 4 c
    else expect security_types (byte_at block 0) c

-- `_finishSecurity` and `_doClientInitialization`. Without success nothing is parked anew: the
-- length stays as it was, and sending a block to the exhausted generator stops it again, with no value.
unfoldable pub finish_security : Bool → Conn → Conn
unfolding expect
finish_security true c =
    expect server_init 24 (record c {
      client = emit (write ((if c.client.factory.shared then 1 else 0) ∷ [])) c.client;
    })
finish_security false c = record c { handler = pump_security (λ _. done false) }

-- `_pump` for a security handler.
unfoldable pub pump_security_gen : Gen Client Bool → Conn → Conn
unfolding finish_security expect abort crash
pump_security_gen g c = elim (resume g c.client (ltb 0 (length c.packet))) [
  | returned proceed client ↦ finish_security proceed (record c { client = client })
  | failed e client ↦
      if is_security_error e
      then abort (record c { client = client })
      else crash (record c { client = client })
  | parked n k client ↦ expect (pump_security k) n (record c { client = client })
]

unfoldable pub start_security : Library → ℕ → Conn → Conn
unfolding pump_security_gen abort
start_security lib sec_type c = elim (security_handler lib sec_type) [
  | none ↦ abort c
  | some g ↦ pump_security_gen g c
]

abbrev pub supported_auths : List ℕ
supported_auths = 1 ∷ 2 ∷ 19 ∷ 30 ∷ []

-- `max(set(types) & SUPPORTED_AUTHS)`, 0 if there is none.
unfoldable pub best_auth : Bytes → ℕ
best_auth [] = 0
best_auth (t ∷ ts) =
    let rest = best_auth ts in if elem t supported_auths && ltb rest t then t else rest

unfoldable pub handle_security_types : Library → Bytes → Conn → Conn
unfolding best_auth start_security
handle_security_types lib block c =
    if best_auth block == 0
    then abort c
    else start_security lib (best_auth block)
        (record c { client = emit (write (best_auth block ∷ [])) c.client })

unfoldable pub handle_auth : Library → Bytes → Conn → Conn
unfolding expect start_security abort
handle_auth lib block c =
    let chosen = u32_at block 0 in
    if chosen == 0
    then expect conn_failed 4 c
    else if elem chosen supported_auths
    then start_security lib chosen c
    else abort c

unfoldable pub handle_conn_failed : Bytes → Conn → Conn
unfolding expect abort
handle_conn_failed block c =
    let waitfor = u32_at block 0 in
    if ltb max_message_payload waitfor then abort c else expect conn_message waitfor c

unfoldable pub handle_server_init : Bytes → Conn → Conn
unfolding expect
handle_server_init block c = expect server_name (u32_at block 20) (record c {
  client = record c.client {
    width = u16_at block 0;
    height = u16_at block 2;
    pixel_format = from_bytes (slice block 4 16);
  };
})

unfoldable pub handle_server_name : Bytes → Conn → Conn
unfolding expect
handle_server_name block c =
    expect connection 1
      (record c { client = emit vnc_connection_made (record c.client { name = block }) })
