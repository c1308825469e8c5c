-- ===== src/Security.antt =====
-- vncdotool/security/: None, VNC authentication, Apple's Diffie-Hellman, and VeNCrypt.
pub mod Vencrypt
use awc_remote.Base.{
  ℕ, ◌+◌, ◌-◌, ◌*◌, ◌<◌, Bool, true, false, not, ◌&&◌, ◌||◌, Bytes, Option, none, some, List, [],
  ◌∷◌, ◌++◌, map, length, range_step, byte_at, u16_at, u32_at, u32_be, ltb, leb, ◌==◌,
  if◌then◌else◌,
}
use awc_remote.Failure.{Result, ok, err, security_error}
use awc_remote.Generator.{
  Gen, done, raise, ask, look, change, pending, ◌>>=◌, ◌>>◌, read, modify, gets, lift, raise_if,
}
use awc_remote.Client.{
  Client, Factory, Library, write, lose_connection, start_tls, vnc_auth_failed, emit,
  vnc_request_password, ard_request_credentials,
}
use awc_remote.Text.{Codes, utf8, vnc_des, des_encrypt}
use awc_remote.Messages.{require_payload}
use Vencrypt.{choose, is_vnc_auth, is_plain_auth, Policy, Credentials, can_start_tls}

-- `client._version < (3, 8)`, on versions as pairs.
abbrev pub version_lt : ℕ × ℕ → ℕ × ℕ → Bool
version_lt (a, b) (c, d) = ltb a c || (a == c && ltb b d)

-- `security_result`
unfoldable pub security_result : Gen Client Bool
unfolding require_payload
security_result = do
  block ← read 4
  let result = u32_at block 0
  if result == 0
      then done true
      else if ltb 2 result
      then (do modify (emit lose_connection); done false)
      else (do
        version ← gets (λ c. c.version)
        (if version_lt version (3, 8) then modify (emit vnc_auth_failed) else (do
          size ← read 4
          require_payload (u32_at size 0)
          reason ← read (u32_at size 0)
          modify (emit vnc_auth_failed)))
        modify (emit lose_connection)
        done false)

unfoldable pub none_handler : Gen Client Bool
unfolding security_result
none_handler = do
  version ← gets (λ c. c.version)
  if version_lt version (3, 8) then done true else security_result

-- `vncRequestPassword` and `sendPassword` of `RFBClient`.
unfoldable pub request_password : Library → Gen Client (Unit {0})
unfolding des_encrypt vnc_des
request_password lib = look (λ c. elim c.factory.password [
  | none ↦ modify (emit lose_connection)
  | some password ↦ lift (vnc_des password) >>= λ key.
      modify (λ d. emit (write (des_encrypt lib key d.challenge)) d)
])

unfoldable pub vnc_authentication : Library → Gen Client Bool
unfolding request_password security_result
vnc_authentication lib = do
  block ← read 16
  modify (λ c. record c { challenge = block })
  request_password lib
  security_result

-- `_credential`
unfoldable pub credential : Library → Codes → Result Bytes
credential lib value =
    let encoded = utf8 value ++ 0 ∷ [] in
    if ltb 64 (length encoded)
    then err security_error
    else ok (encoded ++ lib.urandom (64 - length encoded))

abbrev pub or_else : Option Codes → Codes → Codes
or_else none d = d
or_else (some t) d = t

-- `ardRequestCredentials`: the prompts fill what is missing.
unfoldable pub request_credentials : Library → Client → Client
request_credentials lib c = record c {
  factory = record c.factory {
    username = some (or_else c.factory.username lib.typed_username);
    password = some (or_else c.factory.password lib.typed_password);
  };
}

unfoldable pub diffie_hellman : Library → Gen Client Bool
unfolding request_credentials credential security_result
diffie_hellman lib = do
  head ← read 4
  let key_len = u16_at head 2
  modulus ← read key_len
  server_key ← read key_len
  modify (request_credentials lib)
  factory ← gets (λ c. c.factory)
  user ← lift (credential lib (or_else factory.username []))
  secret ← lift (credential lib (or_else factory.password []))
  modify
      (emit (write (lib.ard_response (user ++ secret) (u16_at head 0) key_len modulus server_key)))
  security_result

-- `_send_plain`
unfoldable pub send_plain : Client → Client
send_plain c =
    let username = utf8 (or_else c.factory.username []) in
    let password = utf8 (or_else c.factory.password []) in
    emit (write (username ++ password))
      (emit (write (u32_be (length username) ++ u32_be (length password))) c)

abbrev pub policy_of : Factory → Policy
policy_of f = record { hostname = f.tls_hostname; allow_unverified = f.tls_allow_unverified }

abbrev pub credentials_of : Factory → Credentials
credentials_of f = record { username = f.username; password = f.password }

-- `VeNCryptHandler.handle` once the subtype is chosen.
unfoldable pub vencrypt_chosen : Library → ℕ → Gen Client Bool
unfolding request_password send_plain security_result
vencrypt_chosen lib chosen = do
  modify (λ c. emit (write (u32_be chosen)) (record c { vencrypt_subtype = chosen }))
  ack ← read 1
  raise_if (not (byte_at ack 0 == 1)) security_error
  pending (λ ahead. raise_if ahead security_error)
  look (λ c. raise_if (not (can_start_tls lib chosen (policy_of c.factory))) security_error)
  modify (λ c. emit start_tls (record c { tls_handshake_pending = true }))
  (if is_vnc_auth chosen
      then (do block ← read 16; modify (λ c. record c { challenge = block }); request_password lib)
      else (if is_plain_auth chosen then modify send_plain else done tt))
  security_result

-- `VeNCryptHandler.handle`: the agreed version is 0.2, the lower of the server's and ours.
unfoldable pub vencrypt_handler : Library → Gen Client Bool
unfolding vencrypt_chosen
vencrypt_handler lib = do
  version ← read 2
  raise_if (version_lt (byte_at version 0, byte_at version 1) (0, 2)) security_error
  modify (emit (write (0 ∷ 2 ∷ [])))
  ack ← read 1
  raise_if (not (byte_at ack 0 == 0)) security_error
  count ← read 1
  raise_if (byte_at count 0 == 0) security_error
  block ← read (4 * byte_at count 0)
  look (λ c.
      elim (choose (map (u32_at block) (range_step (length block) 4)) (policy_of c.factory)
        (credentials_of c.factory)) [
          | none ↦ raise security_error
          | some chosen ↦ vencrypt_chosen lib chosen
        ])

-- `self._security.get(sec_type)`
unfoldable pub security_handler : Library → ℕ → Option (Gen Client Bool)
unfolding none_handler vnc_authentication vencrypt_handler diffie_hellman
security_handler lib sec_type =
    if sec_type == 1
    then some none_handler
    else if sec_type == 2
    then some (vnc_authentication lib)
    else if sec_type == 19
    then some (vencrypt_handler lib)
    else if sec_type == 30
    then some (diffie_hellman lib)
    else none
