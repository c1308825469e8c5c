-- ===== src/Capture/Handshake.antt =====
-- `HandshakeScrubber._run` of vncdotool/capture.py: the handshake's grammar over both directions.
use awc_remote.Base.{
  ℕ, Bool, true, false, not, ◌&&◌, Bytes, Option, none, some, List, [], ◌∷◌, map, slice, byte_at,
  u16_at, u32_at, u32_be, ltb, ◌==◌, if◌then◌else◌,
}
use mathlib.Core.List.{reverse}
use awc_remote.Base.Int.{ℤ, pos, lt_ℤ}
use awc_remote.Text.Integer.{int_of}
use awc_remote.Capture.{Notes, Step, stopped, want, s2c, c2s, Scrubber, CaptureWriter}

-- `str.rstrip("\n")` on the text that `decode("ascii", "replace")` gives.
unfoldable pub drop_newlines : List ℕ → List ℕ
drop_newlines [] = []
drop_newlines (c ∷ cs) = if c == 10 then drop_newlines cs else c ∷ cs

unfoldable pub version_text : Bytes → List ℕ
unfolding drop_newlines
version_text b = reverse (drop_newlines (reverse (map (λ c. if ltb c 128 then c else 65533) b)))

-- Pairs of integers in Python's order.
abbrev pub before : ℤ × ℤ → ℤ × ℤ → Bool
before (a, b) (c, d) = if lt_ℤ a c then true else if lt_ℤ c a then false else lt_ℤ b d

abbrev pub both : Option ℤ → Option ℤ → Option (ℤ × ℤ)
both (some a) (some b) = some (a, b)
both _ _ = none

-- `(int(client_head[4:7]), int(client_head[8:11]))`
unfoldable pub reply_version : Bytes → Option (ℤ × ℤ)
unfolding int_of
reply_version b = both (int_of (slice b 4 3)) (int_of (slice b 8 3))

-- `_give_up`
abbrev pub give_up : Bool → Notes → Notes
give_up preserve_auth s = if preserve_auth then s else record s { abort_reason = true }

-- From ServerInit to the end.
unfoldable pub await_server_init : Notes → Step
await_server_init s = want s2c 24 s (λ server_init s1.
    let name_len = u32_at server_init 20 in
    let s2 = record s1 {
      width = some (u16_at server_init 0);
      height = some (u16_at server_init 2);
    } in
    if name_len == 0 then stopped s2 else want s2c name_len s2 (λ name s3. stopped s3))

unfoldable pub await_client_init : Notes → Step
unfolding await_server_init
await_client_init s = want c2s 1 s (λ shared s1. await_server_init s1)

-- SecurityResult; `old` is `negotiated < (3, 8)`.
unfoldable pub await_result : Bool → Notes → Step
unfolding await_client_init
await_result old s = want s2c 4 s (λ result s1.
    if not (u32_at result 0 == 0)
    then stopped (if old then record s1 { recording = some [] } else s1)
    else await_client_init (record s1 { recording = some (if old then [] else u32_be 0) }))

-- The end of the exchange: SecurityResult, where there is one.
unfoldable pub after_auth : ℤ × ℤ → ℕ → Notes → Step
unfolding await_client_init await_result
after_auth negotiated sectype s =
    let old = before negotiated (pos 3, pos 8) in
    let left = record s { in_auth = false } in
    if old && sectype == 1 then await_client_init left else await_result old left

-- `ARD_CREDENTIALS_LEN`
abbrev pub ard_credentials_len : ℕ
ard_credentials_len = 128

-- The exchange of the security type, which is to leave no trace.
unfoldable pub exchange : Bool → ℤ × ℤ → ℕ → Notes → Step
unfolding after_auth
exchange preserve_auth negotiated sectype s0 =
    let s = record s0 { security_type = some sectype; in_auth = true } in
    if sectype == 2
    then want s2c 16 s
        (λ challenge s1. want c2s 16 s1 (λ response s2. after_auth negotiated sectype s2))
    else if sectype == 30
    then want s2c 4 s (λ head s1.
      let key_len = u16_at head 2 in
      want s2c key_len s1 (λ modulus s2. want s2c key_len s2 (λ server_key s3.
        want c2s ard_credentials_len s3 (λ credentials s4.
          want c2s key_len s4 (λ client_key s5. after_auth negotiated sectype s5)))))
    else if sectype == 1
    then after_auth negotiated sectype s
    else if sectype == 0
    then after_auth negotiated sectype s
    else stopped (record (give_up preserve_auth s) { unstrippable_auth = some sectype })

-- Before version 3.7 the server names the type.
unfoldable pub offer_type : Bool → ℤ × ℤ → Notes → Step
unfolding exchange
offer_type preserve_auth negotiated s = want s2c 4 s (λ auth s1.
    let sectype = u32_at auth 0 in
    if sectype == 0
    then stopped s1
    else exchange preserve_auth negotiated sectype
        (record s1 { recording = some (u32_be 1); security_types = sectype ∷ [] }))

-- The client's choice among the types.
unfoldable pub choose_type : Bool → ℤ × ℤ → ℕ → Notes → Step
unfolding exchange
choose_type preserve_auth negotiated num_types s = want s2c num_types s (λ types s2.
    want c2s 1 (record s2 { security_types = types; recording = some (1 ∷ 1 ∷ []) })
      (λ chosen s3.
        exchange preserve_auth negotiated (byte_at chosen 0)
          (record s3 { recording = some (1 ∷ []) })))

-- From version 3.7 on the server lists types.
unfoldable pub offer_types : Bool → ℤ × ℤ → Notes → Step
unfolding choose_type
offer_types preserve_auth negotiated s = want s2c 1 s (λ count s1.
    let num_types = byte_at count 0 in
    if num_types == 0
    then stopped s1
    else choose_type preserve_auth negotiated num_types (record s1 { recording = some [] }))

unfoldable pub offer : Bool → ℤ × ℤ → Notes → Step
unfolding offer_type offer_types
offer preserve_auth negotiated s =
    if before negotiated (pos 3, pos 7)
    then offer_type preserve_auth negotiated s
    else offer_types preserve_auth negotiated s

-- The client's version line, which rules the rest of the exchange.
unfoldable pub client_reply : Bool → Notes → Step
unfolding reply_version offer
client_reply preserve_auth s = want c2s 12 s (λ head s1. elim (reply_version head) [
  | none ↦ stopped (give_up preserve_auth s1)
  | some negotiated ↦
      offer preserve_auth negotiated (record s1 { negotiated_version = some negotiated })
])

abbrev pub no_notes : Notes
no_notes = record {
  protocol_version = none;
  negotiated_version = none;
  security_types = [];
  security_type = none;
  unstrippable_auth = none;
  abort_reason = false;
  width = none;
  height = none;
  recording = none;
  in_auth = false;
}

-- `_run`
unfoldable pub run : Bool → Notes → Step
unfolding version_text client_reply
run preserve_auth s = want s2c 12 s (λ head s1.
    client_reply preserve_auth (record s1 { protocol_version = some (version_text head) }))

-- `HandshakeScrubber.__init__`
abbrev pub new_scrubber : Bool → Scrubber
new_scrubber preserve_auth = record {
  step = run preserve_auth no_notes;
  s2c_pending = [];
  c2s_pending = [];
}

-- A `CaptureWriter` over it.
abbrev pub new_capture : Bool → CaptureWriter
new_capture preserve_auth = record {
  preserve_auth = preserve_auth;
  scrubber = new_scrubber preserve_auth;
  s2c_record = [];
  c2s_record = [];
  encodings_seen = [];
}
