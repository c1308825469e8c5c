-- ===== src/Capture.antt =====
-- vncdotool/capture.py: `Tap`, `HandshakeScrubber._feed` and `_flush`, and `CaptureWriter`. The
-- generator `_run` stands in the child Handshake.
pub mod Handshake
pub mod Chunks
pub mod Verbatim
pub mod Held
pub mod Secrets
pub mod Exchange
pub mod Session
pub mod Cuts
use awc_remote.Base.{
  ℕ, ◌+◌, Bool, true, false, not, ◌&&◌, Bytes, Option, none, some, List, [], ◌∷◌, ◌++◌, length,
  take, drop, leb, if◌then◌else◌,
}
use awc_remote.Base.Int.{ℤ, eq_ℤ}

-- The two directions of a proxied connection, server to client and client to server.
pub data Tap : Type 0 where
  s2c c2s : Tap

abbrev pub same_tap : Tap → Tap → Bool
same_tap s2c s2c = true
same_tap c2s c2s = true
same_tap s2c c2s = false
same_tap c2s s2c = false

-- The attributes that `_run` writes. Of the texts of `unstrippable_auth` and `abort_reason` the model
-- keeps the security type, and whether there is a reason.
pub record Notes : Type 0 where
  pub protocol_version : Option (List ℕ)
  pub negotiated_version : Option (ℤ × ℤ)
  pub security_types : List ℕ
  pub security_type : Option ℕ
  pub unstrippable_auth : Option ℕ
  pub abort_reason : Bool
  pub width : Option ℕ
  pub height : Option ℕ
  pub recording : Option Bytes
  pub in_auth : Bool

-- The generator between two calls: ended, or at a yield of `_Want(tap, nbytes)`. A call of `send`
-- gives it the block and the attributes as they are then.
pub data Step : Type 0 where
  stopped : Notes → Step
  want : Tap → ℕ → Notes → (Bytes → Notes → Step) → Step

abbrev pub notes_of : Step → Notes
notes_of (stopped s) = s
notes_of (want t n s k) = s

-- `_waiting_on(tap) is not None`
unfoldable pub waits : Tap → Step → Bool
waits tap (stopped s) = false
waits tap (want t n s k) = same_tap t tap

pub record Scrubber : Type 0 where
  pub step : Step
  pub s2c_pending : Bytes
  pub c2s_pending : Bytes

abbrev pub held_back : Tap → Scrubber → Bytes
held_back s2c sc = sc.s2c_pending
held_back c2s sc = sc.c2s_pending

abbrev pub set_pending : Tap → Bytes → Scrubber → Scrubber
set_pending s2c b sc = record sc { s2c_pending = b }
set_pending c2s b sc = record sc { c2s_pending = b }

-- What the step from `before` to `after` records of its block.
unfoldable pub recorded_chunk : Bool → Notes → Bytes → Notes → Bytes
recorded_chunk preserve_auth before chunk after =
    let fail_closed_default = (if before.in_auth && not preserve_auth then [] else chunk) in
    if preserve_auth
    then chunk
    else elim after.recording [ none ↦ fail_closed_default | some bytes ↦ bytes ]

-- The loop of `_feed`: the step that it ends at, the bytes left in the buffer, and the record.
unfoldable pub watch : Bool → Tap → Step → Bytes → Step × Bytes × Bytes
unfolding recorded_chunk
watch preserve_auth tap (stopped s) buf = (stopped s, buf, [])
watch preserve_auth tap (want t n s k) buf = elim (same_tap t tap && leb n (length buf)) [
  | false ↦ (want t n s k, buf, [])
  | true ↦
      let chunk = take n buf in
      let sent = record s { recording = none } in
      let rest : Step × Bytes × Bytes = watch preserve_auth tap (k chunk sent) (drop n buf) in
      (rest.0, rest.1, recorded_chunk preserve_auth s chunk (notes_of (k chunk sent)) ++ rest.2)
]

-- The end of `_feed`: the bytes of a direction that is no longer watched are recorded as they are.
abbrev pub after_watch : Tap → Scrubber → Step × Bytes × Bytes → Scrubber × Bytes
after_watch tap sc w =
    if waits tap w.0
    then (set_pending tap w.1 (record sc { step = w.0 }), w.2)
    else (set_pending tap [] (record sc { step = w.0 }), w.2 ++ w.1)

-- `_feed`
unfoldable pub feed : Bool → Tap → Bytes → Scrubber → Scrubber × Bytes
unfolding waits watch
feed preserve_auth tap [] sc = (sc, [])
feed preserve_auth tap (b ∷ bytes) sc =
    let buf = held_back tap sc ++ (b ∷ bytes) in
    if waits tap sc.step
    then after_watch tap sc (watch preserve_auth tap sc.step buf)
    else (set_pending tap [] sc, buf)

abbrev pub is_stopped : Step → Bool
is_stopped (stopped s) = true
is_stopped (want t n s k) = false

-- `_flush`
unfoldable pub flush_tap : Bool → Tap → Scrubber → Scrubber × Bytes
flush_tap preserve_auth tap sc =
    let mid_rewrite = not (is_stopped sc.step) && not preserve_auth in
    (set_pending tap [] sc, if mid_rewrite then [] else held_back tap sc)

-- `CaptureWriter`, without its descriptive fields.
pub record CaptureWriter : Type 0 where
  pub preserve_auth : Bool
  pub scrubber : Scrubber
  pub s2c_record : Bytes
  pub c2s_record : Bytes
  pub encodings_seen : List (ℤ × ℕ)

abbrev pub record_of : Tap → CaptureWriter → Bytes
record_of s2c w = w.s2c_record
record_of c2s w = w.c2s_record

-- `self.s2c += data`, and the same for the other direction.
abbrev pub append_to : Tap → CaptureWriter → Scrubber × Bytes → CaptureWriter
append_to s2c w (sc, bytes) = record w { scrubber = sc; s2c_record = w.s2c_record ++ bytes }
append_to c2s w (sc, bytes) = record w { scrubber = sc; c2s_record = w.c2s_record ++ bytes }

-- `feed_s2c` and `feed_c2s`
unfoldable pub feed_capture : Tap → Bytes → CaptureWriter → CaptureWriter
unfolding feed
feed_capture tap bytes w = append_to tap w (feed w.preserve_auth tap bytes w.scrubber)

-- `flush`
unfoldable pub flush : CaptureWriter → CaptureWriter
unfolding flush_tap
flush w =
    let v = append_to s2c w (flush_tap w.preserve_auth s2c w.scrubber) in
    append_to c2s v (flush_tap v.preserve_auth c2s v.scrubber)

-- `note_encoding`, on the dict as an association list.
unfoldable pub note_encoding : ℤ → List (ℤ × ℕ) → List (ℤ × ℕ)
note_encoding encoding [] = (encoding, 1) ∷ []
note_encoding encoding ((e, n) ∷ seen) =
    let rest = note_encoding encoding seen in
    if eq_ℤ e encoding then (e, n + 1) ∷ seen else (e, n) ∷ rest
