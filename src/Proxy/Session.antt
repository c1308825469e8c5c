-- ===== src/Proxy/Session.antt =====
-- `RFBServer.dataReceived` of vncdotool/loggingproxy.py over a run of whole messages.
use awc_remote.Base.{
  ◌⊎◌, inl, inr, Bool-cases, true, ℕ, zero, suc, ◌<◌, ◌≡◌, refl, sym, ap, ◌∙◌, false, Bytes, some,
  List, [], ◌∷◌, ◌++◌, map, length, length-append, ltb, arith,
}
use mathlib.Core.List.{append_assoc, append-nil}
use awc_remote.PixelFormat.{to_bytes}
use awc_remote.Messages.{client_fence}
use awc_remote.Proxy.{
  cut_text, Message, RfbServer, returned, hear, handle_protocol, call_handler, serve,
}
use awc_remote.Proxy.Spoken.{
  Spoken, says_format, says_encodings, says_request, says_key, says_pointer, says_text, says_fence,
  spoken_bytes, meant, Fits, between,
}
use awc_remote.Proxy.RoundTrip.{
  key_heard, pointer_heard, request_heard, format_heard, encodings_heard, fence_heard, awaiting,
  text_awaited, text_heard,
}

-- A round of the loop that has enough bytes.
heard_round :
    (n : ℕ) (s d : RfbServer)
    → ltb (length s.buffer) s.nbytes ≡ false
    → call_handler s.awaited s ≡ returned d
    → serve (suc n) s ≡ serve n d
unfolding serve
heard_round n s d h e = rw (serve, h, e)

-- The rounds that a message takes, before `more`.
abbrev pub rounds : Spoken → ℕ → ℕ
rounds (says_text text) more = suc (suc more)
rounds _ more = suc more

-- The server after a message.
abbrev pub after : Spoken → RfbServer → RfbServer
after (says_text text) s = hear (cut_text text) (record s { cut_text_length = length text })
after m s = hear (meant m) s

-- The length that the server waits for after a message: a text sets it back to 1.
abbrev pub next : Spoken → ℕ → ℕ
next (says_text text) n = 1
next m n = n

itself : (text : Bytes) (rest : Bytes) → ltb (length (text ++ rest)) (length text) ≡ false
itself text rest = ground (arith, length-append text rest)

protocol_round :
    (more n : ℕ) (s d : RfbServer) (front rest : Bytes)
    → ltb (length (front ++ rest)) n ≡ false
    → handle_protocol (between n (front ++ rest) s) ≡ returned d
    → serve (suc more) (between n (front ++ rest) s) ≡ serve more d
unfolding call_handler
protocol_round more n s d front rest enough e =
    heard_round more (between n (front ++ rest) s) d enough e

one_message :
    (m : Spoken) (more n : ℕ) (rest : Bytes) (s : RfbServer)
    → Fits m
    → ltb (length (spoken_bytes m ++ rest)) n ≡ false
    → serve (rounds m more) (between n (spoken_bytes m ++ rest) s)
      ≡ serve more (between (next m n) rest (after m s))
unfolding spoken_bytes call_handler client_fence to_bytes
one_message (says_format f) more n rest s h k =
    protocol_round more n s (between n rest (after (says_format f) s))
      (spoken_bytes (says_format f)) rest k (format_heard n s rest f h)
one_message (says_encodings es) more n rest s h k =
    protocol_round more n s (between n rest (after (says_encodings es) s))
      (spoken_bytes (says_encodings es)) rest k (encodings_heard n s rest es h.0 h.1)
one_message (says_request incremental x y w u) more n rest s h k =
    protocol_round more n s (between n rest (after (says_request incremental x y w u) s))
      (spoken_bytes (says_request incremental x y w u)) rest k
      (request_heard n s rest incremental x y w u h.0 h.1 h.2 h.3)
one_message (says_key down key) more n rest s h k =
    protocol_round more n s (between n rest (after (says_key down key) s))
      (spoken_bytes (says_key down key)) rest k (key_heard n s rest down key h)
one_message (says_pointer mask x y) more n rest s h k =
    protocol_round more n s (between n rest (after (says_pointer mask x y) s))
      (spoken_bytes (says_pointer mask x y)) rest k (pointer_heard n s rest mask x y h.1 h.2)
one_message (says_fence flags payload) more n rest s h k =
    protocol_round more n s (between n rest (after (says_fence flags payload) s))
      (spoken_bytes (says_fence flags payload)) rest k (fence_heard n s rest flags payload h.0)
one_message (says_text text) more n rest s h k =
    protocol_round (suc more) n s (awaiting n s rest text) (spoken_bytes (says_text text)) rest k
      (text_awaited n s rest text h)
    ∙ heard_round more (awaiting n s rest text) (between 1 rest (after (says_text text) s))
        (itself text rest) (text_heard n s rest text)

-- A run of messages.
abbrev pub all_bytes : List Spoken → Bytes
all_bytes [] = []
all_bytes (m ∷ ms) = spoken_bytes m ++ all_bytes ms

abbrev pub all_rounds : List Spoken → ℕ → ℕ
all_rounds [] more = more
all_rounds (m ∷ ms) more = rounds m (all_rounds ms more)

abbrev pub EachFits : List Spoken → Type 0
EachFits [] = Unit
EachFits (m ∷ ms) = Fits m × EachFits ms

pub some_bytes : (m : Spoken) → 0 < length (spoken_bytes m)
unfolding spoken_bytes to_bytes client_fence
some_bytes (says_format f) = omega arith
some_bytes (says_encodings es) = omega arith
some_bytes (says_request incremental x y w h) = omega arith
some_bytes (says_key down k) = omega arith
some_bytes (says_pointer mask x y) = omega arith
some_bytes (says_text t) = omega arith
some_bytes (says_fence flags payload) = omega arith

nothing_late : (late : List Spoken) → length (all_bytes late) < 1 → late ≡ []
nothing_late [] h = refl
nothing_late (m ∷ ms) h =
    absurd (omega (arith, length-append (spoken_bytes m) (all_bytes ms), some_bytes m))

-- The loop stops for want of bytes, whatever rounds are left.
waited :
    (more n : ℕ) (b : Bytes) (s : RfbServer)
    → ltb (length b) n ≡ true
    → serve more (between n b s) ≡ some (returned (between n b s))
unfolding serve
waited zero n b s h = rw (h)
waited (suc more) n b s h = rw (serve, h)

after-heard : (m : Spoken) (s : RfbServer) → (after m s).heard ≡ s.heard ++ meant m ∷ []
after-heard (says_format f) s = refl
after-heard (says_encodings es) s = refl
after-heard (says_request incremental x y w k) s = refl
after-heard (says_key down k) s = refl
after-heard (says_pointer mask x y) s = refl
after-heard (says_text text) s = refl
after-heard (says_fence flags payload) s = refl

-- What comes of a run of messages: those of its front are passed on, and either that is the whole run, or the bytes of what is
-- left are fewer than the server still waits for, as it did before.
abbrev pub Passed : List Spoken → ℕ → ℕ → RfbServer → Type 0
Passed ms more n s =
    (heard : List Spoken) × (late : List Spoken) × (d : RfbServer) × (k : ℕ) × (ms ≡ heard ++ late)
    × (serve (all_rounds ms more) (between n (all_bytes ms) s)
        ≡ some (returned (between k (all_bytes late) d)))
    × (d.heard ≡ s.heard ++ map meant heard)
    × (0 < k)
    × ((late ≡ []) ⊎ ((k ≡ n) × (length (all_bytes late) < n)))

-- How a run ends, from how it ends after its first message.
ended :
    (m : Spoken) (late : List Spoken) (n k : ℕ)
    → (late ≡ []) ⊎ ((k ≡ next m n) × (length (all_bytes late) < next m n))
    → (late ≡ []) ⊎ ((k ≡ n) × (length (all_bytes late) < n))
ended m late n k (inl e) = inl e
ended (says_text text) late n k (inr (e, h)) = inl (nothing_late late h)
ended (says_format f) late n k (inr h) = inr h
ended (says_encodings es) late n k (inr h) = inr h
ended (says_request incremental x y w u) late n k (inr h) = inr h
ended (says_key down key) late n k (inr h) = inr h
ended (says_pointer mask x y) late n k (inr h) = inr h
ended (says_fence flags payload) late n k (inr h) = inr h

next_some : (m : Spoken) (n : ℕ) → 0 < n → 0 < next m n
next_some (says_text text) n h = omega arith
next_some (says_format f) n h = h
next_some (says_encodings es) n h = h
next_some (says_request incremental x y w u) n h = h
next_some (says_key down key) n h = h
next_some (says_pointer mask x y) n h = h
next_some (says_fence flags payload) n h = h

after_first :
    (m : Spoken) (ms : List Spoken) (more n : ℕ) (s : RfbServer)
    → Fits m
    → ltb (length (all_bytes (m ∷ ms))) n ≡ false
    → 0 < n
    → Passed ms more (next m n) (after m s)
    → Passed (m ∷ ms) more n s
after_first m ms more n s h e z (heard, late, d, k, split, run, calls, some_bytes, end) = (
  m ∷ heard,
  late,
  d,
  k,
  ap (λ (l : List Spoken). m ∷ l) split,
  one_message m (all_rounds ms more) n (all_bytes ms) s h e ∙ run,
  calls
      ∙ ap (λ (l : List Message). l ++ map meant heard) (after-heard m s)
      ∙ append_assoc s.heard (meant m ∷ []) (map meant heard),
  some_bytes,
  ended m late n k end,
)

-- A server between two messages whose buffer holds the bytes of any run of messages with fields that fit
-- their widths, of the kinds that it knows but QEMU's extended key event, calls its handlers with just the messages of a front of the
-- run, in order, and is then between two messages with the bytes of the others in its buffer. There are others only if
-- a message that came in parts has left it waiting for more bytes than one, and theirs are fewer than that. For each message this takes at most one
-- round of the loop, and two for a text.
pub serve-all_bytes :
    (ms : List Spoken) (more n : ℕ) (s : RfbServer) → 0 < n → EachFits ms → Passed ms more n s
serve-all_bytes [] more n s z h =
    ([], [], s, n, refl, waited more n [] s (ground arith), sym (append-nil s.heard), z, inl refl)
serve-all_bytes (m ∷ ms) more n s z h = elim (Bool-cases (ltb (length (all_bytes (m ∷ ms))) n)) [
  | inl e ↦ (
    [],
    m ∷ ms,
    s,
    n,
    refl,
    waited (all_rounds (m ∷ ms) more) n (all_bytes (m ∷ ms)) s e,
    sym (append-nil s.heard),
    z,
    inr (refl, ground arith),
  )
  | inr e ↦
      after_first m ms more n s h.0 e z
        (serve-all_bytes ms more (next m n) (after m s) (next_some m n z) h.1)
]
