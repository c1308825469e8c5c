-- ===== src/Replay/Rounds.antt =====
-- How many blocks the grammar of vncdotool/capture.py can ask for, and what a call of `_feed` with one of them
-- leaves of them.
use awc_remote.Base.{
  ℕ, zero, suc, ◌<◌, ◌≡◌, ◌⊎◌, inl, inr, refl, ◌∙◌, Bool, true, false, not, ◌&&◌, Bytes, Option,
  none, some, [], ◌∷◌, length, leb, ◌==◌, Bool-cases, if_both, arith, take_all, byte_at, u16_at,
  u32_at, u32_be, if◌then◌else◌,
}
use awc_remote.Base.Int.{ℤ, pos}
use awc_remote.Capture.{
  Tap, s2c, c2s, same_tap, Notes, Step, stopped, want, waits, watch, after_watch, feed,
}
use awc_remote.Capture.Handshake.{
  await_server_init, await_client_init, await_result, after_auth, exchange, offer_type, choose_type,
  offer_types, offer, client_reply, run, before, ard_credentials_len, reply_version, give_up,
}
use awc_remote.Capture.Secrets.{clean, clean_pending, sent_notes, whole, drop_all, same_itself}
use awc_remote.Capture.Chunks.{watch_ready, sent_round}

-- A step that asks for at most `n` blocks more. An empty one comes only right after a block of the same
-- direction, which `prev` names.
unfoldable pub Lively : ℕ → Tap → Step → Type 0
Lively n prev (stopped s) = Unit
Lively zero prev (want t m s k) = ⊥
Lively (suc n) prev (want t m s k) =
    ((t ≡ prev) ⊎ (0 < m)) × ((b : Bytes) (s' : Notes) → Lively n t (k b s'))

-- The same between two calls of `_feed`, where no empty block is asked for.
unfoldable pub IsRested : ℕ → Step → Type 0
unfolding Lively
IsRested n (stopped s) = Unit
IsRested zero (want t m s k) = ⊥
IsRested (suc n) (want t m s k) = (0 < m) × ((b : Bytes) (s' : Notes) → Lively n t (k b s'))

any_fuel : (n : ℕ) (t : Tap) (s : Notes) → Lively n t (stopped s)
unfolding Lively
any_fuel zero t s = tt
any_fuel (suc n) t s = tt

Lively-more : (n : ℕ) (t : Tap) (g : Step) → Lively n t g → Lively (suc n) t g
unfolding Lively
Lively-more zero t (stopped s) h = tt
Lively-more (suc n) t (stopped s) h = tt
Lively-more zero t (want u m s k) h = absurd h
Lively-more (suc n) t (want u m s k) (h, f) = (h, λ b s'. Lively-more n u (k b s') (f b s'))

pub IsRested-more : (n : ℕ) (g : Step) → IsRested n g → IsRested (suc n) g
unfolding IsRested
IsRested-more zero (stopped s) h = tt
IsRested-more (suc n) (stopped s) h = tt
IsRested-more zero (want u m s k) h = absurd h
IsRested-more (suc n) (want u m s k) (h, f) = (h, λ b s'. Lively-more n u (k b s') (f b s'))

abbrev more_by : ℕ → ℕ → ℕ
more_by zero n = n
more_by (suc k) n = suc (more_by k n)

Lively-up : (k n : ℕ) (t : Tap) (g : Step) → Lively n t g → Lively (more_by k n) t g
Lively-up zero n t g h = h
Lively-up (suc k) n t g h = Lively-more (more_by k n) t g (Lively-up k n t g h)

-- The blocks of each part of the grammar.
server_init-Lively : (t : Tap) (s : Notes) → Lively 2 t (await_server_init s)
unfolding Lively await_server_init
server_init-Lively t s = (
  inr (omega arith),
  λ init s1.
      if_both (Lively 1 s2c) (u32_at init 20 == 0) (λ e. tt)
        (λ e. (inl refl, λ name s3. any_fuel 0 s2c s3)),
)

client_init-Lively : (t : Tap) (s : Notes) → Lively 3 t (await_client_init s)
unfolding Lively await_client_init
client_init-Lively t s = (inr (omega arith), λ shared s1. server_init-Lively c2s s1)

result-Lively : (old : Bool) (t : Tap) (s : Notes) → Lively 4 t (await_result old s)
unfolding Lively await_result
result-Lively old t s = (
  inr (omega arith),
  λ result s1.
      if_both (Lively 3 s2c) (not (u32_at result 0 == 0)) (λ e. tt)
        (λ e.
          client_init-Lively s2c (record s1 { recording = some (if old then [] else u32_be 0) })),
)

after_auth-Lively : (v : ℤ × ℤ) (n : ℕ) (t : Tap) (s : Notes) → Lively 4 t (after_auth v n s)
unfolding after_auth
after_auth-Lively v n t s =
    if_both (Lively 4 t) (before v (pos 3, pos 8) && n == 1)
      (λ e. Lively-up 1 3 t _ (client_init-Lively t _)) (λ e. result-Lively _ t _)

ard-Lively :
    (v : ℤ × ℤ) (n m : ℕ) (s : Notes)
    → Lively 8 s2c (
        want s2c m s (λ modulus s2. want s2c m s2 (λ server_key s3.
          want c2s ard_credentials_len s3
            (λ credentials s4. want c2s m s4 (λ client_key s5. after_auth v n s5)))))
unfolding Lively
ard-Lively v n m s = (
  inl refl,
  λ b s2. (
    inl refl,
    λ b s3. (inr (omega arith), λ b s4. (inl refl, λ b s5. after_auth-Lively v n c2s s5)),
  ),
)

abbrev entered : ℕ → Notes → Notes
entered n s = record s { security_type = some n; in_auth = true }

exchange-Lively :
    (p : Bool) (v : ℤ × ℤ) (n : ℕ) (t : Tap) (s : Notes) → Lively 9 t (exchange p v n s)
unfolding Lively exchange
exchange-Lively p v n t s =
    if_both (Lively 9 t) (n == 2)
      (λ e. (
        inr (omega arith),
        λ b s1. (inr (omega arith), λ b s2. Lively-up 3 4 c2s _ (after_auth-Lively v n c2s s2)),
      ))
      (λ e.
        if_both (Lively 9 t) (n == 30)
          (λ e. (inr (omega arith), λ head s1. ard-Lively v n (u16_at head 2) s1))
          (λ e.
            if_both (Lively 9 t) (n == 1)
              (λ e. Lively-up 5 4 t _ (after_auth-Lively v n t (entered n s)))
              (λ e.
                if_both (Lively 9 t) (n == 0)
                  (λ e. Lively-up 5 4 t _ (after_auth-Lively v n t (entered n s))) (λ e. tt))))

offer_type-Lively : (p : Bool) (v : ℤ × ℤ) (t : Tap) (s : Notes) → Lively 10 t (offer_type p v s)
unfolding Lively offer_type
offer_type-Lively p v t s = (
  inr (omega arith),
  λ auth s1.
      if_both (Lively 9 s2c) (u32_at auth 0 == 0) (λ e. tt)
        (λ e.
          exchange-Lively p v (u32_at auth 0) s2c
            (record s1 { recording = some (u32_be 1); security_types = u32_at auth 0 ∷ [] })),
)

offer_types-Lively : (p : Bool) (v : ℤ × ℤ) (t : Tap) (s : Notes) → Lively 12 t (offer_types p v s)
unfolding Lively offer_types choose_type
offer_types-Lively p v t s = (
  inr (omega arith),
  λ count s1.
      if_both (Lively 11 s2c) (byte_at count 0 == 0) (λ e. tt)
        (λ e. (
          inl refl,
          λ types s2. (
            inr (omega arith),
            λ chosen s3.
                exchange-Lively p v (byte_at chosen 0) c2s
                  (record s3 { recording = some (1 ∷ []) }),
          ),
        )),
)

offer-Lively : (p : Bool) (v : ℤ × ℤ) (t : Tap) (s : Notes) → Lively 12 t (offer p v s)
unfolding offer
offer-Lively p v t s =
    if_both (Lively 12 t) (before v (pos 3, pos 7))
      (λ e. Lively-up 2 10 t _ (offer_type-Lively p v t s)) (λ e. offer_types-Lively p v t s)

replied-Lively :
    (p : Bool) (s : Notes) (o : Option (ℤ × ℤ))
    → Lively 12 c2s (elim o [
      | none ↦ stopped (give_up p s)
      | some v ↦ offer p v (record s { negotiated_version = some v })
    ])
replied-Lively p s none = any_fuel 12 c2s _
replied-Lively p s (some v) = offer-Lively p v c2s _

-- The whole handshake takes at most 14 blocks.
pub run-IsRested : (p : Bool) (s : Notes) → IsRested 14 (run p s)
unfolding IsRested Lively run client_reply
run-IsRested p s = (
  omega arith,
  λ head s1. (inr (omega arith), λ reply s2. replied-Lively p s2 (reply_version reply)),
)

not_ready : (b : Bool) (m : ℕ) → b && leb (suc m) 0 ≡ false
not_ready b m = ground arith

-- What a call of `_feed` goes on with when the buffer is empty.
abbrev Halted : ℕ → Step × Bytes × Bytes → Type 0
Halted n w = IsRested n w.0 × (w.1 ≡ [])

halt : (tap : Tap) (n : ℕ) (g : Step) → Lively n tap g → Halted n (watch false tap g [])
unfolding Lively IsRested watch
halt tap n (stopped s) h = (tt, refl)
halt tap zero (want t m s k) h = absurd h
halt tap (suc n) (want t (suc m) s k) (h, f) =
    rw (watch, not_ready (same_tap t tap) m) ((omega arith, f), refl)
halt s2c (suc n) (want s2c zero s k) (h, f) =
    let r =
      halt s2c n (k [] (record s { recording = none })) (f [] (record s { recording = none })) in
    (IsRested-more n _ r.0, r.1)
halt c2s (suc n) (want c2s zero s k) (h, f) =
    let r =
      halt c2s n (k [] (record s { recording = none })) (f [] (record s { recording = none })) in
    (IsRested-more n _ r.0, r.1)
halt s2c (suc n) (want c2s zero s k) (inl e, f) = absurd cc
halt s2c (suc n) (want c2s zero s k) (inr h, f) = absurd (omega arith)
halt c2s (suc n) (want s2c zero s k) (inl e, f) = absurd cc
halt c2s (suc n) (want s2c zero s k) (inr h, f) = absurd (omega arith)

cleaned :
    (tap : Tap) (g : Step) (w : Step × Bytes × Bytes)
    → w.1 ≡ []
    → (after_watch tap (clean g) w).0 ≡ clean w.0
cleaned s2c g w h = elim (Bool-cases (waits s2c w.0)) [ inl e ↦ rw (e, h) | inr e ↦ rw (e) ]
cleaned c2s g w h = elim (Bool-cases (waits c2s w.0)) [ inl e ↦ rw (e, h) | inr e ↦ rw (e) ]

-- A call with exactly the block that the grammar waits for.
module _ (tap : Tap) (m : ℕ) (s : Notes) (k : Bytes → Notes → Step) where
  fed_watch :
      (b : Bytes)
      → length b ≡ m
      → watch false tap (want tap m s k) b ≡ sent_round false tap s k b []
  fed_watch b h =
      watch_ready false tap tap m s k b (whole tap m b h) ∙ rw (take_all m b h, drop_all m b h)

  fed_block :
      (b : Bytes)
      → length b ≡ m
      → 0 < m
      → (watch false tap (k b (sent_notes s)) []).1 ≡ []
      → (feed false tap b (clean (want tap m s k))).0
        ≡ clean (watch false tap (k b (sent_notes s)) []).0
  unfolding feed waits
  fed_block [] h more e = absurd (omega arith)
  fed_block (x ∷ b) h more e =
      rw (same_itself tap, clean_pending tap, fed_watch (x ∷ b) h)
        (cleaned tap (want tap m s k) (sent_round false tap s k (x ∷ b) []) e)

-- It leaves the scrubber at a step that asks for fewer blocks, with nothing held back.
pub fed_rested :
    (n : ℕ) (tap : Tap) (m : ℕ) (s : Notes) (k : Bytes → Notes → Step) (b : Bytes)
    → length b ≡ m
    → IsRested (suc n) (want tap m s k)
    → (h : Step) × IsRested n h × ((feed false tap b (clean (want tap m s k))).0 ≡ clean h)
unfolding IsRested
fed_rested n tap m s k b h (more, f) =
    let r = halt tap n (k b (sent_notes s)) (f b (sent_notes s)) in
    ((watch false tap (k b (sent_notes s)) []).0, r.0, fed_block tap m s k b h more r.1)
