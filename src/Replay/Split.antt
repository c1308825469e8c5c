-- ===== src/Replay/Split.antt =====
-- `saw_update_request` of vncdotool/replay.py on a client's bytes that come in parts.
use awc_remote.Base.{
  ℕ, zero, suc, ◌+◌, ◌*◌, ◌<◌, ◌≤◌, ◌≡◌, ◌≢◌, ◌⊎◌, refl, sym, ap, ◌∙◌, Bool, true, false, Bytes,
  Option, some, [], ◌∷◌, ◌++◌, length, length-append, drop, drop-append_le, get_or-append, byte_at,
  u16_at, u32_at, ltb, ◌==◌, if◌then◌else◌, arith, Bool-cases, inl, inr,
}
use awc_remote.Replay.Holding.{rounds_more, searched}
use awc_remote.Replay.{
  Measure, measured, unknown_message, need_more, client_message_length, saw_update_request,
}

byte_append : (b ys : Bytes) (i : ℕ) → i < length b → byte_at (b ++ ys) i ≡ byte_at b i
byte_append b ys i h = ground (arith, get_or-append b ys i 0)

u16_append : (b ys : Bytes) (i : ℕ) → i + 1 < length b → u16_at (b ++ ys) i ≡ u16_at b i
u16_append b ys i h =
    let p : byte_at (b ++ ys) i ≡ byte_at b i = byte_append b ys i (omega arith) in
    let q : byte_at (b ++ ys) (i + 1) ≡ byte_at b (i + 1) = byte_append b ys (i + 1) h in rw (p, q)

u32_append : (b ys : Bytes) (i : ℕ) → i + 3 < length b → u32_at (b ++ ys) i ≡ u32_at b i
u32_append b ys i h =
    let p : byte_at (b ++ ys) i ≡ byte_at b i = byte_append b ys i (omega arith) in
    let q : byte_at (b ++ ys) (i + 1) ≡ byte_at b (i + 1) =
      byte_append b ys (i + 1) (omega arith) in
    let r : byte_at (b ++ ys) (i + 2) ≡ byte_at b (i + 2) =
      byte_append b ys (i + 2) (omega arith) in
    let t : byte_at (b ++ ys) (i + 3) ≡ byte_at b (i + 3) = byte_append b ys (i + 3) h in
    rw (p, q, r, t)

-- A measure that more bytes do not change, once it is there.
unfoldable pub Stable : Measure → Measure → Type 0
Stable m m' = m ≢ need_more → m' ≡ m

if-Stable :
    (c : Bool) (u u' v v' : Measure)
    → Stable u u'
    → Stable v v'
    → Stable (if c then u else v) (if c then u' else v')
if-Stable true u u' v v' f g = f
if-Stable false u u' v v' f g = g

equal-Stable : (m n : ℕ) → n ≡ m → Stable (measured m) (measured n)
unfolding Stable
equal-Stable m n e h = ap measured e

same-Stable : (m : Measure) → Stable m m
unfolding Stable
same-Stable m h = refl

pub longer : (b ys : Bytes) (n : ℕ) → ltb (length b) n ≡ false → ltb (length (b ++ ys)) n ≡ false
longer b ys n h = ground (arith, length-append b ys)

-- A field that is read once the bytes reach so far.
reached-Stable :
    (b ys : Bytes) (n : ℕ) (u u' : Measure)
    → (ltb (length b) n ≡ false → Stable u u')
    → Stable
        (if ltb (length b) n then need_more else u)
        (if ltb (length (b ++ ys)) n then need_more else u')
unfolding Stable
reached-Stable b ys n u u' f = elim (Bool-cases (ltb (length b) n)) [
  | inl e ↦ rw (e) (λ h. absurd (h refl))
  | inr e ↦ rw (e, longer b ys n e) (f e)
]

pub reached : (b : Bytes) (n : ℕ) → ltb (length b) n ≡ false → n ≤ length b
reached b n h = ground arith

kind_of_qemu :
    (b ys : Bytes)
    → 2 ≤ length b
    → Stable
        (if byte_at b 1 == 0 then measured 12 else unknown_message)
        (if byte_at (b ++ ys) 1 == 0 then measured 12 else unknown_message)
kind_of_qemu b ys h =
    let e : byte_at (b ++ ys) 1 ≡ byte_at b 1 = byte_append b ys 1 (omega arith) in
    rw (e) (same-Stable (if byte_at b 1 == 0 then measured 12 else unknown_message))

pub measure-append :
    (x : ℕ) (b ys : Bytes)
    → Stable (client_message_length (x ∷ b)) (client_message_length (x ∷ (b ++ ys)))
unfolding client_message_length
measure-append x b ys =
    let encodings = λ (e : ltb (length (x ∷ b)) 4 ≡ false).
      equal-Stable _ _ (
        ap (λ (n : ℕ). 4 + 4 * n) (u16_append (x ∷ b) ys 2 (omega (arith, reached (x ∷ b) 4 e)))) in
    let cut_text = λ (e : ltb (length (x ∷ b)) 8 ≡ false).
      equal-Stable _ _
        (ap (λ (n : ℕ). 8 + n) (u32_append (x ∷ b) ys 4 (omega (arith, reached (x ∷ b) 8 e)))) in
    let qemu =
      λ (e : ltb (length (x ∷ b)) 2 ≡ false). kind_of_qemu (x ∷ b) ys (reached (x ∷ b) 2 e) in
    if-Stable (x == 0) _ _ _ _ (same-Stable _) (
      if-Stable (x == 2) _ _ _ _ (reached-Stable (x ∷ b) ys 4 _ _ encodings) (
        if-Stable (x == 3) _ _ _ _ (same-Stable _) (
          if-Stable (x == 4) _ _ _ _ (same-Stable _) (
            if-Stable (x == 5) _ _ _ _ (same-Stable _) (
              if-Stable (x == 6) _ _ _ _ (reached-Stable (x ∷ b) ys 8 _ _ cut_text) (
                if-Stable (x == 255) _ _ _ _ (reached-Stable (x ∷ b) ys 2 _ _ qemu)
                  (same-Stable _)))))))

-- A search that finds nothing stops with the bytes at the last message, or goes on behind it.
stops_or_goes_on :
    (short asked : Bool) (u v rest : Bytes) (o : Option (Bool × Bytes))
    → (if short then some (false, u) else if asked then some (true, v) else o) ≡ some (false, rest)
    → (rest ≡ u) ⊎ ((short ≡ false) × (asked ≡ false) × (o ≡ some (false, rest)))
stops_or_goes_on true asked u v rest o h = inl cc
stops_or_goes_on false true u v rest o h = absurd cc
stops_or_goes_on false false u v rest o h = inr (refl, refl, h)

pub round_on :
    (fuel x : ℕ) (b : Bytes) (l : ℕ)
    → client_message_length (x ∷ b) ≡ measured l
    → ltb (length (x ∷ b)) l ≡ false
    → x == 3 ≡ false
    → saw_update_request (suc fuel) (x ∷ b) ≡ saw_update_request fuel (drop l (x ∷ b))
unfolding saw_update_request
round_on fuel x b l e s t = rw (saw_update_request, e, s, t)

-- More rounds, on the bytes that a stopped search has left.
stopped_at :
    (n k : ℕ) (u rest ys : Bytes) (r : Bool × Bytes)
    → rest ≡ u
    → saw_update_request k (rest ++ ys) ≡ some r
    → saw_update_request (n + k) (u ++ ys) ≡ some r
stopped_at n k u rest ys r e h =
    rounds_more n k (u ++ ys) r (ap (λ (c : Bytes). saw_update_request k (c ++ ys)) (sym e) ∙ h)

stopped_short :
    (n k : ℕ) (u rest ys : Bytes) (r : Bool × Bytes)
    → rest ≡ u
    → saw_update_request k (rest ++ ys) ≡ some r
    → saw_update_request (suc (n + k)) (u ++ ys) ≡ some r
stopped_short n k u rest ys r e h =
    let s : suc (n + k) ≡ suc n + k = omega arith in
    ap (λ (j : ℕ). saw_update_request j (u ++ ys)) s ∙ stopped_at (suc n) k u rest ys r e h

left_over :
    {u rest : Bytes}
    → ◌≡◌ {A = Option (Bool × Bytes)} (some (false, u)) (some (false, rest))
    → rest ≡ u
left_over h = cc

module _ (n k x : ℕ) (b ys rest : Bytes) (r : Bool × Bytes)
    (more : saw_update_request k (rest ++ ys) ≡ some r)
    (on_rest : (l : ℕ)
      → saw_update_request n (drop l (x ∷ b)) ≡ some (false, rest)
      → saw_update_request (n + k) (drop l (x ∷ b) ++ ys) ≡ some r) where
  gone_on :
      (l : ℕ)
      → client_message_length (x ∷ b) ≡ measured l
      → ltb (length (x ∷ b)) l ≡ false
      → x == 3 ≡ false
      → saw_update_request n (drop l (x ∷ b)) ≡ some (false, rest)
      → saw_update_request (suc (n + k)) (x ∷ (b ++ ys)) ≡ some r
  unfolding Stable
  gone_on l e s t h =
      round_on (n + k) x (b ++ ys) l (measure-append x b ys (λ z. absurd cc) ∙ e)
        (longer (x ∷ b) ys l s) t
      ∙ ap (saw_update_request (n + k)) (drop-append_le l (x ∷ b) ys (reached (x ∷ b) l s))
      ∙ on_rest l h

  next_split :
      (m : Measure)
      → client_message_length (x ∷ b) ≡ m
      → searched (λ l. saw_update_request n (drop l (x ∷ b))) x b m ≡ some (false, rest)
      → saw_update_request (suc (n + k)) (x ∷ (b ++ ys)) ≡ some r
  next_split unknown_message e h = absurd cc
  next_split need_more e h = stopped_short n k (x ∷ b) rest ys r (left_over h) more
  next_split (measured l) e h =
      elim (stops_or_goes_on (ltb (length (x ∷ b)) l) (x == 3) _ _ rest _ h) [
        | inl s ↦ stopped_short n k (x ∷ b) rest ys r s more
        | inr g ↦ gone_on l e g.0 g.1 g.2
      ]

-- What a search leaves that finds no request is where it goes on when more bytes have come: the search over all the bytes at once
-- comes to what the search over the bytes that were left, and those that came, does.
pub saw_update_request-append :
    (n k : ℕ) (b ys rest : Bytes) (r : Bool × Bytes)
    → saw_update_request n b ≡ some (false, rest)
    → saw_update_request k (rest ++ ys) ≡ some r
    → saw_update_request (n + k) (b ++ ys) ≡ some r
unfolding saw_update_request
saw_update_request-append n k [] ys rest r h more = stopped_at n k [] rest ys r (left_over h) more
saw_update_request-append zero k (x ∷ b) ys rest r h more = absurd cc
saw_update_request-append (suc n) k (x ∷ b) ys rest r h more =
    let e : suc n + k ≡ suc (n + k) = omega arith in
    ap (λ (j : ℕ). saw_update_request j (x ∷ (b ++ ys))) e
    ∙ next_split n k x b ys rest r more
        (λ l g. saw_update_request-append n k (drop l (x ∷ b)) ys rest r g more)
        (client_message_length (x ∷ b)) refl h
