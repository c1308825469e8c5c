-- ===== src/Connection/Handshake/Lines.antt =====
-- The version line, "RFB 003.008" and the like, of vncdotool/rfb.py.
use awc_remote.Base.{
  ◌↔◌, ap, suc, drop, &&_both, ℕ, ◌+◌, ◌-◌, ◌*◌, ◌/◌, ◌%◌, ◌<◌, ◌≡◌, refl, Bool, true, false, ◌&&◌,
  Bytes, [], ◌∷◌, ◌++◌, length, ltb, ◌∙◌, ◌||◌, ◌==◌, arith,
}
use awc_remote.Connection.Handshake.{norm_byte, header, begins_header, three_digits, version_line}

three_digits-show_three :
    (n : ℕ)
    → n < 1000
    → (48 + n / 100 % 10 - 48) * 100 + (48 + n / 10 % 10 - 48) * 10 + (48 + n % 10 - 48) ≡ n
three_digits-show_three n h = omega arith

digit : (n : ℕ) (rest : Bool) → rest ≡ true → norm_byte (48 + n % 10) == 48 && rest ≡ true
digit n rest h = ground arith

-- The line that the client writes for a version is a header that `_handleInitial` accepts, and
-- its digits read as that version, for numbers below 1000.
pub version_line-three_digits :
    (major minor : ℕ)
    → major < 1000
    → minor < 1000
    → (begins_header (version_line (major, minor)) header ≡ true)
      × (three_digits (version_line (major, minor)) 4 ≡ major)
      × (three_digits (version_line (major, minor)) 8 ≡ minor)
unfolding begins_header
version_line-three_digits major minor h k = (
  digit (major / 100) _ (
      digit (major / 10) _
        (digit major _ (digit (minor / 100) _ (digit (minor / 10) _ (digit minor true refl))))),
  three_digits-show_three major h,
  three_digits-show_three minor k,
)

&&_intro : (a b : Bool) → a ≡ true → b ≡ true → a && b ≡ true
&&_intro true b h k = k
&&_intro false b h k = cc

begun :
    (bytes more pattern : Bytes)
    → begins_header (bytes ++ more) pattern ≡ true
    → begins_header bytes pattern ≡ true
unfolding begins_header
begun [] more pattern h = refl
begun (b ∷ bs) more [] h = cc
begun (b ∷ bs) more (p ∷ ps) h =
    let both = &&_both _ _ h in &&_intro _ _ both.0 (begun bs more ps both.1)

completed :
    (bytes pattern : Bytes)
    → begins_header pattern pattern ≡ true
    → begins_header bytes pattern ≡ true
    → (length (bytes ++ drop (length bytes) pattern) ≡ length pattern)
      × (begins_header (bytes ++ drop (length bytes) pattern) pattern ≡ true)
unfolding begins_header
completed [] [] f h = (refl, refl)
completed [] (p ∷ ps) f h = (refl, f)
completed (b ∷ bs) [] f h = cc
completed (b ∷ bs) (p ∷ ps) f h =
    let rest = completed bs ps (&&_both _ _ f).1 (&&_both _ _ h).1 in
    (ap suc rest.0, &&_intro _ _ (&&_both _ _ h).0 rest.1)

abbrev pub Digits : Type 0
Digits = ℕ × ℕ × ℕ

abbrev pub AreDigits : Digits → Type 0
AreDigits (a, b, c) = (a < 10) × (b < 10) × (c < 10)

-- "RFB ", three digits, a point, three digits and a line's end.
abbrev pub line_of : Digits → Digits → Bytes
line_of (a, b, c) (d, e, f) =
    82
    ∷ 70
    ∷ 66
    ∷ 32
    ∷ (48 + a)
    ∷ (48 + b)
    ∷ (48 + c)
    ∷ 46
    ∷ (48 + d)
    ∷ (48 + e)
    ∷ (48 + f)
    ∷ 10
    ∷ []

-- The first byte of what passes for the start of a header.
next_byte :
    (l : Bytes) (p n : ℕ) (ps : Bytes)
    → begins_header l (p ∷ ps) ≡ true
    → length l ≡ suc n
    → (b : ℕ) × (rest : Bytes) × (l ≡ b ∷ rest)
      × (norm_byte b == p ≡ true)
      × (begins_header rest ps ≡ true)
      × (length rest ≡ n)
unfolding begins_header
next_byte [] p n ps h len = absurd (omega arith)
next_byte (b ∷ bs) p n ps h len =
    let both = &&_both _ _ h in (b, bs, refl, both.0, both.1, omega arith)

a_digit : (b : ℕ) → norm_byte b == 48 ≡ true → (d : ℕ) × (d < 10) × (b ≡ 48 + d)
a_digit b h = (b - 48, ground arith, ground arith)

a_letter : (b p : ℕ) → ltb 57 p || ltb p 48 ≡ true → norm_byte b == p ≡ true → b ≡ p
a_letter b p k h = ground arith

next_letter :
    (l : Bytes) (p n : ℕ) (ps : Bytes)
    → ltb 57 p || ltb p 48 ≡ true
    → begins_header l (p ∷ ps) ≡ true
    → length l ≡ suc n
    → (rest : Bytes) × (l ≡ p ∷ rest) × (begins_header rest ps ≡ true) × (length rest ≡ n)
next_letter l p n ps k h len =
    let t = next_byte l p n ps h len in
    (t.1, t.2 ∙ ap (λ (b : ℕ). b ∷ t.1) (a_letter t.0 p k t.3), t.4, t.5)

next_digit :
    (l : Bytes) (n : ℕ) (ps : Bytes)
    → begins_header l (48 ∷ ps) ≡ true
    → length l ≡ suc n
    → (d : ℕ) × (rest : Bytes) × (d < 10)
      × (l ≡ (48 + d) ∷ rest)
      × (begins_header rest ps ≡ true)
      × (length rest ≡ n)
next_digit l n ps h len =
    let t = next_byte l 48 n ps h len in
    let d = a_digit t.0 t.3 in (d.0, t.1, d.1, t.2 ∙ ap (λ (b : ℕ). b ∷ t.1) d.2, t.4, t.5)

in_turn :
    {l m n rest : Bytes} {a b c : ℕ} → l ≡ a ∷ m → m ≡ b ∷ n → n ≡ c ∷ rest → l ≡ a ∷ b ∷ c ∷ rest
in_turn {a = a} {b = b} e f g = e ∙ ap (λ (x : Bytes). a ∷ x) (f ∙ ap (λ (x : Bytes). b ∷ x) g)

next_digits :
    (l ps : Bytes) (n : ℕ)
    → begins_header l (48 ∷ 48 ∷ 48 ∷ ps) ≡ true
    → length l ≡ suc (suc (suc n))
    → (d : Digits) × (rest : Bytes) × AreDigits d
      × (l ≡ (48 + d.0) ∷ (48 + d.1) ∷ (48 + d.2) ∷ rest)
      × (begins_header rest ps ≡ true)
      × (length rest ≡ n)
next_digits l ps n h len =
    let a = next_digit l _ _ h len in
    let b = next_digit a.1 _ _ a.4 a.5 in
    let c = next_digit b.1 _ _ b.4 b.5 in
    ((a.0, b.0, c.0), c.1, (a.2, b.2, c.2), in_turn a.3 b.3 c.3, c.4, c.5)

no_byte_left : (l : Bytes) → length l ≡ 0 → l ≡ []
no_byte_left [] h = refl
no_byte_left (b ∷ bs) h = absurd (omega arith)

glued :
    {l m n o p q r s t : Bytes} (d e : Digits)
    → l ≡ 82 ∷ m
    → m ≡ 70 ∷ n
    → n ≡ 66 ∷ o
    → o ≡ 32 ∷ p
    → p ≡ (48 + d.0) ∷ (48 + d.1) ∷ (48 + d.2) ∷ q
    → q ≡ 46 ∷ r
    → r ≡ (48 + e.0) ∷ (48 + e.1) ∷ (48 + e.2) ∷ s
    → s ≡ 10 ∷ t
    → t ≡ []
    → l ≡ line_of d e
glued x y a b c d e f g h i = rw (a, b, c, d, e, f, g, h, i)

-- A whole line that passes for a header is spelled so.
spelled :
    (l : Bytes)
    → begins_header l header ≡ true
    → length l ≡ 12
    → (d : Digits) × (e : Digits) × AreDigits d × AreDigits e × (l ≡ line_of d e)
spelled l h len =
    let r = next_letter l 82 11 _ refl h len in
    let f = next_letter r.0 70 10 _ refl r.2 r.3 in
    let b = next_letter f.0 66 9 _ refl f.2 f.3 in
    let s = next_letter b.0 32 8 _ refl b.2 b.3 in
    let d = next_digits s.0 _ 5 s.2 s.3 in
    let p = next_letter d.1 46 4 _ refl d.4 d.5 in
    let e = next_digits p.0 _ 1 p.2 p.3 in
    let x = next_letter e.1 10 0 _ refl e.4 e.5 in
    (d.0, e.0, d.2, e.2, glued d.0 e.0 r.1 f.1 b.1 s.1 d.3 p.1 e.3 x.1 (no_byte_left x.0 x.3))

digit_more : (a : ℕ) (rest : Bool) → a < 10 → rest ≡ true → norm_byte (48 + a) == 48 && rest ≡ true
digit_more a rest h k = ground arith

spelled_begins :
    (d e : Digits) → AreDigits d → AreDigits e → begins_header (line_of d e) header ≡ true
unfolding begins_header
spelled_begins (a, b, c) (d, e, f) (i, j, k) (l, m, n) = digit_more a _ i (
    digit_more b _ j
      (digit_more c _ k (digit_more d _ l (digit_more e _ m (digit_more f true n refl)))))

-- The bytes that have arrived pass for the start of a header exactly if some further bytes make them a line of `RFB `, three digits, a
-- point, three digits and a line's end. So the client neither waits for a line that no server can finish nor refuses
-- one that can be finished.
pub begins_header-completion :
    (bytes : Bytes)
    → (begins_header bytes header ≡ true) ↔ (
        (more : Bytes) × (d : Digits) × (e : Digits) × AreDigits d
        × AreDigits e
        × (bytes ++ more ≡ line_of d e))
unfolding begins_header
begins_header-completion bytes = (
  λ h.
      let done = completed bytes header refl h in
      let more = drop (length bytes) header in
      let line = spelled (bytes ++ more) done.1 done.0 in
      (more, line.0, line.1, line.2, line.3, line.4),
  λ (more, d, e, i, j, eq).
      begun bytes more header
        (ap (λ (l : Bytes). begins_header l header) eq ∙ spelled_begins d e i j),
)
