-- ===== src/Text/Reversal.antt =====
-- `reverse_bits` and `_vnc_des` of vncdotool/rfb.py.
use awc_remote.Base.{
  ℕ, sym, map, get_or, count_up, ◌+◌, zero, suc, ◌-◌, ◌<◌, ◌≡◌, refl, ap, ◌∙◌, Bytes, [], ◌∷◌,
  length, take, replicate, length-append, length-take, length-replicate, IsBytes, arith, ltb,
}
use awc_remote.Failure.{
  ok, Guarantees, returns, raises, Guarantees-ok, Guarantees-if, Guarantees-bind, value_error,
}
use awc_remote.Text.{Codes, reverse_byte, reverse_bits, ascii, eight_chars, vnc_des}

-- An entry of a table of a function.
entry :
    (f : ℕ → ℕ) (start n i k : ℕ)
    → i < n
    → k ≡ start + i
    → get_or (map f (count_up start n)) i 0 ≡ f k
entry f start zero i k h e = absurd (omega arith)
entry f start (suc n) zero k h e = ap f (omega (arith, e))
entry f start (suc n) (suc i) k h e = entry f (start + 1) n i k (omega arith) (omega (arith, e))

reversed_bytes :
    map (λ x. reverse_byte (reverse_byte x)) (count_up 0 256) ≡ map (λ x. x) (count_up 0 256)
unfolding reverse_byte
reversed_bytes = refl

reverse_byte_twice : (x : ℕ) → x < 256 → reverse_byte (reverse_byte x) ≡ x
reverse_byte_twice x h =
    sym (entry (λ y. reverse_byte (reverse_byte y)) 0 256 x x h (omega arith))
    ∙ ap (λ l. get_or l x 0) reversed_bytes
    ∙ entry (λ y. y) 0 256 x x h (omega arith)

-- Reversing the bits of each byte twice gives the bytes back.
pub reverse_bits-reverse_bits : (b : Bytes) → IsBytes b → reverse_bits (reverse_bits b) ≡ b
unfolding reverse_bits
reverse_bits-reverse_bits [] h = refl
reverse_bits-reverse_bits (x ∷ xs) (hx, hxs) =
    cc (reverse_byte_twice x hx, reverse_bits-reverse_bits xs hxs)

length-reverse_bits : (b : Bytes) → length (reverse_bits b) ≡ length b
unfolding reverse_bits
length-reverse_bits [] = refl
length-reverse_bits (x ∷ xs) = ap suc (length-reverse_bits xs)

ascii-Guarantees : (cs : Codes) → Guarantees (λ b. length b ≡ length cs) (ascii cs)
unfolding ascii
ascii-Guarantees [] = returns refl
ascii-Guarantees (c ∷ cs) =
    Guarantees-bind (ascii-Guarantees cs)
      (λ b e. Guarantees-if (ltb c 128) (λ _. returns (ap suc e)) (λ _. raises value_error))

length-eight_chars : (password : Codes) → length (eight_chars password) ≡ 8
unfolding eight_chars
length-eight_chars password = omega (
  arith,
  length-append (take 8 password) (replicate (8 - length (take 8 password)) zero),
  length-take 8 password,
  length-replicate (8 - length (take 8 password)) zero,
)

-- Every password that is accepted gives a key of eight bytes.
pub length-vnc_des : (password : Codes) {key : Bytes} → vnc_des password ≡ ok key → length key ≡ 8
unfolding vnc_des
length-vnc_des password e =
    Guarantees-ok {P = λ key. length key ≡ 8}
      (Guarantees-bind (ascii-Guarantees (eight_chars password))
        (λ b h. returns (length-reverse_bits b ∙ h ∙ length-eight_chars password)))
      e
