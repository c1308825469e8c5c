-- ===== src/Text.antt =====
-- Texts as code points: `str.encode`, and the DES key that a VNC password gives (vncdotool/rfb.py).
pub mod Reversal
pub mod Integer
use awc_remote.Base.{
  ℕ, zero, suc, ◌+◌, ◌-◌, ◌*◌, ◌/◌, ◌%◌, ◌^◌, Bool, Bytes, Option, none, some, List, [], ◌∷◌, ◌++◌,
  map, length, take, replicate, count_up, ltb, leb, has_bit, if◌then◌else◌,
}
use mathlib.Core.List.{flat_map, foldr}
use awc_remote.Failure.{Result, ok, err, value_error, ◌>>>=◌}
use awc_remote.Client.{Library}

abbrev pub Codes : Type 0
Codes = List ℕ

-- `str.encode("utf-8")` of one code point.
abbrev pub utf8_code : ℕ → Bytes
utf8_code c =
    if ltb c 128
    then c ∷ []
    else if ltb c 2048
    then (192 + c / 64) ∷ (128 + c % 64) ∷ []
    else if ltb c 65536
    then (224 + c / 4096) ∷ (128 + c / 64 % 64) ∷ (128 + c % 64) ∷ []
    else (240 + c / 2 ^ 18) ∷ (128 + c / 4096 % 64) ∷ (128 + c / 64 % 64) ∷ (128 + c % 64) ∷ []

unfoldable pub utf8 : Codes → Bytes
utf8 text = flat_map utf8_code text

-- `str.encode("ASCII")`, whose error is a `ValueError`.
unfoldable pub ascii : Codes → Result Bytes
ascii [] = ok []
ascii (c ∷ cs) = ascii cs >>>= λ b. if ltb c 128 then ok (c ∷ b) else err value_error

abbrev pub sum : List ℕ → ℕ
sum xs = foldr (λ (x y : ℕ). x + y) 0 xs

-- One byte of `reverse_bits`.
unfoldable pub reverse_byte : ℕ → ℕ
reverse_byte k = sum (map (λ i. if has_bit k i then 128 / 2 ^ i else 0) (count_up 0 8))

unfoldable pub reverse_bits : Bytes → Bytes
unfolding reverse_byte
reverse_bits bytes = map reverse_byte bytes

-- `f"{password:\0<8.8}"`: cut or padded with NULs to 8 characters.
unfoldable pub eight_chars : Codes → Codes
eight_chars password = take 8 password ++ replicate (8 - length (take 8 password)) 0

-- `_vnc_des`
unfoldable pub vnc_des : Codes → Result Bytes
unfolding eight_chars ascii reverse_bits
vnc_des password = ascii (eight_chars password) >>>= λ key. ok (reverse_bits key)

-- `des_encrypt`: single DES as Triple-DES with the key three times.
unfoldable pub des_encrypt : Library → Bytes → Bytes → Bytes
des_encrypt lib key block = lib.triple_des (key ++ (key ++ key)) block
