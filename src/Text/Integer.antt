-- ===== src/Text/Integer.antt =====
-- `int(bytes)`: a decimal integer in ASCII, as Python reads it.
use awc_remote.Base.{
  ℕ, zero, suc, ◌+◌, ◌-◌, ◌*◌, Bool, true, false, ◌&&◌, ◌||◌, Bytes, Option, none, some, [], ◌∷◌,
  leb, ◌==◌, if◌then◌else◌,
}
use mathlib.Core.List.{reverse}
use awc_remote.Base.Int.{ℤ, pos, negsuc}

-- The whitespace of `bytes.strip`.
abbrev pub is_space : ℕ → Bool
is_space c = leb 9 c && leb c 13 || c == 32

abbrev pub is_digit : ℕ → Bool
is_digit c = leb 48 c && leb c 57

unfoldable pub skip_spaces : Bytes → Bytes
skip_spaces [] = []
skip_spaces (c ∷ cs) = if is_space c then skip_spaces cs else c ∷ cs

-- The digits after `acc`; an underscore may stand between two of them.
unfoldable pub digits_from : ℕ → Bool → Bytes → Option ℕ
digits_from acc after [] = if after then some acc else none
digits_from acc after (c ∷ cs) =
    let digit = digits_from (acc * 10 + (c - 48)) true cs in
    let underscore = digits_from acc false cs in
    if is_digit c then digit else if c == 95 && after then underscore else none

abbrev pub negative : ℕ → ℤ
negative zero = pos zero
negative (suc n) = negsuc n

abbrev pub with_sign : (ℕ → ℤ) → Option ℕ → Option ℤ
with_sign f none = none
with_sign f (some n) = some (f n)

unfoldable pub signed : Bytes → Option ℤ
unfolding digits_from
signed [] = none
signed (c ∷ cs) =
    if c == 43
    then with_sign pos (digits_from 0 false cs)
    else if c == 45
    then with_sign negative (digits_from 0 false cs)
    else with_sign pos (digits_from 0 false (c ∷ cs))

-- `none` is the ValueError.
unfoldable pub int_of : Bytes → Option ℤ
unfolding skip_spaces signed
int_of b = signed (reverse (skip_spaces (reverse (skip_spaces b))))
