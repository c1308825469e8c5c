-- ===== src/Base/Wire.antt =====
-- Bytes as lists of numbers below 256, and the big-endian fields of Python's `struct`.
use Prim.Native.Nat.{ℕ, ◌+◌, ◌*◌, ◌/◌, ◌%◌, ◌^◌, ◌<◌}
use mathlib.Core.List.{List, [], ◌∷◌}
use awc_remote.Base.Lists.{get_or}

abbrev pub Bytes : Type 0
Bytes = List ℕ

-- The byte at an index that the caller has checked.
abbrev pub byte_at : Bytes → ℕ → ℕ
byte_at b i = get_or b i 0

-- `pack("!H", n)` and `pack("!I", n)`.
abbrev pub u16_be : ℕ → Bytes
u16_be n = n / 256 % 256 ∷ n % 256 ∷ []

abbrev pub u32_be : ℕ → Bytes
u32_be n = n / 2 ^ 24 % 256 ∷ n / 2 ^ 16 % 256 ∷ n / 256 % 256 ∷ n % 256 ∷ []

-- `unpack_from("!H", b, i)` and `unpack_from("!I", b, i)`.
abbrev pub u16_at : Bytes → ℕ → ℕ
u16_at b i = byte_at b i * 256 + byte_at b (i + 1)

abbrev pub u32_at : Bytes → ℕ → ℕ
u32_at b i =
    byte_at b i * 2 ^ 24 + byte_at b (i + 1) * 2 ^ 16 + byte_at b (i + 2) * 256 + byte_at b (i + 3)

abbrev pub IsBytes : Bytes → Type 0
IsBytes [] = Unit
IsBytes (x ∷ xs) = (x < 256) × IsBytes xs
