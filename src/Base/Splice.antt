-- ===== src/Base/Splice.antt =====
-- Python's slice assignment `buf[at:at + len(xs)] = xs`, with the bytes read back.
use Prim.Native.Nat.{ℕ, ◌+◌, ◌-◌, ◌≤◌}
use mathlib.Core.Path.{◌≡◌}
use mathlib.Core.Bool.{◌&&◌}
use mathlib.Core.List.{List, ◌++◌}
use native.Mathlib.Omega.{arith}
use awc_remote.Base.Tests.{ltb, leb, if◌then◌else◌}
use awc_remote.Base.Lists.{
  length, get_or, take, drop, length-append, length-take, length-drop, get_or-append, get_or-take,
  get_or-drop,
}

index_past : (at n i : ℕ) → at + n ≤ i → at + n + (i - at - n) ≡ i
index_past at n i h = omega arith

module _ {A : Type 0} where
  unfoldable pub splice : ℕ → List A → List A → List A
  splice at xs buf = take at buf ++ (xs ++ drop (at + length xs) buf)

  pub length-splice :
      (at : ℕ) (xs buf : List A)
      → at + length xs ≤ length buf
      → length (splice at xs buf) ≡ length buf
  unfolding splice
  length-splice at xs buf h = omega (
    arith,
    length-append (take at buf) (xs ++ drop (at + length xs) buf),
    length-append xs (drop (at + length xs) buf),
    length-take at buf,
    length-drop (at + length xs) buf,
  )

  pub get_or-splice :
      (at : ℕ) (xs buf : List A) (i : ℕ) (d : A)
      → at + length xs ≤ length buf
      → get_or (splice at xs buf) i d
        ≡ (if leb at i && ltb i (at + length xs) then get_or xs (i - at) d else get_or buf i d)
  unfolding splice
  get_or-splice at xs buf i d h = ground (
    arith,
    length-take at buf,
    get_or-append (take at buf) (xs ++ drop (at + length xs) buf) i d,
    get_or-append xs (drop (at + length xs) buf) (i - at) d,
    get_or-take at buf i d,
    get_or-drop (at + length xs) buf (i - at - length xs) d,
    index_past at (length xs) i,
  )
