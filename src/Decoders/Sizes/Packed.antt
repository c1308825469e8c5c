-- ===== src/Decoders/Sizes/Packed.antt =====
-- The pixels of a Tight rectangle's palette, of vncdotool/decoders/tight.py.
use awc_remote.Base.{
  ◌||◌, ℕ, zero, suc, ◌+◌, ◌-◌, ◌*◌, ◌/◌, ◌≡◌, ◌<◌, ◌≤◌, refl, ap, ◌∙◌, Bool, true, false, Bytes,
  List, [], ◌∷◌, ◌++◌, map, length, get_or, drop, slice, count_up, ltb, ◌==◌, has_bit, arith,
  if◌then◌else◌, length-append, length-take, length-drop, if_both, ltb→lt, ==_iff,
}
use mathlib.Core.List.{flat_map}
use awc_remote.Failure.{
  Result, ok, err, Guarantees, Guarantees-if, Guarantees-weaken, returns, raises, decode_error,
  value_error, fold_ok,
}
use awc_remote.RectBuffer.Rows.{mul_step, suc_mul}
use awc_remote.RectBuffer.Bounds.{mul_mono}
use awc_remote.Decoders.Tight.{mono_pixels, mono_rows, merge_bands, unpalette}

length-flat_map :
    (g : ℕ → Bytes) (n : ℕ) (l : List ℕ)
    → ((i : ℕ) → length (g i) ≡ n)
    → length (flat_map g l) ≡ length l * n
unfolding flat_map
length-flat_map g n [] h = omega arith
length-flat_map g n (i ∷ l) h =
    omega (arith, h i, length-append (g i) (flat_map g l), length-flat_map g n l h)

length-mono_pixels :
    (n : ℕ) (a b : Bytes) (byte : ℕ)
    → length a ≡ n
    → length b ≡ n
    → length (mono_pixels a b byte) ≡ 8 * n
unfolding mono_pixels
length-mono_pixels n a b byte h k =
    length-flat_map (λ bit. if has_bit byte (7 - bit) then b else a) n (count_up 0 8)
      (λ i. if_both (λ (c : Bytes). length c ≡ n) (has_bit byte (7 - i)) (λ _. k) (λ _. h))

-- A row of a padded picture lies inside it.
row_inside :
    (row height padded stride len : ℕ)
    → row < height
    → stride ≤ padded
    → height * padded ≤ len
    → row * padded + stride ≤ len
row_inside row height padded stride len h k l = omega (arith, mul_step row height padded h)

length-slice : (xs : Bytes) (start n : ℕ) → start + n ≤ length xs → length (slice xs start n) ≡ n
length-slice xs start n h = omega (arith, length-take n (drop start xs), length-drop start xs)

length-mono_rows :
    (pixels : Bytes) (padded stride start n : ℕ)
    → ((row : ℕ) → row < start + n → row * padded + stride ≤ length pixels)
    → length (mono_rows pixels padded stride (count_up start n)) ≡ n * stride
unfolding mono_rows flat_map
length-mono_rows pixels padded stride start zero h = omega arith
length-mono_rows pixels padded stride start (suc n) h = omega (
  arith,
  length-append (slice pixels (start * padded) stride)
      (mono_rows pixels padded stride (count_up (start + 1) n)),
  length-slice pixels (start * padded) stride (h start (omega arith)),
  length-mono_rows pixels padded stride (start + 1) n (λ row lt. h row (omega arith)),
)

-- The loop that looks up each index in the palette.
module _ (palette : List Bytes) (n : ℕ)
    (entries : (i : ℕ) → i < length palette → length (get_or palette i []) ≡ n) where
  abbrev lookup : Bytes → ℕ → Result Bytes
  lookup out index =
      if ltb index (length palette) then ok (out ++ get_or palette index []) else err decode_error

  found :
      (i : ℕ) (l : List ℕ) (out : Bytes) (b : Bool)
      → ltb i (length palette) ≡ b
      → ((t : Bytes) → Guarantees (λ r. length r ≡ length t + length l * n) (fold_ok lookup t l))
      → Guarantees
          (λ r. length r ≡ length out + suc (length l) * n)
          (elim (if b then ok (out ++ get_or palette i []) else err decode_error) [
            | ok t ↦ fold_ok lookup t l
            | err e ↦ err e
          ])
  found i l out true h next = Guarantees-weaken (next (out ++ get_or palette i [])) (λ r e. omega (
    arith,
    e,
    entries i (ltb→lt i (length palette) h),
    length-append out (get_or palette i []),
    suc_mul (length l) n,
  ))
  found i l out false h next = raises decode_error

  looked_up :
      (l : List ℕ) (out : Bytes)
      → Guarantees (λ r. length r ≡ length out + length l * n) (fold_ok lookup out l)
  looked_up [] out = returns (omega arith)
  looked_up (i ∷ l) out = found i l out (ltb i (length palette)) refl (λ t. looked_up l t)

no_columns : (w r : ℕ) (two : Bool) → r ≡ 0 → r ≡ (if two then (w + 7) / 8 else w) → w ≡ 0
no_columns w r true h k = omega (arith, h, k)
no_columns w r false h k = omega (arith, h, k)

no_area :
    (w h r n : ℕ) (two : Bool) → 0 ≡ h * r → r ≡ (if two then (w + 7) / 8 else w) → 0 ≡ w * h * n
no_area w zero r n two e k = grind arith
no_area w (suc h) r n two e k =
    let no_row : r ≡ 0 = omega (arith, e, suc_mul h r) in
    let no_width : w ≡ 0 = no_columns w r two no_row k in rw no_width (omega arith)

pub area : (w h n : ℕ) → h * (w * n) ≡ w * h * n
area w h n = grind arith

regroup : (h r n : ℕ) → h * r * (8 * n) ≡ h * (r * 8 * n)
regroup h r n = grind arith

same_padded : (w h r n len : ℕ) → len ≡ h * r → r * 8 * n ≡ w * n → len * (8 * n) ≡ w * h * n
same_padded w h r n len e k =
    ap (λ l. l * (8 * n)) e ∙ regroup h r n ∙ ap (λ t. h * t) k ∙ area w h n

wide_rows : (w r n : ℕ) → r ≡ (w + 7) / 8 → w * n ≤ r * 8 * n
wide_rows w r n e = mul_mono w (r * 8) n (omega (arith, e))

other_area : (w h r n len : ℕ) → len ≡ h * r → r ≡ w → len * n ≡ w * h * n
other_area w h r n len e k = rw (e, k) (grind arith)

-- Two colours: eight pixels to a byte, each row cut to the width.
two_colours :
    (indices : List ℕ) (a b : Bytes) (w h r n : ℕ)
    → length indices ≡ h * r
    → r ≡ (w + 7) / 8
    → length a ≡ n
    → length b ≡ n
    → length (
        if r * 8 * length a == w * length a
        then flat_map (mono_pixels a b) indices
        else mono_rows
            (flat_map (mono_pixels a b) indices)
            (r * 8 * length a)
            (w * length a)
            (count_up 0 h))
      ≡ w * h * n
two_colours indices a b w h r n len size ea eb =
    let all : length (flat_map (mono_pixels a b) indices) ≡ length indices * (8 * n) =
      length-flat_map (mono_pixels a b) (8 * n) indices (λ i. length-mono_pixels n a b i ea eb) in
    rw ea (
      if_both (λ (c : Bytes). length c ≡ w * h * n) (r * 8 * n == w * n)
        (λ same. all ∙ same_padded w h r n (length indices) len ((==_iff _ _).0 same))
        (λ _.
          length-mono_rows _ (r * 8 * n) (w * n) 0 h (λ row lt.
            row_inside row h (r * 8 * n) (w * n) _ (omega (arith, lt)) (wide_rows w r n size)
              (omega (arith, all ∙ ap (λ l. l * (8 * n)) len ∙ regroup h r n)))
          ∙ area w h n))

merged-Guarantees :
    {P : Bytes → Type 0} (entry : ℕ) (r : Result Bytes)
    → Guarantees P r
    → Guarantees P (merge_bands entry r)
merged-Guarantees entry (err e) h = raises e
merged-Guarantees {P = P} entry (ok pixels) h =
    Guarantees-if (entry == 1 || entry == 2 || entry == 3 || entry == 4) (λ _. h)
      (λ _. raises value_error)

-- The pixels of a palette rectangle take the bytes that its format says.
pub unpalette-Guarantees :
    (indices : Bytes) (palette : List Bytes) (w h r n : ℕ)
    → length indices ≡ h * r
    → r ≡ (if length palette == 2 then (w + 7) / 8 else w)
    → 0 < length palette
    → ((i : ℕ) → i < length palette → length (get_or palette i []) ≡ n)
    → Guarantees (λ pixels. length pixels ≡ w * h * n) (unpalette indices palette w h r)
unfolding unpalette
unpalette-Guarantees [] palette w h r n len size some_colour entries =
    returns (no_area w h r n (length palette == 2) len size)
unpalette-Guarantees (d ∷ ds) palette w h r n len size some_colour entries =
    Guarantees-if (length palette == 2)
      (λ two. returns (
        two_colours (d ∷ ds) _ _ w h r n len (size ∙ ap (λ t. if t then (w + 7) / 8 else w) two)
          (entries 0 some_colour) (entries 1 (omega (arith, (==_iff _ _).0 two)))))
      (λ many. merged-Guarantees (length (get_or palette 0 [])) _ (
        Guarantees-weaken (looked_up palette n entries (d ∷ ds) []) (λ pixels e. omega (
          arith,
          e,
          other_area w h r n (suc (length ds)) len
              (size ∙ ap (λ t. if t then (w + 7) / 8 else w) many),
        ))))

-- The colours that a block of `k` pixels is cut into.
pub length-colours :
    (raw : Bytes) (n start k : ℕ) → length (map (λ i. slice raw (i * n) n) (count_up start k)) ≡ k
length-colours raw n start zero = refl
length-colours raw n start (suc k) = ap suc (length-colours raw n (start + 1) k)

pub length-colour :
    (raw : Bytes) (n start k i : ℕ)
    → length raw ≡ (start + k) * n
    → i < k
    → length (get_or (map (λ j. slice raw (j * n) n) (count_up start k)) i []) ≡ n
length-colour raw n start zero i len h = absurd (omega arith)
length-colour raw n start (suc k) zero len h =
    length-slice raw (start * n) n
      (omega (arith, len, mul_mono (start + 1) (start + suc k) n (omega arith)))
length-colour raw n start (suc k) (suc i) len h =
    length-colour raw n (start + 1) k i (omega (arith, len)) (omega arith)
