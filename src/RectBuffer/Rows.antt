-- ===== src/RectBuffer/Rows.antt =====
-- The loops of `blit` and `fill`, byte by byte: the byte at column `c` of row `p` of a buffer
-- whose rows are `s` bytes long stands at `p * s + c`.
use awc_remote.Base.{
  ℕ, zero, suc, ◌+◌, ◌-◌, ◌*◌, ◌≤◌, ◌<◌, ◌≡◌, refl, Bool, ◌&&◌, Bytes, length, take, drop, repeat,
  splice, length-splice, get_or-splice, get_or, get_or-take, get_or-drop, length-take, length-drop,
  take-append_left, drop-append_left, ltb, leb, ◌==◌, if◌then◌else◌, arith, ap, sym, ◌∙◌,
}
use awc_remote.RectBuffer.{blit_rows, fill_rows}

pub mul_step : (a b s : ℕ) → a < b → a * s + s ≤ b * s
mul_step a b s h = grind arith

pub suc_mul : (a s : ℕ) → suc a * s ≡ a * s + s
suc_mul a s = omega arith

-- A span of one row is hit in that row only.
row_hit :
    (y p s xo n c : ℕ)
    → c < s
    → xo + n ≤ s
    → (leb (y * s + xo) (p * s + c) && ltb (p * s + c) (y * s + xo + n))
      ≡ (p == y && (leb xo c && ltb c (xo + n)))
row_hit y p s xo n c hc hn = ground (arith, mul_step p y s, mul_step y p s)

same_row : (y p s xo c : ℕ) → p ≡ y → p * s + c - (y * s + xo) ≡ c - xo
same_row y p s xo c h = rw h (omega arith)

next_index : (y p n k : ℕ) → y < p → n + ((p - (y + 1)) * n + k) ≡ (p - y) * n + k
next_index y p n k h =
    let e : p - y ≡ suc (p - (y + 1)) = omega arith in rw e (omega (arith, suc_mul (p - (y + 1)) n))

same_index : (y p n k : ℕ) → p ≡ y → (p - y) * n + k ≡ k
same_index y p n k h = let e : p - y ≡ 0 = omega arith in rw e (omega arith)

next_end : (y rows s : ℕ) → (y + 1 + rows) * s ≡ (y + suc rows) * s
next_end y rows s = ap (λ (k : ℕ). k * s) (omega arith)

-- One row written into the buffer.
splice_row :
    (y p s xo n c : ℕ) (row buf : Bytes)
    → length row ≡ n
    → c < s
    → xo + n ≤ s
    → suc y * s ≤ length buf
    → get_or (splice (y * s + xo) row buf) (p * s + c) 0 ≡ (
        if p == y && (leb xo c && ltb c (xo + n))
        then get_or row (c - xo) 0
        else get_or buf (p * s + c) 0)
splice_row y p s xo n c row buf len hc hn fits =
    rw (get_or-splice (y * s + xo) row buf (p * s + c) 0 (omega (arith, suc_mul y s)))
      (rw (len, row_hit y p s xo n c hc hn) (ground (arith, same_row y p s xo c)))

abbrev pub inside : ℕ → ℕ → ℕ → ℕ → ℕ → ℕ → Bool
inside rows y xo n p c = (leb y p && ltb p (y + rows)) && (leb xo c && ltb c (xo + n))

-- The first row or the rows after it.
first_or_rest :
    (rows y xo n p c res mid in_row in_rest old spec : ℕ)
    → res ≡ (if inside rows (y + 1) xo n p c then in_rest else mid)
    → mid ≡ (if p == y && (leb xo c && ltb c (xo + n)) then in_row else old)
    → (p ≡ y → c < xo + n → xo ≤ c → in_row ≡ spec)
    → (y < p → in_rest ≡ spec)
    → res ≡ (if inside (suc rows) y xo n p c then spec else old)
first_or_rest rows y xo n p c res mid in_row in_rest old spec e f g h = ground arith

first_pixel :
    (y xo n p c : ℕ) (pixels : Bytes)
    → p ≡ y
    → c < xo + n
    → xo ≤ c
    → get_or (take n pixels) (c - xo) 0 ≡ get_or pixels ((p - y) * n + (c - xo)) 0
first_pixel y xo n p c pixels e h k =
    get_or-take n pixels (c - xo) 0 (omega arith)
    ∙ ap (λ (i : ℕ). get_or pixels i 0) (sym (same_index y p n (c - xo) e))

later_pixel :
    (y xo n p c : ℕ) (pixels : Bytes)
    → y < p
    → get_or (drop n pixels) ((p - (y + 1)) * n + (c - xo)) 0
      ≡ get_or pixels ((p - y) * n + (c - xo)) 0
later_pixel y xo n p c pixels h =
    get_or-drop n pixels ((p - (y + 1)) * n + (c - xo)) 0
    ∙ ap (λ (i : ℕ). get_or pixels i 0) (next_index y p n (c - xo) h)

-- Every byte after `blit_rows`: the pixels inside the rows, the old byte elsewhere.
pub get_or-blit_rows :
    (rows y s xo n : ℕ) (pixels buf : Bytes) (p c : ℕ)
    → c < s
    → xo + n ≤ s
    → (y + rows) * s ≤ length buf
    → length pixels ≡ rows * n
    → get_or (blit_rows rows y s xo n pixels buf) (p * s + c) 0 ≡ (
        if inside rows y xo n p c
        then get_or pixels ((p - y) * n + (c - xo)) 0
        else get_or buf (p * s + c) 0)
unfolding blit_rows
get_or-blit_rows zero y s xo n pixels buf p c hc hn fits len = ground arith
get_or-blit_rows (suc rows) y s xo n pixels buf p c hc hn fits len =
    let row : Bytes = take n pixels in
    let here : length row ≡ n = omega (arith, length-take n pixels, suc_mul rows n) in
    let room : suc y * s ≤ length buf = omega (arith, mul_step y (y + suc rows) s, suc_mul y s) in
    first_or_rest rows y xo n p c _ _ _ _ _ _
      (get_or-blit_rows rows (y + 1) s xo n (drop n pixels) (splice (y * s + xo) row buf) p c hc hn
        (omega (arith, length-splice (y * s + xo) row buf, suc_mul y s, next_end y rows s, here))
        (omega (arith, length-drop n pixels, suc_mul rows n)))
      (splice_row y p s xo n c row buf here hc hn room) (first_pixel y xo n p c pixels)
      (later_pixel y xo n p c pixels)

pub length-blit_rows :
    (rows y s xo n : ℕ) (pixels buf : Bytes)
    → xo + n ≤ s
    → (y + rows) * s ≤ length buf
    → length pixels ≡ rows * n
    → length (blit_rows rows y s xo n pixels buf) ≡ length buf
unfolding blit_rows
length-blit_rows zero y s xo n pixels buf hn fits len = refl
length-blit_rows (suc rows) y s xo n pixels buf hn fits len = grind (
  arith,
  length-take n pixels,
  length-drop n pixels,
  length-splice (y * s + xo) (take n pixels) buf,
  mul_step y (y + suc rows) s,
  length-blit_rows rows (y + 1) s xo n (drop n pixels) (splice (y * s + xo) (take n pixels) buf) hn,
)

-- `fill` writes what `blit` would write of the same row again and again.
pub fill_rows-eq :
    (rows y s xo : ℕ) (row buf : Bytes)
    → fill_rows rows y s xo row buf ≡ blit_rows rows y s xo (length row) (repeat rows row) buf
unfolding fill_rows blit_rows
fill_rows-eq zero y s xo row buf = refl
fill_rows-eq (suc rows) y s xo row buf =
    rw (take-append_left row (repeat rows row), drop-append_left row (repeat rows row))
      (fill_rows-eq rows (y + 1) s xo row (splice (y * s + xo) row buf))
