-- ===== src/RectBuffer/Pixels.antt =====
-- `RectBuffer.blit` of vncdotool/decoders/buffer.py, pixel by pixel.
use awc_remote.Base.{
  ℕ, ◌+◌, ◌-◌, ◌*◌, ◌≤◌, ◌<◌, ◌≡◌, refl, Bool, true, false, not, ◌&&◌, none, some, inl, inr,
  Bool-cases, Bytes, length, splice, get_or, get_or-splice, get_or-take, arith, ltb, leb, ◌==◌,
  if◌then◌else◌, ap, ◌∙◌,
}
use awc_remote.Failure.{ok, decode_error, Guarantees, returns, raises, Guarantees-ok, Guarantees-if}
use awc_remote.RectBuffer.{
  RectBuffer, blit, tobytes, materialize, clear, put_back, blit_backing, blit_rows, in_bounds,
  is_whole,
}
use awc_remote.RectBuffer.Shown.{shown, pixel_offset, prepare-shown}
use awc_remote.RectBuffer.Rows.{mul_step, get_or-blit_rows}
use awc_remote.RectBuffer.Bounds.{
  IsValid, SameShape, prepare, prepare-SameShape, prepare-IsValid, rows_fit, columns_fit, row_area,
}

pub add_mul : (x n b : ℕ) → (x + n) * b ≡ x * b + n * b
add_mul x n b = omega arith

pub mul_le : (a n b : ℕ) → a ≤ n → a * b ≤ n * b
mul_le a n b h = grind arith

sub_zero : (n : ℕ) → n - 0 ≡ n
sub_zero n = omega arith

-- A run of whole units is hit by the units inside it only.
span_hit :
    (x n p b j : ℕ)
    → j < b
    → (leb (x * b) (p * b + j) && ltb (p * b + j) (x * b + n * b)) ≡ (leb x p && ltb p (x + n))
span_hit x n p b j h =
    ground
      (arith, mul_step p x b, mul_step p (x + n) b, add_mul x n b, mul_le x p b, mul_le (x + n) p b)

span_index : (x p b j : ℕ) → x ≤ p → p * b + j - x * b ≡ (p - x) * b + j
span_index x p b j h =
    let e : p ≡ x + (p - x) = omega arith in
    omega (arith, add_mul x (p - x) b, ap (λ (k : ℕ). k * b) e)

pub unit_lt : (p n b j : ℕ) → p < n → j < b → p * b + j < n * b
unit_lt p n b j h k = omega (arith, mul_step p n b h)

pub offset_lt :
    (b : RectBuffer) (px py j : ℕ)
    → px < b.width
    → py < b.height
    → j < b.bypp
    → pixel_offset b px py j < b.width * b.height * b.bypp
offset_lt b px py j hx hy hj = rw (row_area b.width b.height b.bypp) (
    unit_lt py b.height (b.width * b.bypp) (px * b.bypp + j) hy (unit_lt px b.width b.bypp j hx hj))

-- The rectangle in pixels, and the offset of a pixel's byte in the pixels of a blit.
abbrev pub within : ℕ → ℕ → ℕ → ℕ → ℕ → ℕ → Bool
within x y w h px py = (leb y py && ltb py (y + h)) && (leb x px && ltb px (x + w))

abbrev pub source_offset : ℕ → ℕ → ℕ → ℕ → ℕ → ℕ → ℕ → ℕ
source_offset x y w b px py j = (py - y) * (w * b) + ((px - x) * b + j)

pub agree :
    (t : Bool) {u v : ℕ} (d : ℕ) → (t ≡ true → u ≡ v) → (if t then u else d) ≡ (if t then v else d)
agree true d f = f refl
agree false d f = refl

pub all_columns :
    (a b : Bool) {u v : ℕ} (d : ℕ)
    → b ≡ true
    → u ≡ v
    → (if a then u else d) ≡ (if a && b then v else d)
all_columns a b d h e = ground arith

left_of : (a : Bool) (x p n : ℕ) → (a && (leb x p && ltb p n)) ≡ true → x ≤ p
left_of a x p n h = ground arith

-- A band of whole rows, `k` bytes into the row `p` of rows of `s` bytes.
band_byte :
    (y h s p k : ℕ) (pixels buf : Bytes)
    → k < s
    → length pixels ≡ h * s
    → (y + h) * s ≤ length buf
    → get_or (splice (y * s) pixels buf) (p * s + k) 0 ≡ (
        if leb y p && ltb p (y + h)
        then get_or pixels ((p - y) * s + k) 0
        else get_or buf (p * s + k) 0)
band_byte y h s p k pixels buf hk len fits =
    rw (get_or-splice (y * s) pixels buf (p * s + k) 0 (omega (arith, len, add_mul y h s))) (
      rw (len, span_hit y h p s k hk)
        (agree (leb y p && ltb p (y + h)) _ (λ t.
          ap (λ (i : ℕ). get_or pixels i 0) (span_index y p s k (left_of true y p (y + h) t)))))

module _ (c : RectBuffer) (x y w h : ℕ) (pixels : Bytes) (v : IsValid c) (hx : x + w ≤ c.width)
    (hy : y + h ≤ c.height) (len : length pixels ≡ w * h * c.bypp) (px py j : ℕ)
    (in_width : px < c.width) (in_pixel : j < c.bypp) where
  abbrev pub BlitsByte : Bytes → Type 0
  BlitsByte buf = get_or buf (pixel_offset c px py j) 0 ≡ (
      if within x y w h px py
      then get_or pixels (source_offset x y w c.bypp px py j) 0
      else get_or c.backing (pixel_offset c px py j) 0)

  blit_row_byte :
      BlitsByte (blit_rows h y (c.width * c.bypp) (x * c.bypp) (w * c.bypp) pixels c.backing)
  blit_row_byte =
      rw
        (get_or-blit_rows h y (c.width * c.bypp) (x * c.bypp) (w * c.bypp) pixels c.backing py
          (px * c.bypp + j) (unit_lt px c.width c.bypp j in_width in_pixel)
          (columns_fit x w c.width c.bypp hx)
          (omega (arith, v.size, v.room, rows_fit (y + h) c.width c.height c.bypp hy))
          (len ∙ row_area w h c.bypp))
        (rw (span_hit x w px c.bypp j in_pixel) (
          agree (within x y w h px py) _ (λ t.
            ap (λ (k : ℕ). get_or pixels ((py - y) * (w * c.bypp) + k) 0)
              (span_index x px c.bypp j (left_of (leb y py && ltb py (y + h)) x px (x + w) t)))))

  blit_band_byte :
      x ≡ 0 → w ≡ c.width → BlitsByte (splice (y * (c.width * c.bypp)) pixels c.backing)
  blit_band_byte ex ew =
      band_byte y h (c.width * c.bypp) py (px * c.bypp + j) pixels c.backing
        (unit_lt px c.width c.bypp j in_width in_pixel)
        (len ∙ row_area w h c.bypp ∙ ap (λ (k : ℕ). h * (k * c.bypp)) ew)
        (omega (arith, v.size, v.room, rows_fit (y + h) c.width c.height c.bypp hy))
      ∙ all_columns (leb y py && ltb py (y + h)) (leb x px && ltb px (x + w)) _ (ground arith)
          (let z : px - 0 ≡ px = omega arith in rw (ex, ew, z))

  pub blit_backing_byte : BlitsByte (blit_backing c x y w h pixels)
  unfolding blit_backing
  blit_backing_byte = elim (Bool-cases (x == 0 && w == c.width)) [
    | inl e ↦ rw e (blit_band_byte (ground arith) (ground arith))
    | inr e ↦ rw e blit_row_byte
  ]

-- Once nothing is held, the buffer's bytes are those of the backing.
pub tobytes_byte :
    (b : RectBuffer) (i : ℕ)
    → b.whole ≡ none
    → i < b.nbytes
    → get_or (tobytes b) i 0 ≡ get_or b.backing i 0
unfolding tobytes
tobytes_byte b i e lt = rw e (get_or-take b.nbytes b.backing i 0 lt)

pub prepare-whole : (b : RectBuffer) → (prepare b).whole ≡ none
unfolding materialize put_back clear
prepare-whole b = ground arith

-- What `c` shows after a write of `pixels` to a rectangle of `b`.
abbrev pub ShowsBlit : RectBuffer → ℕ → ℕ → ℕ → ℕ → Bytes → RectBuffer → Type 0
ShowsBlit b x y w h pixels c =
    (px py j : ℕ)
    → px < b.width
    → py < b.height
    → j < b.bypp
    → get_or (tobytes c) (pixel_offset b px py j) 0 ≡ (
        if within x y w h px py
        then get_or pixels (source_offset x y w b.bypp px py j) 0
        else shown b (pixel_offset b px py j))

-- A prepared buffer takes the block, and shows what `b` showed elsewhere.
module _ (b c : RectBuffer) (x y w h : ℕ) (pixels : Bytes) (v : IsValid c) (shape : SameShape b c)
    (same : (i : ℕ) → i < b.nbytes → get_or c.backing i 0 ≡ shown b i) (hx : x + w ≤ c.width)
    (hy : y + h ≤ c.height) (len : length pixels ≡ w * h * c.bypp) (px py j : ℕ) (kx : px < c.width)
    (ky : py < c.height) (kj : j < c.bypp) where
  in_buffer : pixel_offset b px py j < c.nbytes
  in_buffer = rw v.size (simp (← shape.width, ← shape.bypp) (offset_lt c px py j kx ky kj))

  narrow : get_or (blit_backing c x y w h pixels) (pixel_offset b px py j) 0 ≡ (
      if within x y w h px py
      then get_or pixels (source_offset x y w b.bypp px py j) 0
      else shown b (pixel_offset b px py j))
  narrow =
      let old = same (pixel_offset b px py j) (rw (← shape.nbytes) in_buffer) in
      let new = blit_backing_byte c x y w h pixels v hx hy len px py j kx kj in
      rw (← old) (simp (shape.width, shape.bypp) at new)

  pub narrow_tobytes :
      (d : RectBuffer)
      → d.whole ≡ none
      → d.nbytes ≡ c.nbytes
      → d.backing ≡ blit_backing c x y w h pixels
      → get_or (tobytes d) (pixel_offset b px py j) 0 ≡ (
          if within x y w h px py
          then get_or pixels (source_offset x y w b.bypp px py j) 0
          else shown b (pixel_offset b px py j))
  narrow_tobytes d e n k =
      tobytes_byte d (pixel_offset b px py j) e (rw n in_buffer)
      ∙ ap (λ (l : Bytes). get_or l (pixel_offset b px py j) 0) k
      ∙ narrow

blit_narrow :
    (b : RectBuffer) (x y w h : ℕ) (pixels : Bytes)
    → IsValid b
    → x + w ≤ b.width
    → y + h ≤ b.height
    → length pixels ≡ w * h * b.bypp
    → ShowsBlit b x y w h pixels
        (record (prepare b) { backing = blit_backing (prepare b) x y w h pixels })
blit_narrow b x y w h pixels v hx hy len px py j kx ky kj =
    let shape = prepare-SameShape b in
    narrow_tobytes b (prepare b) x y w h pixels (prepare-IsValid b v) shape
      (λ i lt. prepare-shown b i v lt) (rw shape.width hx) (rw shape.height hy) (rw shape.bypp len)
      px py j (rw shape.width kx) (rw shape.height ky) (rw shape.bypp kj)
      (record (prepare b) { backing = blit_backing (prepare b) x y w h pixels }) (prepare-whole b)
      refl refl

blit_whole :
    (b : RectBuffer) (x y w h : ℕ) (pixels : Bytes)
    → is_whole b x y w h ≡ true
    → ShowsBlit b x y w h pixels (record b { whole = some pixels; covered = true })
unfolding tobytes is_whole
blit_whole b x y w h pixels e px py j kx ky kj =
    let ex : x ≡ 0 = ground arith in
    let ey : y ≡ 0 = ground arith in
    let ew : w ≡ b.width = ground arith in
    let all : within x y w h px py ≡ true = ground arith in
    rw all (rw (ex, ey, ew, sub_zero px, sub_zero py))

blit-Shows :
    (b : RectBuffer) (x y w h : ℕ) (pixels : Bytes)
    → IsValid b
    → Guarantees (ShowsBlit b x y w h pixels) (blit b x y w h pixels)
unfolding blit in_bounds
blit-Shows b x y w h pixels v =
    Guarantees-if (is_whole b x y w h)
      (λ whole.
        Guarantees-if (length pixels == b.nbytes)
          (λ len. returns (blit_whole b x y w h pixels whole)) (λ _. raises decode_error))
      (λ _.
        Guarantees-if (not (in_bounds b x y w h)) (λ _. raises decode_error)
          (λ inside.
            Guarantees-if (not (length pixels == w * h * b.bypp)) (λ _. raises decode_error)
              (λ len.
                returns
                  (blit_narrow b x y w h pixels v (ground arith) (ground arith) (ground arith)))))

-- A blit that is accepted puts its pixels in its rectangle and leaves every other byte as it was
-- shown before, a byte that was never drawn as 0.
pub blit-tobytes :
    (b : RectBuffer) (x y w h : ℕ) (pixels : Bytes) {c : RectBuffer}
    → IsValid b
    → blit b x y w h pixels ≡ ok c
    → ShowsBlit b x y w h pixels c
blit-tobytes b x y w h pixels v e = Guarantees-ok (blit-Shows b x y w h pixels v) e
