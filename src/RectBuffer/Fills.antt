-- ===== src/RectBuffer/Fills.antt =====
-- `RectBuffer.fill` of vncdotool/decoders/buffer.py, pixel by pixel.
use awc_remote.Base.{
  ℕ, zero, suc, ◌+◌, ◌-◌, ◌*◌, ◌≤◌, ◌<◌, ◌≡◌, refl, Bool, true, false, not, Option, none, some,
  Bytes, length, repeat, get_or, get_or-append, length-repeat, arith, ltb, ◌==◌, if◌then◌else◌, ap,
  ◌∙◌,
}
use awc_remote.Failure.{ok, decode_error, Guarantees, returns, raises, Guarantees-ok, Guarantees-if}
use awc_remote.RectBuffer.{
  RectBuffer, fill, tobytes, materialize, put_back, fill_backing, in_bounds, is_whole,
}
use awc_remote.RectBuffer.Rows.{suc_mul}
use awc_remote.RectBuffer.Bounds.{
  IsValid, SameShape, prepare, prepare_fill, prepare-SameShape, prepare-IsValid, prepare_fill-Keeps,
  fill_backing-eq, length-colours,
}
use awc_remote.RectBuffer.Shown.{shown, pixel_offset, prepare-shown}
use awc_remote.RectBuffer.Pixels.{
  within, source_offset, prepare-whole, unit_lt, narrow_tobytes, agree,
}

past : (i n u v : ℕ) → n ≤ i → (if ltb i n then u else v) ≡ v
past i n u v h = ground arith

-- A repeated row reads as the row.
get_or-repeat :
    (n i k b : ℕ) (xs : Bytes)
    → length xs ≡ b
    → k < b
    → i < n
    → get_or (repeat n xs) (i * b + k) 0 ≡ get_or xs k 0
get_or-repeat zero i k b xs e h lt = absurd (omega arith)
get_or-repeat (suc n) zero k b xs e h lt =
    ground (arith, get_or-append xs (repeat n xs) (0 * b + k) 0)
get_or-repeat (suc n) (suc i) k b xs e h lt =
    get_or-append xs (repeat n xs) (suc i * b + k) 0
    ∙ past (suc i * b + k) (length xs) _ _ (omega (arith, e, suc_mul i b))
    ∙ ap (λ (m : ℕ). get_or (repeat n xs) m 0) (omega (arith, e, suc_mul i b))
    ∙ get_or-repeat n i k b xs e h (omega arith)

colour_byte :
    (x y w h b px py j : ℕ) (color : Bytes)
    → length color ≡ b
    → j < b
    → within x y w h px py ≡ true
    → get_or (repeat h (repeat w color)) (source_offset x y w b px py j) 0 ≡ get_or color j 0
colour_byte x y w h b px py j color e kj t =
    let row : px - x < w = ground arith in
    let column : py - y < h = ground arith in
    get_or-repeat h (py - y) ((px - x) * b + j) (w * b) (repeat w color)
      (length-repeat w color ∙ ap (λ (k : ℕ). w * k) e) (unit_lt (px - x) w b j row kj) column
    ∙ get_or-repeat w (px - x) j b color e kj row

-- What `c` shows after a fill of a rectangle of `b`.
abbrev pub ShowsFill : RectBuffer → ℕ → ℕ → ℕ → ℕ → Bytes → RectBuffer → Type 0
ShowsFill b x y w h color c =
    (px py j : ℕ)
    → px < b.width
    → py < b.height
    → j < b.bypp
    → get_or (tobytes c) (pixel_offset b px py j) 0
      ≡ (if within x y w h px py then get_or color j 0 else shown b (pixel_offset b px py j))

colours :
    (x y w h b px py j d : ℕ) (color : Bytes)
    → length color ≡ b
    → j < b
    → (if within x y w h px py
        then get_or (repeat h (repeat w color)) (source_offset x y w b px py j) 0
        else d)
      ≡ (if within x y w h px py then get_or color j 0 else d)
colours x y w h b px py j d color e kj =
    agree (within x y w h px py) d (colour_byte x y w h b px py j color e kj)

-- A fill of a part goes through the cleared buffer.
fill_narrow :
    (b : RectBuffer) (x y w h : ℕ) (color : Bytes)
    → IsValid b
    → x + w ≤ b.width
    → y + h ≤ b.height
    → length color ≡ b.bypp
    → ShowsFill b x y w h color
        (record (prepare b) { covered = true; backing = fill_backing (prepare b) x y w h color })
fill_narrow b x y w h color v hx hy len px py j kx ky kj =
    let shape = prepare-SameShape b in
    narrow_tobytes b (prepare b) x y w h (repeat h (repeat w color)) (prepare-IsValid b v) shape
      (λ i lt. prepare-shown b i v lt) (rw shape.width hx) (rw shape.height hy)
      (rw shape.bypp (length-colours w h b.bypp color len)) px py j (rw shape.width kx)
      (rw shape.height ky) (rw shape.bypp kj)
      (record (prepare b) { covered = true; backing = fill_backing (prepare b) x y w h color })
      (prepare-whole b) refl (fill_backing-eq (prepare b) x y w h color (rw shape.bypp len))
    ∙ colours x y w h b.bypp px py j _ color len kj

-- A fill of the whole needs no clearing: every pixel is inside.
all_within :
    (b : RectBuffer) (x y w h px py : ℕ)
    → is_whole b x y w h ≡ true
    → px < b.width
    → py < b.height
    → within x y w h px py ≡ true
unfolding is_whole
all_within b x y w h px py e kx ky = ground arith

then_only :
    (t : Bool) (u v d d' : ℕ) → t ≡ true → v ≡ (if t then u else d) → v ≡ (if t then u else d')
then_only true u v d d' e h = h
then_only false u v d d' e h = cc

fill_whole :
    (b m : RectBuffer) (x y w h : ℕ) (color : Bytes)
    → IsValid m
    → SameShape b m
    → m.whole ≡ none
    → is_whole b x y w h ≡ true
    → x + w ≤ b.width
    → y + h ≤ b.height
    → length color ≡ b.bypp
    → ShowsFill b x y w h color
        (record m { covered = true; backing = fill_backing m x y w h color })
fill_whole b m x y w h color v shape e whole hx hy len px py j kx ky kj =
    let written =
      narrow_tobytes (record b { whole = none; covered = true; backing = m.backing }) m x y w h
        (repeat h (repeat w color)) v
        (record {
          width = shape.width;
          height = shape.height;
          bypp = shape.bypp;
          nbytes = shape.nbytes;
        })
        (λ i lt. unfold shown in refl) (rw shape.width hx) (rw shape.height hy)
        (rw shape.bypp (length-colours w h b.bypp color len)) px py j (rw shape.width kx)
        (rw shape.height ky) (rw shape.bypp kj)
        (record m { covered = true; backing = fill_backing m x y w h color }) e refl
        (fill_backing-eq m x y w h color (rw shape.bypp len)) in
    then_only (within x y w h px py) (get_or color j 0) _ _ _
      (all_within b x y w h px py whole kx ky)
      (written ∙ colours x y w h b.bypp px py j _ color len kj)

put_back-whole : (b : RectBuffer) (o : Option Bytes) → b.whole ≡ o → (put_back b o).whole ≡ none
unfolding put_back
put_back-whole b none e = e
put_back-whole b (some p) e = refl

materialize-whole : (b : RectBuffer) → (materialize b).whole ≡ none
unfolding materialize
materialize-whole b = put_back-whole b b.whole refl

fill_prepared :
    (b : RectBuffer) (x y w h : ℕ) (color : Bytes) (covers : Bool)
    → is_whole b x y w h ≡ covers
    → IsValid b
    → x + w ≤ b.width
    → y + h ≤ b.height
    → length color ≡ b.bypp
    → ShowsFill b x y w h color (record (prepare_fill b covers) {
      covered = true;
      backing = fill_backing (prepare_fill b covers) x y w h color;
    })
fill_prepared b x y w h color true e v hx hy len =
    let (valid, shape) = prepare_fill-Keeps b true v in
    fill_whole b (materialize b) x y w h color valid shape (materialize-whole b) e hx hy len
fill_prepared b x y w h color false e v hx hy len = fill_narrow b x y w h color v hx hy len

fill-Shows :
    (b : RectBuffer) (x y w h : ℕ) (color : Bytes)
    → IsValid b
    → Guarantees (ShowsFill b x y w h color) (fill b x y w h color)
unfolding fill in_bounds
fill-Shows b x y w h color v =
    Guarantees-if (not (in_bounds b x y w h)) (λ _. raises decode_error)
      (λ inside.
        Guarantees-if (not (length color == b.bypp)) (λ _. raises decode_error)
          (λ len. returns (
            fill_prepared b x y w h color (is_whole b x y w h) refl v (ground arith) (ground arith)
              (ground arith))))

-- A fill that is accepted puts its colour in every pixel of its rectangle and leaves every other
-- byte as it was shown before, a byte that was never drawn as 0.
pub fill-tobytes :
    (b : RectBuffer) (x y w h : ℕ) (color : Bytes) {c : RectBuffer}
    → IsValid b
    → fill b x y w h color ≡ ok c
    → ShowsFill b x y w h color c
fill-tobytes b x y w h color v e = Guarantees-ok (fill-Shows b x y w h color v) e
