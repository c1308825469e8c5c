-- ===== src/RectBuffer/Bounds.antt =====
-- The size invariant of a rectangle's buffer (vncdotool/decoders/buffer.py).
use awc_remote.Base.{
  ℕ, zero, ◌+◌, ◌*◌, ◌≤◌, ◌≡◌, refl, Bool, true, false, not, ◌==◌, Option, none, some, Bytes,
  length, replicate, repeat, splice, length-splice, length-take, length-replicate, length-repeat,
  arith, inl, inr, Option-cases, sym, ltb, if◌then◌else◌,
}
use awc_remote.Failure.{
  ok, decode_error, value_error, Guarantees, returns, raises, Guarantees-ok, Guarantees-if,
}
use awc_remote.RectBuffer.{
  RectBuffer, init, blit, fill, tobytes, materialize, clear, put_back, blit_backing, fill_backing,
  in_bounds, is_whole,
}
use awc_remote.RectBuffer.Rows.{length-blit_rows, fill_rows-eq}

-- A held blit has the size of the whole buffer, which it covers.
abbrev pub Fits : Option Bytes → ℕ → Bool → Type 0
Fits none n covered = Unit
Fits (some pixels) n covered = (length pixels ≡ n) × (covered ≡ true)

Fits-covered : (o : Option Bytes) (n : ℕ) (c : Bool) → Fits o n c → Fits o n true
Fits-covered none n c h = tt
Fits-covered (some p) n c h = (h.0, refl)

pub record IsValid (b : RectBuffer) : Type 0 where
  pub size : b.nbytes ≡ b.width * b.height * b.bypp
  pub room : b.nbytes ≤ length b.backing
  pub held : Fits b.whole b.nbytes b.covered

-- `_materialize` and `_clear`, as every narrow write does them first.
abbrev pub prepare : RectBuffer → RectBuffer
prepare b = clear (materialize b)

put_back-IsValid :
    (b : RectBuffer) (o : Option Bytes)
    → IsValid b
    → Fits o b.nbytes b.covered
    → b.whole ≡ o
    → IsValid (put_back b o)
unfolding put_back
put_back-IsValid b none v fits e = v
put_back-IsValid b (some p) v fits e = record {
  size = v.size;
  room = omega (arith, v.room, fits.0, length-splice 0 p b.backing);
  held = tt;
}

pub materialize-IsValid : (b : RectBuffer) → IsValid b → IsValid (materialize b)
unfolding materialize
materialize-IsValid b v = put_back-IsValid b b.whole v v.held refl

pub clear-IsValid : (b : RectBuffer) → IsValid b → IsValid (clear b)
unfolding clear
clear-IsValid b v =
    elim b.covered
      as (λ c. IsValid (
        if c
        then b
        else record b { backing = splice 0 (replicate b.nbytes 0) b.backing; covered = true })) [
          | true ↦ v
          | false ↦ record {
            size = v.size;
            room = omega (
              arith,
              v.room,
              length-replicate b.nbytes zero,
              length-splice 0 (replicate b.nbytes 0) b.backing,
            );
            held = Fits-covered b.whole b.nbytes b.covered v.held;
          }
        ]

pub length-tobytes : (b : RectBuffer) → IsValid b → length (tobytes b) ≡ b.nbytes
unfolding tobytes
length-tobytes b v = elim (Option-cases b.whole) [
  | inl e ↦ rw e (omega (arith, v.room, length-take b.nbytes b.backing))
  | inr (p, e) ↦ let h : Fits (some p) b.nbytes b.covered = rw e at v.held in rw e h.0
]

pub rows_fit : (k w h b : ℕ) → k ≤ h → k * (w * b) ≤ w * h * b
rows_fit k w h b e = grind arith

pub mul_mono : (k n b : ℕ) → k ≤ n → k * b ≤ n * b
mul_mono k n b e = grind arith

pub columns_fit : (x w n b : ℕ) → x + w ≤ n → x * b + w * b ≤ n * b
columns_fit x w n b e = omega (arith, mul_mono (x + w) n b e)

pub row_area : (w h b : ℕ) → w * h * b ≡ h * (w * b)
row_area w h b = grind arith

-- A block of pixels inside the buffer goes into the backing without changing its length.
pub length-blit_backing :
    (c : RectBuffer) (x y w h : ℕ) (pixels : Bytes)
    → IsValid c
    → x + w ≤ c.width
    → y + h ≤ c.height
    → length pixels ≡ w * h * c.bypp
    → length (blit_backing c x y w h pixels) ≡ length c.backing
unfolding blit_backing
length-blit_backing c x y w h pixels v hx hy len = ground (
  arith,
  v.size,
  v.room,
  row_area w h c.bypp,
  rows_fit (y + h) c.width c.height c.bypp hy,
  columns_fit x w c.width c.bypp hx,
  length-splice (y * (c.width * c.bypp)) pixels c.backing,
  length-blit_rows h y (c.width * c.bypp) (x * c.bypp) (w * c.bypp) pixels c.backing,
)

blit_end :
    (c : RectBuffer) (x y w h : ℕ) (pixels : Bytes)
    → IsValid c
    → x + w ≤ c.width
    → y + h ≤ c.height
    → length pixels ≡ w * h * c.bypp
    → IsValid (record c { backing = blit_backing c x y w h pixels })
blit_end c x y w h pixels v hx hy len = record {
  size = v.size;
  room = omega (arith, v.room, length-blit_backing c x y w h pixels v hx hy len);
  held = v.held;
}

-- `_materialize` and `_clear` keep the shape of the buffer.
pub record SameShape (b c : RectBuffer) : Type 0 where
  pub width : c.width ≡ b.width
  pub height : c.height ≡ b.height
  pub bypp : c.bypp ≡ b.bypp
  pub nbytes : c.nbytes ≡ b.nbytes

put_back-SameShape : (b : RectBuffer) (o : Option Bytes) → SameShape b (put_back b o)
unfolding put_back
put_back-SameShape b none = record { width = refl; height = refl; bypp = refl; nbytes = refl }
put_back-SameShape b (some p) = record { width = refl; height = refl; bypp = refl; nbytes = refl }

pub prepare-SameShape : (b : RectBuffer) → SameShape b (prepare b)
unfolding materialize clear
prepare-SameShape b = ground (arith, put_back-SameShape b b.whole)

pub prepare-IsValid : (b : RectBuffer) → IsValid b → IsValid (prepare b)
prepare-IsValid b v = clear-IsValid (materialize b) (materialize-IsValid b v)

abbrev pub Keeps : RectBuffer → RectBuffer → Type 0
Keeps b c = IsValid c × SameShape b c

pub blit-Keeps :
    (b : RectBuffer) (x y w h : ℕ) (pixels : Bytes)
    → IsValid b
    → Guarantees (Keeps b) (blit b x y w h pixels)
unfolding blit
blit-Keeps b x y w h pixels v =
    Guarantees-if (is_whole b x y w h)
      (λ _.
        Guarantees-if (length pixels == b.nbytes)
          (λ len. returns (
            record { size = v.size; room = v.room; held = (ground arith, refl) },
            record { width = refl; height = refl; bypp = refl; nbytes = refl },
          ))
          (λ _. raises decode_error))
      (λ _.
        Guarantees-if (not (in_bounds b x y w h)) (λ _. raises decode_error)
          (λ inside.
            Guarantees-if (not (length pixels == w * h * b.bypp)) (λ _. raises decode_error)
              (λ len.
                let shape = prepare-SameShape b in
                returns (
                  blit_end (prepare b) x y w h pixels (prepare-IsValid b v) (ground (arith, shape))
                      (ground (arith, shape)) (ground (arith, shape)),
                  record {
                    width = shape.width;
                    height = shape.height;
                    bypp = shape.bypp;
                    nbytes = shape.nbytes;
                  },
                ))))

-- A fill writes what a blit of the repeated colour would write.
pub fill_backing-eq :
    (c : RectBuffer) (x y w h : ℕ) (color : Bytes)
    → length color ≡ c.bypp
    → fill_backing c x y w h color ≡ blit_backing c x y w h (repeat h (repeat w color))
unfolding fill_backing blit_backing
fill_backing-eq c x y w h color len =
    let row : length (repeat w color) ≡ w * c.bypp = rw (← len) (length-repeat w color) in
    rw (fill_rows-eq h y (c.width * c.bypp) (x * c.bypp) (repeat w color) c.backing, row)

pub length-colours :
    (w h b : ℕ) (color : Bytes) → length color ≡ b → length (repeat h (repeat w color)) ≡ w * h * b
length-colours w h b color len =
    rw (length-repeat h (repeat w color), length-repeat w color, len) (sym (row_area w h b))

fill_end :
    (c : RectBuffer) (x y w h : ℕ) (color : Bytes)
    → IsValid c
    → x + w ≤ c.width
    → y + h ≤ c.height
    → length color ≡ c.bypp
    → IsValid (record c { covered = true; backing = fill_backing c x y w h color })
fill_end c x y w h color v hx hy len =
    let pixels = repeat h (repeat w color) in
    record {
      size = v.size;
      room = rw (fill_backing-eq c x y w h color len) (
          omega (
            arith,
            v.room,
            length-blit_backing c x y w h pixels v hx hy (length-colours w h c.bypp color len),
          ));
      held = Fits-covered c.whole c.nbytes c.covered v.held;
    }

-- What `fill` clears before it writes: nothing, if it covers the whole buffer.
abbrev pub prepare_fill : RectBuffer → Bool → RectBuffer
prepare_fill b covers = if covers then materialize b else clear (materialize b)

pub prepare_fill-Keeps :
    (b : RectBuffer) (covers : Bool) → IsValid b → Keeps b (prepare_fill b covers)
unfolding materialize
prepare_fill-Keeps b true v = (materialize-IsValid b v, put_back-SameShape b b.whole)
prepare_fill-Keeps b false v = (prepare-IsValid b v, prepare-SameShape b)

pub fill-Keeps :
    (b : RectBuffer) (x y w h : ℕ) (color : Bytes)
    → IsValid b
    → Guarantees (Keeps b) (fill b x y w h color)
unfolding fill
fill-Keeps b x y w h color v =
    Guarantees-if (not (in_bounds b x y w h)) (λ _. raises decode_error)
      (λ inside.
        Guarantees-if (not (length color == b.bypp)) (λ _. raises decode_error)
          (λ len.
            let (valid, shape) = prepare_fill-Keeps b (is_whole b x y w h) v in
            returns (
              fill_end (prepare_fill b (is_whole b x y w h)) x y w h color valid
                  (ground (arith, shape)) (ground (arith, shape)) (ground (arith, shape)),
              record {
                width = shape.width;
                height = shape.height;
                bypp = shape.bypp;
                nbytes = shape.nbytes;
              },
            )))

-- Every blit that is accepted keeps the invariant and the shape of the buffer.
pub blit-IsValid :
    (b : RectBuffer) (x y w h : ℕ) (pixels : Bytes) {c : RectBuffer}
    → IsValid b
    → blit b x y w h pixels ≡ ok c
    → Keeps b c
blit-IsValid b x y w h pixels v e = Guarantees-ok (blit-Keeps b x y w h pixels v) e

-- Every fill that is accepted keeps the invariant and the shape of the buffer.
pub fill-IsValid :
    (b : RectBuffer) (x y w h : ℕ) (color : Bytes) {c : RectBuffer}
    → IsValid b
    → fill b x y w h color ≡ ok c
    → Keeps b c
fill-IsValid b x y w h color v e = Guarantees-ok (fill-Keeps b x y w h color v) e

-- A buffer that is made over a backing of any content is valid.
pub init-IsValid :
    (w h p : ℕ) (backing : Bytes) {c : RectBuffer} → init w h p backing ≡ ok c → IsValid c
unfolding init
init-IsValid w h p backing e =
    Guarantees-ok {P = IsValid}
      (Guarantees-if (ltb (length backing) (w * h * p)) (λ _. raises value_error)
        (λ room. returns (record { size = refl; room = ground arith; held = tt })))
      e
