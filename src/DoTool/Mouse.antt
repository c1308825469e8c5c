-- ===== src/DoTool/Mouse.antt =====
-- The buttons and the drag of vncdotool/client.py.
use awc_remote.Base.{
  ℕ, zero, suc, ◌+◌, ◌-◌, ◌*◌, ◌/◌, ◌%◌, ◌^◌, ◌<◌, ◌≤◌, ◌≡◌, true, false, lt→ltb, leb, min, max,
  if_both, ◌==◌, has_bit, arith,
}
use native.Mathlib.Nat.{add-div_right, div-lt_iff_lt-mul}
use awc_remote.Failure.{ok}
use awc_remote.Client.{Client, write, emit}
use awc_remote.Outgoing.{pointer_message, pointer_event}
use awc_remote.DoTool.{
  Tool, set_bit, clear_bit, mouse_press, mouse_down, mouse_up, send_pointer, along,
}

pow_positive : (k : ℕ) → 0 < 2 ^ k
pow_positive zero = omega arith
pow_positive (suc k) = grind (arith, pow_positive k)

odd_next : (n q : ℕ) → (n % 2 == 1) ≡ false → q ≡ n + 1 → (q % 2 == 1) ≡ true
odd_next n q h e = ground arith

bit_set : (n k : ℕ) → has_bit n k ≡ false → has_bit (n + 2 ^ k) k ≡ true
bit_set n k h = odd_next (n / 2 ^ k) ((n + 2 ^ k) / 2 ^ k) h (add-div_right n (pow_positive k))

added_back : (n m : ℕ) → n + m - m ≡ n
added_back n m = omega arith

pub clear_bit-set_bit : (n k : ℕ) → has_bit n k ≡ false → clear_bit (set_bit n k) k ≡ n
clear_bit-set_bit n k h = rw (h, bit_set n k h, added_back n (2 ^ k))

sent_pointer :
    (t : Tool)
    → t.buttons < 256
    → t.x < 2 ^ 16
    → t.y < 2 ^ 16
    → send_pointer t
      ≡ ok (record t { client = emit (write (pointer_message t.buttons t.x t.y)) t.client })
unfolding send_pointer pointer_event
sent_pointer t h k l = rw (lt→ltb t.buttons (2 ^ 8) h, lt→ltb t.x (2 ^ 16) k, lt→ltb t.y (2 ^ 16) l)

-- A click.
abbrev pub clicked : ℕ → Tool → Client
clicked k t =
    emit (write (pointer_message t.buttons t.x t.y))
      (emit (write (pointer_message (t.buttons + 2 ^ k) t.x t.y)) t.client)

-- A click of a button that is up, with masks and a position that fit their fields, tells the server that the
-- button is down and then that it is up, at the last position, and leaves the buttons as they were.
pub mouse_press-clicked :
    (k : ℕ) (t : Tool)
    → has_bit t.buttons k ≡ false
    → t.buttons + 2 ^ k < 256
    → t.x < 2 ^ 16
    → t.y < 2 ^ 16
    → mouse_press (suc k) t ≡ ok (record t { client = clicked k t })
unfolding mouse_press mouse_down mouse_up
mouse_press-clicked k t up h a b = rw (
  up,
  sent_pointer (record t { buttons = t.buttons + 2 ^ k }) h a b,
  bit_set t.buttons k up,
  added_back t.buttons (2 ^ k),
  sent_pointer
      (record t { client = emit (write (pointer_message (t.buttons + 2 ^ k) t.x t.y)) t.client })
      (omega (arith, h)) a b,
)

product_le : (d s m : ℕ) → s ≤ m → d * s ≤ d * m
product_le zero s m h = grind arith
product_le (suc d) s m h = grind (arith, product_le d s m h)

scaled : (d s m : ℕ) → 0 < m → s ≤ m → d * s / m < d + 1
scaled d s m h k = (div-lt_iff_lt-mul h).1 (grind (arith, product_le d s m k))

scaled_up : (d s m : ℕ) → 0 < m → s ≤ m → (d * s + (m - 1)) / m < d + 1
scaled_up d s m h k = (div-lt_iff_lt-mul h).1 (grind (arith, product_le d s m k))

between_up : (a b q : ℕ) → leb a b ≡ true → q < b - a + 1 → (min a b ≤ a + q) × (a + q ≤ max a b)
between_up a b q h k = (ground arith, ground arith)

between_down : (a b q : ℕ) → leb a b ≡ false → q < a - b + 1 → (min a b ≤ a - q) × (a - q ≤ max a b)
between_down a b q h k = (ground arith, ground arith)

-- Each step of a drag that is not past its length lies between where it starts and where it ends.
pub along-between :
    (from to s dmax : ℕ)
    → 0 < dmax
    → s ≤ dmax
    → (min from to ≤ along from to s dmax) × (along from to s dmax ≤ max from to)
along-between from to s dmax h k =
    if_both (λ (p : ℕ). (min from to ≤ p) × (p ≤ max from to)) (leb from to)
      (λ e. between_up from to ((to - from) * s / dmax) e (scaled (to - from) s dmax h k))
      (λ e.
        between_down from to (((from - to) * s + (dmax - 1)) / dmax) e
          (scaled_up (from - to) s dmax h k))
