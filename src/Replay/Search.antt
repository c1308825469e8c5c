-- ===== src/Replay/Search.antt =====
-- `saw_update_request` of vncdotool/replay.py, and the fuel that stands for its loop.
use awc_remote.Base.{
  ℕ, zero, suc, ◌<◌, ◌≤◌, Bool, true, false, Bytes, Option, none, some, [], ◌∷◌, length, drop, ltb,
  if_both, arith, length-drop, byte_at, ◌==◌, if◌then◌else◌,
}
use awc_remote.Replay.{
  Measure, measured, unknown_message, need_more, client_message_length, saw_update_request,
}

-- The search for a request ends.
unfoldable IsLong : Measure → Type 0
IsLong (measured n) = 0 < n
IsLong need_more = Unit
IsLong unknown_message = Unit

message-IsLong : (b : Bytes) → IsLong (client_message_length b)
unfolding client_message_length IsLong
message-IsLong b =
    let k = byte_at b 0 in
    if_both IsLong (k == 0) (λ e. omega arith)
      (λ e.
        if_both IsLong (k == 2)
          (λ e. if_both IsLong (ltb (length b) 4) (λ e. tt) (λ e. omega arith))
          (λ e.
            if_both IsLong (k == 3) (λ e. omega arith)
              (λ e.
                if_both IsLong (k == 4) (λ e. omega arith)
                  (λ e.
                    if_both IsLong (k == 5) (λ e. omega arith)
                      (λ e.
                        if_both IsLong (k == 6)
                          (λ e. if_both IsLong (ltb (length b) 8) (λ e. tt) (λ e. omega arith))
                          (λ e.
                            if_both IsLong (k == 255)
                              (λ e.
                                if_both IsLong (ltb (length b) 2) (λ e. tt)
                                  (λ e.
                                    if_both IsLong (byte_at b 1 == 0) (λ e. omega arith) (λ e. tt)))
                              (λ e. tt)))))))

unfoldable pub Ended : Option (Bool × Bytes) → Type 0
Ended none = ⊥
Ended (some r) = Unit

searched_next :
    (fuel x : ℕ) (b : Bytes) (m : Measure)
    → ((n : ℕ) → 0 < n → Ended (saw_update_request fuel (drop n (x ∷ b))))
    → IsLong m
    → Ended (elim m [
      | unknown_message ↦ some (true, [])
      | need_more ↦ some (false, x ∷ b)
      | measured n ↦
          if ltb (length (x ∷ b)) n
          then some (false, x ∷ b)
          else if x == 3
          then some (true, drop n (x ∷ b))
          else saw_update_request fuel (drop n (x ∷ b))
    ])
unfolding Ended IsLong
searched_next fuel x b unknown_message f h = tt
searched_next fuel x b need_more f h = tt
searched_next fuel x b (measured n) f h =
    if_both Ended (ltb (length (x ∷ b)) n) (λ e. tt)
      (λ e. if_both Ended (x == 3) (λ e. tt) (λ e. f n h))

shorter :
    (n x fuel : ℕ) (b : Bytes) → 0 < n → length (x ∷ b) ≤ suc fuel → length (drop n (x ∷ b)) ≤ fuel
shorter n x fuel b h m = omega (arith, length-drop n (x ∷ b))

pub searched : (fuel : ℕ) (b : Bytes) → length b ≤ fuel → Ended (saw_update_request fuel b)
unfolding saw_update_request Ended
searched fuel [] h = tt
searched zero (x ∷ b) h = absurd (omega arith)
searched (suc fuel) (x ∷ b) h =
    searched_next fuel x b (client_message_length (x ∷ b))
      (λ n k. searched fuel (drop n (x ∷ b)) (shorter n x fuel b k h)) (message-IsLong (x ∷ b))
