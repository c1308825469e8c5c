-- ===== src/Command/Ends.antt =====
-- The loop of `build_command_list` in vncdotool/command.py, and the fuel that stands for it.
use awc_remote.Base.{
  ◌≤◌, ◌≢◌, length, if_both, arith, ◌&&◌, ℕ, zero, suc, ◌≡◌, refl, Bool, true, false, Option, none,
  some, List, [], ◌∷◌, ◌++◌, drop,
}
use awc_remote.Base.Int.{ℤ}
use awc_remote.DoTool.Keys.{Text}
use awc_remote.Command.{
  Platform, Callback, Parsed, ok, usage_error, uncaught, Verb, key_verb, keydown_verb, keyup_verb,
  move_verb, click_verb, mousedown_verb, mouseup_verb, type_verb, typefile_verb, pastefile_verb,
  capture_verb, expect_verb, rcapture_verb, rexpect_verb, stable_verb, rstable_verb, pause_verb,
  drag_verb, verb_of, supported_formats, one_of, trailing_fuzz, Taken, pop, or_raise, pop_int,
  pop_float, checked_fuzz, fuzz_of, is_fuzz,
}
use awc_remote.Command.Build.{
  if_supported, run_verb, run_found, run_word, pauses_before, add_calls, build,
}

-- A command leaves at most so many words.
unfoldable Leaves : {F : Type 0} → ℕ → Taken F → Type 0
Leaves n (ok (calls, rest)) = length rest ≤ n
Leaves n usage_error = Unit
Leaves n uncaught = Unit

module _ {F : Type 0} (platform : Platform F) (n : ℕ) where
  pop-Leaves :
      (args : List Text) (f : Text → List Text → Taken F)
      → length args ≤ n
      → ((w : Text) (rest : List Text) → length rest ≤ n → Leaves n (f w rest))
      → Leaves n (pop platform args f)
  unfolding Leaves
  pop-Leaves [] f h k = tt
  pop-Leaves (w ∷ args) f h k = k w args (omega arith)

  or_raise-Leaves :
      {B : Type 0} (o : Option B) (f : B → Taken F)
      → ((b : B) → Leaves n (f b))
      → Leaves n (or_raise platform o f)
  unfolding Leaves
  or_raise-Leaves none f k = tt
  or_raise-Leaves (some b) f k = k b

  int-Leaves :
      (args : List Text) (f : ℤ → List Text → Taken F)
      → length args ≤ n
      → ((m : ℤ) (rest : List Text) → length rest ≤ n → Leaves n (f m rest))
      → Leaves n (pop_int platform args f)
  int-Leaves args f h k =
      pop-Leaves args _ h (λ w rest l. or_raise-Leaves (platform.read_int w) _ (λ m. k m rest l))

  float-Leaves :
      (args : List Text) (f : F → List Text → Taken F)
      → length args ≤ n
      → ((x : F) (rest : List Text) → length rest ≤ n → Leaves n (f x rest))
      → Leaves n (pop_float platform args f)
  float-Leaves args f h k =
      pop-Leaves args _ h (λ w rest l. or_raise-Leaves (platform.read_float w) _ (λ x. k x rest l))

  checked-Leaves :
      (x : F) (m : ℤ) (f : ℤ → Taken F)
      → ((m : ℤ) → Leaves n (f m))
      → Leaves n (checked_fuzz platform x m f)
  unfolding Leaves
  checked-Leaves x m f k =
      if_both (Leaves n) (platform.equals x m && is_fuzz m) (λ e. k m) (λ e. tt)

  fuzz_of-Leaves :
      (o : Option F) (w : Text) (args : List Text) (f : Option ℤ → List Text → Taken F)
      → length (w ∷ args) ≤ n
      → ((z : Option ℤ) (rest : List Text) → length rest ≤ n → Leaves n (f z rest))
      → Leaves n (fuzz_of platform o w args f)
  fuzz_of-Leaves none w args f h k = k none (w ∷ args) h
  fuzz_of-Leaves (some x) w args f h k =
      or_raise-Leaves (platform.to_int x) _
        (λ m. checked-Leaves x m _ (λ m. k (some m) args (omega arith)))

  fuzz-Leaves :
      (args : List Text) (f : Option ℤ → List Text → Taken F)
      → length args ≤ n
      → ((z : Option ℤ) (rest : List Text) → length rest ≤ n → Leaves n (f z rest))
      → Leaves n (trailing_fuzz platform args f)
  unfolding trailing_fuzz
  fuzz-Leaves [] f h k = k none [] h
  fuzz-Leaves (w ∷ args) f h k = fuzz_of-Leaves (platform.read_float w) w args f h k

  supported-Leaves :
      (filename : Text) (r : Taken F) → Leaves n r → Leaves n (if_supported platform filename r)
  unfolding Leaves
  supported-Leaves filename r h =
      if_both (Leaves n) (one_of supported_formats (drop 1 (platform.extension filename))) (λ e. h)
        (λ e. tt)

  -- Four numbers in a row.
  region-Leaves :
      (args : List Text) (f : ℤ → ℤ → ℤ → ℤ → List Text → Taken F)
      → length args ≤ n
      → ((x y w h : ℤ) (rest : List Text) → length rest ≤ n → Leaves n (f x y w h rest))
      → Leaves n (
          pop_int platform args (λ x rest. pop_int platform rest (λ y rest.
            pop_int platform rest (λ w rest. pop_int platform rest (λ h rest. f x y w h rest)))))
  region-Leaves args f l k = int-Leaves args _ l (λ x r l.
      int-Leaves r _ l
        (λ y r l. int-Leaves r _ l (λ w r l. int-Leaves r _ l (λ h r l. k x y w h r l))))

module _ {F : Type 0} (platform : Platform F) (delay : Option F) (warp : F)
    (incremental : Bool) where
  verb-Leaves :
      (v : Verb) (args : List Text) (n : ℕ)
      → length args ≤ n
      → Leaves n (run_verb platform delay warp incremental v args)
  unfolding run_verb Leaves
  verb-Leaves key_verb args n h = pop-Leaves platform n args _ h (λ k r l. l)
  verb-Leaves keydown_verb args n h = pop-Leaves platform n args _ h (λ k r l. l)
  verb-Leaves keyup_verb args n h = pop-Leaves platform n args _ h (λ k r l. l)
  verb-Leaves type_verb args n h = pop-Leaves platform n args _ h (λ k r l. l)
  verb-Leaves click_verb args n h = int-Leaves platform n args _ h (λ b r l. l)
  verb-Leaves mousedown_verb args n h = int-Leaves platform n args _ h (λ b r l. l)
  verb-Leaves mouseup_verb args n h = int-Leaves platform n args _ h (λ b r l. l)
  verb-Leaves move_verb args n h =
      int-Leaves platform n args _ h (λ x r l. int-Leaves platform n r _ l (λ y r l. l))
  verb-Leaves drag_verb args n h =
      int-Leaves platform n args _ h (λ x r l. int-Leaves platform n r _ l (λ y r l. l))
  verb-Leaves typefile_verb args n h =
      pop-Leaves platform n args _ h
        (λ f r l. or_raise-Leaves platform n (platform.content f) _ (λ c. l))
  verb-Leaves pastefile_verb args n h =
      pop-Leaves platform n args _ h
        (λ f r l. or_raise-Leaves platform n (platform.content f) _ (λ c. l))
  verb-Leaves capture_verb args n h =
      pop-Leaves platform n args _ h (λ f r l. supported-Leaves platform n f _ l)
  verb-Leaves expect_verb args n h =
      pop-Leaves platform n args _ h (λ f r l. fuzz-Leaves platform n r _ l (λ z r l. l))
  verb-Leaves rcapture_verb args n h =
      pop-Leaves platform n args _ h
        (λ f r l. region-Leaves platform n r _ l (λ x y w h r l. supported-Leaves platform n f _ l))
  verb-Leaves rexpect_verb args n h = pop-Leaves platform n args _ h (λ f r l.
      int-Leaves platform n r _ l
        (λ x r l. int-Leaves platform n r _ l (λ y r l. fuzz-Leaves platform n r _ l (λ z r l. l))))
  verb-Leaves stable_verb args n h =
      float-Leaves platform n args _ h (λ s r l. fuzz-Leaves platform n r _ l (λ z r l. l))
  verb-Leaves rstable_verb args n h = float-Leaves platform n args _ h (λ s r l.
      region-Leaves platform n r _ l (λ x y w h r l. fuzz-Leaves platform n r _ l (λ z r l. l)))
  verb-Leaves pause_verb args n h =
      float-Leaves platform n args _ h
        (λ s r l. or_raise-Leaves platform n (platform.divide s warp) _ (λ d. l))

  -- Where no word names a file, each round takes a word.
  module _ (no_files : (w : Text) → platform.is_file w ≡ false) where
    found-Leaves :
        (o : Option Verb) (cmd : Text) (args : List Text)
        → Leaves (length args) (run_found platform delay warp incremental o cmd args)
    unfolding Leaves
    found-Leaves none cmd args = rw (no_files cmd) tt
    found-Leaves (some v) cmd args = verb-Leaves v args (length args) (omega arith)

    ended :
        (calls : List (Callback F)) (o : Option (Parsed (List (Callback F))))
        → o ≢ none
        → add_calls platform delay warp incremental calls o ≢ none
    ended calls none h e = h refl
    ended calls (some (ok more)) h e = absurd cc
    ended calls (some usage_error) h e = absurd cc
    ended calls (some uncaught) h e = absurd cc

    next_round :
        (r : Taken F) (n fuel : ℕ)
        → Leaves n r
        → n ≤ fuel
        → ((rest : List Text)
            → length rest ≤ fuel
            → build platform delay warp incremental fuel rest ≢ none)
        → (elim r [
          | usage_error ↦ some usage_error
          | uncaught ↦ some uncaught
          | ok (calls, rest) ↦
              add_calls platform delay warp incremental
                (calls ++ pauses_before platform delay warp incremental rest)
                (build platform delay warp incremental fuel rest)
        ])
          ≢ none
    unfolding Leaves
    next_round usage_error n fuel h k f e = absurd cc
    next_round uncaught n fuel h k f e = absurd cc
    next_round (ok (calls, rest)) n fuel h k f e = ended _ _ (f rest (omega arith)) e

    -- Where no word names a file, the loop of `build_command_list` ends: on any words, with a round for each of them, it
    -- never runs out of fuel.
    pub build-out_of_fuel :
        (fuel : ℕ) (args : List Text)
        → length args ≤ fuel
        → build platform delay warp incremental fuel args ≢ none
    unfolding build run_word
    build-out_of_fuel fuel [] h e = absurd cc
    build-out_of_fuel zero (cmd ∷ args) h e = absurd (omega arith)
    build-out_of_fuel (suc fuel) (cmd ∷ args) h e =
        next_round _ (length args) fuel (found-Leaves (verb_of cmd) cmd args) (omega arith)
          (λ rest l. build-out_of_fuel fuel rest l) e

  own_name :
      (cmd : Text) (args : List Text)
      → verb_of cmd ≡ none
      → platform.is_file cmd ≡ true
      → platform.lex cmd ≡ some (cmd ∷ [])
      → run_word platform delay warp incremental cmd args ≡ ok ([], cmd ∷ args)
  unfolding run_word
  own_name cmd args e f l = rw (e, f, l)

  -- A file whose only word is its own name keeps the loop going for ever: no fuel is enough.
  pub build-own_name :
      (fuel : ℕ) (cmd : Text) (args : List Text)
      → verb_of cmd ≡ none
      → platform.is_file cmd ≡ true
      → platform.lex cmd ≡ some (cmd ∷ [])
      → build platform delay warp incremental fuel (cmd ∷ args) ≡ none
  unfolding build
  build-own_name zero cmd args e f l = refl
  build-own_name (suc fuel) cmd args e f l =
      rw (build, own_name cmd args e f l, build-own_name fuel cmd args e f l)
