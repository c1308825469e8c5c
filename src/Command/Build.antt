-- ===== src/Command/Build.antt =====
-- The loop of `build_command_list` in vncdotool/command.py.
use awc_remote.Base.{
  ℕ, zero, suc, Bool, Option, none, some, List, [], ◌∷◌, ◌++◌, drop, if◌then◌else◌,
}
use awc_remote.Base.Int.{ℤ, pos, negsuc}
use awc_remote.DoTool.Keys.{Text}
use awc_remote.Command.{
  Platform, Callback, press_key, release_key, hold_key, move_mouse, drag_mouse, press_button,
  hold_button, release_button, wait_for, paste_text, capture_screen, capture_region, expect_screen,
  expect_region, stable_screen, stable_region, Parsed, ok, usage_error, uncaught, Verb, key_verb,
  keydown_verb, keyup_verb, move_verb, click_verb, mousedown_verb, mouseup_verb, type_verb,
  typefile_verb, pastefile_verb, capture_verb, expect_verb, rcapture_verb, rexpect_verb,
  stable_verb, rstable_verb, pause_verb, drag_verb, verb_of, supported_formats, one_of,
  replace_crlf, pauses, typed, typed_file, Taken, pop, or_raise, pop_int, pop_float, trailing_fuzz,
}

module _ {F : Type 0} where
  -- `if delay: delay = float(delay) / 1000.0`
  abbrev pub delay_of : Platform F → Option ℤ → Option F
  delay_of platform none = none
  delay_of platform (some (pos zero)) = none
  delay_of platform (some (pos (suc n))) = some (platform.milliseconds (pos (suc n)))
  delay_of platform (some (negsuc n)) = some (platform.milliseconds (negsuc n))

  -- The check of the image format.
  abbrev pub if_supported : Platform F → Text → Parsed (List (Callback F) × List Text) → Taken F
  if_supported platform filename r =
      if one_of supported_formats (drop 1 (platform.extension filename)) then r else usage_error

module _ {F : Type 0} (platform : Platform F) (delay : Option F) (warp : F)
    (incremental : Bool) where
  -- The branch of a command, on the words after it.
  unfoldable pub run_verb : Verb → List Text → Taken F
  unfolding trailing_fuzz typed typed_file replace_crlf
  run_verb key_verb args = pop platform args (λ key rest. ok (press_key key ∷ [], rest))
  run_verb keydown_verb args = pop platform args (λ key rest. ok (hold_key key ∷ [], rest))
  run_verb keyup_verb args = pop platform args (λ key rest. ok (release_key key ∷ [], rest))
  run_verb move_verb args =
      pop_int platform args
        (λ x rest. pop_int platform rest (λ y rest. ok (move_mouse x y ∷ [], rest)))
  run_verb click_verb args =
      pop_int platform args (λ button rest. ok (press_button button ∷ [], rest))
  run_verb mousedown_verb args =
      pop_int platform args (λ button rest. ok (hold_button button ∷ [], rest))
  run_verb mouseup_verb args =
      pop_int platform args (λ button rest. ok (release_button button ∷ [], rest))
  run_verb type_verb args = pop platform args (λ keys rest. ok (typed delay keys, rest))
  run_verb typefile_verb args = pop platform args (λ filename rest.
      or_raise platform (platform.content filename)
        (λ content. ok (typed_file delay content, rest)))
  run_verb pastefile_verb args = pop platform args (λ filename rest.
      or_raise platform (platform.content filename)
        (λ content. ok (paste_text (replace_crlf content) ∷ [], rest)))
  run_verb capture_verb args = pop platform args (λ filename rest.
      if_supported platform filename (ok (capture_screen filename incremental ∷ [], rest)))
  run_verb expect_verb args = pop platform args (λ filename rest.
      trailing_fuzz platform rest (λ fuzz rest. ok (expect_screen filename fuzz ∷ [], rest)))
  run_verb rcapture_verb args = pop platform args (λ filename rest. pop_int platform rest (λ x rest.
      pop_int platform rest (λ y rest. pop_int platform rest (λ w rest.
        pop_int platform rest (λ h rest.
          if_supported platform filename (ok (capture_region filename x y w h ∷ [], rest)))))))
  run_verb rexpect_verb args = pop platform args (λ filename rest. pop_int platform rest (λ x rest.
      pop_int platform rest (λ y rest.
        trailing_fuzz platform rest
          (λ fuzz rest. ok (expect_region filename x y fuzz ∷ [], rest)))))
  run_verb stable_verb args = pop_float platform args (λ seconds rest.
      trailing_fuzz platform rest (λ fuzz rest. ok (stable_screen seconds fuzz ∷ [], rest)))
  run_verb rstable_verb args = pop_float platform args (λ seconds rest.
      pop_int platform rest (λ x rest. pop_int platform rest (λ y rest.
        pop_int platform rest (λ w rest. pop_int platform rest (λ h rest.
          trailing_fuzz platform rest
            (λ fuzz rest. ok (stable_region seconds x y w h fuzz ∷ [], rest)))))))
  run_verb pause_verb args = pop_float platform args (λ seconds rest.
      or_raise platform (platform.divide seconds warp)
        (λ duration. ok (wait_for duration ∷ [], rest)))
  run_verb drag_verb args =
      pop_int platform args
        (λ x rest. pop_int platform rest (λ y rest. ok (drag_mouse x y ∷ [], rest)))

  -- A word that is no command names a file of commands, or nothing.
  abbrev pub run_other : Text → List Text → Taken F
  run_other cmd args =
      if platform.is_file cmd
      then or_raise platform (platform.lex cmd) (λ words. ok ([], words ++ args))
      else usage_error

  abbrev pub run_found : Option Verb → Text → List Text → Taken F
  run_found (some verb) cmd args = run_verb verb args
  run_found none cmd args = run_other cmd args

  unfoldable pub run_word : Text → List Text → Taken F
  unfolding run_verb verb_of
  run_word cmd args = run_found (verb_of cmd) cmd args

  -- `if delay and args: factory.deferred.addCallback(client.pause, delay)`
  abbrev pub pauses_before : List Text → List (Callback F)
  pauses_before [] = []
  pauses_before (w ∷ args) = pauses delay

  abbrev pub add_calls :
      List (Callback F) → Option (Parsed (List (Callback F))) → Option (Parsed (List (Callback F)))
  add_calls calls none = none
  add_calls calls (some (ok more)) = some (ok (calls ++ more))
  add_calls calls (some usage_error) = some usage_error
  add_calls calls (some uncaught) = some uncaught

  -- `build_command_list`, for at most `fuel` rounds of its loop; `none` when they do not suffice.
  unfoldable pub build : ℕ → List Text → Option (Parsed (List (Callback F)))
  unfolding run_word
  build fuel [] = some (ok [])
  build zero (cmd ∷ args) = none
  build (suc fuel) (cmd ∷ args) = elim (run_word cmd args) [
    | usage_error ↦ some usage_error
    | uncaught ↦ some uncaught
    | ok (calls, rest) ↦ add_calls (calls ++ pauses_before rest) (build fuel rest)
  ]
