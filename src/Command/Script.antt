-- ===== src/Command/Script.antt =====
-- Command lines as a user writes them, and `build_command_list` of vncdotool/command.py on their words.
use awc_remote.Base.{
  ℕ, suc, ◌≡◌, Bool, true, Option, none, some, List, [], ◌∷◌, ◌++◌, map, drop, leb,
}
use awc_remote.Base.Int.{ℤ, pos}
use awc_remote.DoTool.Keys.{Text, text}
use awc_remote.Command.{
  Platform, Callback, press_key, release_key, hold_key, move_mouse, drag_mouse, press_button,
  hold_button, release_button, wait_for, paste_text, capture_screen, capture_region, expect_screen,
  expect_region, stable_screen, stable_region, Verb, key_verb, keydown_verb, keyup_verb, move_verb,
  click_verb, mousedown_verb, mouseup_verb, type_verb, typefile_verb, pastefile_verb, capture_verb,
  expect_verb, rcapture_verb, rexpect_verb, stable_verb, rstable_verb, pause_verb, drag_verb,
  one_of,
}
use awc_remote.Command.Contents.{
  text_key, content_key, without_returns, presses, ended_by, NoReturn, EachNoReturn,
}

-- A number as it is written, with its value.
abbrev pub Written : Type 0
Written = Text × ℤ

abbrev pub Place : Type 0
Place = Written × Written

-- A fuzz, where one is given: its word, the float that it reads as, and the integer.
pub data Fuzz (F : Type 0) : Type 0 where
  no_fuzz : Fuzz F
  fuzz : Text → F → ℕ → Fuzz F

-- What a command asks for, with the words after its name.
pub data Line (F : Type 0) : Type 0 where
  key_line keydown_line keyup_line type_line capture_line : Text → Line F
  click_line mousedown_line mouseup_line : Written → Line F
  move_line drag_line : Place → Line F
  typefile_line : Text → Text → Line F
  pastefile_line : Text → List Text → Text → Line F
  expect_line : Text → Fuzz F → Line F
  rcapture_line : Text → Place → Place → Line F
  rexpect_line : Text → Place → Fuzz F → Line F
  stable_line : Text → F → Fuzz F → Line F
  rstable_line : Text → F → Place → Place → Fuzz F → Line F
  pause_line : Text → F → F → Line F

abbrev pub place : Place → List Text → List Text
place (x, y) rest = x.0 ∷ y.0 ∷ rest

module _ {F : Type 0} where
  abbrev pub verb : Line F → Verb
  verb (key_line k) = key_verb
  verb (keydown_line k) = keydown_verb
  verb (keyup_line k) = keyup_verb
  verb (type_line k) = type_verb
  verb (capture_line f) = capture_verb
  verb (click_line b) = click_verb
  verb (mousedown_line b) = mousedown_verb
  verb (mouseup_line b) = mouseup_verb
  verb (move_line p) = move_verb
  verb (drag_line p) = drag_verb
  verb (typefile_line f c) = typefile_verb
  verb (pastefile_line f ls last) = pastefile_verb
  verb (expect_line f z) = expect_verb
  verb (rcapture_line f p q) = rcapture_verb
  verb (rexpect_line f p z) = rexpect_verb
  verb (stable_line w x z) = stable_verb
  verb (rstable_line w x p q z) = rstable_verb
  verb (pause_line w x d) = pause_verb

  -- The names that the user may give it.
  abbrev pub names : Line F → List Text
  names (key_line k) = text "key" ∷ []
  names (keydown_line k) = text "kdown" ∷ text "keydown" ∷ []
  names (keyup_line k) = text "kup" ∷ text "keyup" ∷ []
  names (type_line k) = text "type" ∷ []
  names (capture_line f) = text "capture" ∷ []
  names (click_line b) = text "click" ∷ []
  names (mousedown_line b) = text "mdown" ∷ text "mousedown" ∷ []
  names (mouseup_line b) = text "mup" ∷ text "mouseup" ∷ []
  names (move_line p) = text "move" ∷ text "mousemove" ∷ []
  names (drag_line p) = text "drag" ∷ []
  names (typefile_line f c) = text "typefile" ∷ []
  names (pastefile_line f ls last) = text "pastefile" ∷ []
  names (expect_line f z) = text "expect" ∷ []
  names (rcapture_line f p q) = text "rcapture" ∷ []
  names (rexpect_line f p z) = text "rexpect" ∷ []
  names (stable_line w x z) = text "stable" ∷ []
  names (rstable_line w x p q z) = text "rstable" ∷ []
  names (pause_line w x d) = text "pause" ∷ text "sleep" ∷ []

  abbrev pub fuzz_words : Fuzz F → List Text → List Text
  fuzz_words no_fuzz rest = rest
  fuzz_words (fuzz w x n) rest = w ∷ rest

  -- The words after the command's name, in front of those of the other commands.
  abbrev pub words : Line F → List Text → List Text
  words (key_line k) rest = k ∷ rest
  words (keydown_line k) rest = k ∷ rest
  words (keyup_line k) rest = k ∷ rest
  words (type_line k) rest = k ∷ rest
  words (capture_line f) rest = f ∷ rest
  words (click_line b) rest = b.0 ∷ rest
  words (mousedown_line b) rest = b.0 ∷ rest
  words (mouseup_line b) rest = b.0 ∷ rest
  words (move_line p) rest = place p rest
  words (drag_line p) rest = place p rest
  words (typefile_line f c) rest = f ∷ rest
  words (pastefile_line f ls last) rest = f ∷ rest
  words (expect_line f z) rest = f ∷ fuzz_words z rest
  words (rcapture_line f p q) rest = f ∷ place p (place q rest)
  words (rexpect_line f p z) rest = f ∷ place p (fuzz_words z rest)
  words (stable_line w x z) rest = w ∷ fuzz_words z rest
  words (rstable_line w x p q z) rest = w ∷ place p (place q (fuzz_words z rest))
  words (pause_line w x d) rest = w ∷ rest

  abbrev pub fuzz_value : Fuzz F → Option ℤ
  fuzz_value no_fuzz = none
  fuzz_value (fuzz w x n) = some (pos n)

  -- A wait between a command and the words after it, where a delay is asked for.
  abbrev pub wait_between : Option F → List Text → List (Callback F)
  wait_between (some d) (w ∷ rest) = wait_for d ∷ []
  wait_between _ _ = []

  -- The calls that it stands for.
  abbrev pub calls : Option F → Bool → Line F → List (Callback F)
  calls delay incremental (key_line k) = press_key k ∷ []
  calls delay incremental (keydown_line k) = hold_key k ∷ []
  calls delay incremental (keyup_line k) = release_key k ∷ []
  calls delay incremental (type_line k) = presses delay (map text_key k)
  calls delay incremental (capture_line f) = capture_screen f incremental ∷ []
  calls delay incremental (click_line b) = press_button b.1 ∷ []
  calls delay incremental (mousedown_line b) = hold_button b.1 ∷ []
  calls delay incremental (mouseup_line b) = release_button b.1 ∷ []
  calls delay incremental (move_line (x, y)) = move_mouse x.1 y.1 ∷ []
  calls delay incremental (drag_line (x, y)) = drag_mouse x.1 y.1 ∷ []
  calls delay incremental (typefile_line f c) = presses delay (map content_key (without_returns c))
  calls delay incremental (pastefile_line f ls last) = paste_text (ended_by (10 ∷ []) ls last) ∷ []
  calls delay incremental (expect_line f z) = expect_screen f (fuzz_value z) ∷ []
  calls delay incremental (rcapture_line f (x, y) (w, h)) = capture_region f x.1 y.1 w.1 h.1 ∷ []
  calls delay incremental (rexpect_line f (x, y) z) = expect_region f x.1 y.1 (fuzz_value z) ∷ []
  calls delay incremental (stable_line s x z) = stable_screen x (fuzz_value z) ∷ []
  calls delay incremental (rstable_line s t (x, y) (w, h) z) =
      stable_region t x.1 y.1 w.1 h.1 (fuzz_value z) ∷ []
  calls delay incremental (pause_line w x d) = wait_for d ∷ []

-- The endings of a picture's name.
abbrev pub picture_formats : List Text
picture_formats = text "png" ∷ text "jpg" ∷ text "jpeg" ∷ text "gif" ∷ text "bmp" ∷ []

-- The words read as the numbers that they are said to be, and without a fuzz the next word is no number.
module _ {F : Type 0} (platform : Platform F) (warp : F) where
  abbrev pub ReadsInt : Written → Type 0
  ReadsInt (w, n) = platform.read_int w ≡ some n

  abbrev pub ReadsPlace : Place → Type 0
  ReadsPlace (x, y) = ReadsInt x × ReadsInt y

  abbrev pub NoNumber : List Text → Type 0
  NoNumber [] = Unit
  NoNumber (w ∷ rest) = platform.read_float w ≡ none

  abbrev pub ReadsFuzz : Fuzz F → List Text → Type 0
  ReadsFuzz no_fuzz rest = NoNumber rest
  ReadsFuzz (fuzz w x n) rest =
      (platform.read_float w ≡ some x)
      × (platform.to_int x ≡ some (pos n))
      × (platform.equals x (pos n) ≡ true)
      × (leb n 255 ≡ true)

  abbrev pub Pictures : Text → Type 0
  Pictures filename = one_of picture_formats (drop 1 (platform.extension filename)) ≡ true

  abbrev pub Reads : Line F → List Text → Type 0
  Reads (click_line b) rest = ReadsInt b
  Reads (mousedown_line b) rest = ReadsInt b
  Reads (mouseup_line b) rest = ReadsInt b
  Reads (move_line p) rest = ReadsPlace p
  Reads (drag_line p) rest = ReadsPlace p
  Reads (typefile_line f c) rest = platform.content f ≡ some c
  Reads (pastefile_line f ls last) rest =
      (platform.content f ≡ some (ended_by (13 ∷ 10 ∷ []) ls last))
      × EachNoReturn ls
      × NoReturn last
  Reads (capture_line f) rest = Pictures f
  Reads (expect_line f z) rest = ReadsFuzz z rest
  Reads (rcapture_line f p q) rest = ReadsPlace p × ReadsPlace q × Pictures f
  Reads (rexpect_line f p z) rest = ReadsPlace p × ReadsFuzz z rest
  Reads (stable_line w x z) rest = (platform.read_float w ≡ some x) × ReadsFuzz z rest
  Reads (rstable_line w x p q z) rest =
      (platform.read_float w ≡ some x) × ReadsPlace p × ReadsPlace q × ReadsFuzz z rest
  Reads (pause_line w x d) rest =
      (platform.read_float w ≡ some x) × (platform.divide x warp ≡ some d)
  Reads (key_line k) rest = Unit
  Reads (keydown_line k) rest = Unit
  Reads (keyup_line k) rest = Unit
  Reads (type_line k) rest = Unit

-- A command line: the names that the user gives the commands, and the commands.
abbrev pub Lines : Type 0 → Type 0
Lines F = List (Text × Line F)

abbrev pub all_words : {F : Type 0} → Lines F → List Text → List Text
all_words [] rest = rest
all_words ((cmd, l) ∷ ls) rest = cmd ∷ words l (all_words ls rest)

module _ {F : Type 0} (platform : Platform F) (delay : Option F) (warp : F)
    (incremental : Bool) where
  -- The calls of the commands, with the delay after each that is not the last.
  abbrev pub all_calls : Lines F → List Text → List (Callback F)
  all_calls [] rest = []
  all_calls ((cmd, l) ∷ ls) rest =
      (calls delay incremental l ++ wait_between delay (all_words ls rest)) ++ all_calls ls rest

  abbrev pub EachReads : Lines F → List Text → Type 0
  EachReads [] rest = Unit
  EachReads ((cmd, l) ∷ ls) rest =
      (one_of (names l) cmd ≡ true) × Reads platform warp l (all_words ls rest) × EachReads ls rest

-- A round for each command, after those given.
abbrev pub rounds : {F : Type 0} → Lines F → ℕ → ℕ
rounds [] more = more
rounds (l ∷ ls) more = suc (rounds ls more)
