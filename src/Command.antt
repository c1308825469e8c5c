-- ===== src/Command.antt =====
-- vncdotool/command.py: `build_command_list`, which turns the words of a command line into the calls that the
-- client is to make in turn; the loop stands in the child Build.
pub mod Build
pub mod Contents
pub mod Script
pub mod Spoken
pub mod Ends
pub mod Servers
pub mod Spelled
pub mod Status
pub mod Options
use awc_remote.Base.{
  ℕ, zero, suc, Bool, true, false, ◌&&◌, Option, none, some, List, [], ◌∷◌, ◌++◌, drop, leb, ◌==◌,
  if◌then◌else◌,
}
use awc_remote.Base.Int.{ℤ, pos, negsuc}
use awc_remote.DoTool.Keys.{Text, text, eq_text}

-- What Python and the file system answer: `int(s)` and `float(s)`, where `none` is `ValueError`; `int(f)`, which a
-- float without an integer part refuses; `f == n`; the product with 1/1000 of a count of milliseconds; `f / g`, where
-- `none` is `ZeroDivisionError`; `os.path.isfile`; what is read from a file, or from standard input for "-";
-- `list(shlex.shlex(open(cmd), posix=True))`; and `os.path.splitext(s)[1]`.
pub record Platform (F : Type 0) : Type 0 where
  pub read_int : Text → Option ℤ
  pub read_float : Text → Option F
  pub to_int : F → Option ℤ
  pub equals : F → ℤ → Bool
  pub milliseconds : ℤ → F
  pub divide : F → F → Option F
  pub is_file : Text → Bool
  pub content : Text → Option Text
  pub lex : Text → Option (List Text)
  pub extension : Text → Text

-- The calls that `factory.deferred.addCallback` is given.
pub data Callback (F : Type 0) : Type 0 where
  press_key release_key hold_key : Text → Callback F
  move_mouse drag_mouse : ℤ → ℤ → Callback F
  press_button hold_button release_button : ℤ → Callback F
  wait_for : F → Callback F
  paste_text : Text → Callback F
  capture_screen : Text → Bool → Callback F
  capture_region : Text → ℤ → ℤ → ℤ → ℤ → Callback F
  expect_screen : Text → Option ℤ → Callback F
  expect_region : Text → ℤ → ℤ → Option ℤ → Callback F
  stable_screen : F → Option ℤ → Callback F
  stable_region : F → ℤ → ℤ → ℤ → ℤ → Option ℤ → Callback F

-- A result, `CommandParseError`, or an exception of another kind.
pub data Parsed (A : Type 0) : Type 0 where
  ok : A → Parsed A
  usage_error uncaught : Parsed A

pub data Verb : Type 0 where
  key_verb keydown_verb keyup_verb move_verb click_verb mousedown_verb mouseup_verb type_verb : Verb
  typefile_verb pastefile_verb capture_verb expect_verb rcapture_verb rexpect_verb stable_verb :
      Verb
  rstable_verb pause_verb drag_verb : Verb

-- The tests of the loop on `cmd`, as a table.
unfoldable pub verbs : List (Text × Verb)
verbs =
    (text "key", key_verb)
    ∷ (text "kdown", keydown_verb)
    ∷ (text "keydown", keydown_verb)
    ∷ (text "kup", keyup_verb)
    ∷ (text "keyup", keyup_verb)
    ∷ (text "move", move_verb)
    ∷ (text "mousemove", move_verb)
    ∷ (text "click", click_verb)
    ∷ (text "mdown", mousedown_verb)
    ∷ (text "mousedown", mousedown_verb)
    ∷ (text "mup", mouseup_verb)
    ∷ (text "mouseup", mouseup_verb)
    ∷ (text "type", type_verb)
    ∷ (text "typefile", typefile_verb)
    ∷ (text "pastefile", pastefile_verb)
    ∷ (text "capture", capture_verb)
    ∷ (text "expect", expect_verb)
    ∷ (text "rcapture", rcapture_verb)
    ∷ (text "rexpect", rexpect_verb)
    ∷ (text "stable", stable_verb)
    ∷ (text "rstable", rstable_verb)
    ∷ (text "pause", pause_verb)
    ∷ (text "sleep", pause_verb)
    ∷ (text "drag", drag_verb)
    ∷ []

abbrev pub find_verb : List (Text × Verb) → Text → Option Verb
find_verb [] cmd = none
find_verb ((name, verb) ∷ rest) cmd = if eq_text cmd name then some verb else find_verb rest cmd

unfoldable pub verb_of : Text → Option Verb
unfolding verbs
verb_of cmd = find_verb verbs cmd

-- `SUPPORTED_FORMATS`
abbrev pub supported_formats : List Text
supported_formats = text "png" ∷ text "jpg" ∷ text "jpeg" ∷ text "gif" ∷ text "bmp" ∷ []

abbrev pub one_of : List Text → Text → Bool
one_of [] t = false
one_of (u ∷ us) t = if eq_text u t then true else one_of us t

-- `content.replace("\r\n", "\n")`
unfoldable pub replace_crlf : Text → Text
replace_crlf [] = []
replace_crlf (c ∷ []) = c ∷ []
replace_crlf (c ∷ d ∷ rest) =
    let shorter = replace_crlf rest in
    let longer = replace_crlf (d ∷ rest) in if c == 13 && d == 10 then 10 ∷ shorter else c ∷ longer

abbrev pub is_fuzz : ℤ → Bool
is_fuzz (pos n) = leb n 255
is_fuzz (negsuc n) = false

-- A key of `typefile`: a line's end, a tab and "-" are named.
abbrev pub file_key : ℕ → Text
file_key c =
    if c == 10
    then text "enter"
    else if c == 9
    then text "tab"
    else if c == 45
    then text "minus"
    else c ∷ []

module _ {F : Type 0} where
  -- `if delay: factory.deferred.addCallback(client.pause, delay)`
  abbrev pub pauses : Option F → List (Callback F)
  pauses none = []
  pauses (some delay) = wait_for delay ∷ []

  -- The keys of `type`: each character is one, and "-" is named.
  unfoldable pub typed : Option F → Text → List (Callback F)
  typed delay [] = []
  typed delay (c ∷ cs) =
      let key = (if c == 45 then text "minus" else c ∷ []) in
      press_key key ∷ pauses delay ++ typed delay cs

  -- The keys of `typefile`, which leaves a carriage return out.
  unfoldable pub typed_file : Option F → Text → List (Callback F)
  typed_file delay [] = []
  typed_file delay (c ∷ cs) =
      let rest = typed_file delay cs in
      if c == 13 then rest else press_key (file_key c) ∷ pauses delay ++ rest

-- The calls that a word adds, and the words that are left.
abbrev pub Taken : Type 0 → Type 0
Taken F = Parsed (List (Callback F) × List Text)

module _ {F A : Type 0} (platform : Platform F) where
  -- `args.pop(0)`, which raises `IndexError` on an empty list, and its readings as a number.
  abbrev pub pop : List Text → (Text → List Text → Parsed A) → Parsed A
  pop [] f = uncaught
  pop (w ∷ args) f = f w args

  abbrev pub or_raise : {B : Type 0} → Option B → (B → Parsed A) → Parsed A
  or_raise none f = uncaught
  or_raise (some b) f = f b

  abbrev pub pop_int : List Text → (ℤ → List Text → Parsed A) → Parsed A
  pop_int args f = pop args (λ w rest. or_raise (platform.read_int w) (λ n. f n rest))

  abbrev pub pop_float : List Text → (F → List Text → Parsed A) → Parsed A
  pop_float args f = pop args (λ w rest. or_raise (platform.read_float w) (λ x. f x rest))

  -- The range is that of the integer, which the float equals where it is tested.
  abbrev pub checked_fuzz : F → ℤ → (ℤ → Parsed A) → Parsed A
  checked_fuzz x n f = if platform.equals x n && is_fuzz n then f n else usage_error

  abbrev pub fuzz_of : Option F → Text → List Text → (Option ℤ → List Text → Parsed A) → Parsed A
  fuzz_of none w args f = f none (w ∷ args)
  fuzz_of (some x) w args f =
      or_raise (platform.to_int x) (λ n. checked_fuzz x n (λ m. f (some m) args))

  -- `_trailing_fuzz`
  unfoldable pub trailing_fuzz : List Text → (Option ℤ → List Text → Parsed A) → Parsed A
  trailing_fuzz [] f = f none []
  trailing_fuzz (w ∷ args) f = fuzz_of (platform.read_float w) w args f
