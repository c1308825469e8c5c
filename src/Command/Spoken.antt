-- ===== src/Command/Spoken.antt =====
-- `build_command_list` of vncdotool/command.py on the words of command lines.
use awc_remote.Base.{
  ℕ, suc, true, arith, &&_both, Bool-cases, inl, inr, ◌==◌, if◌then◌else◌, ◌≡◌, refl, sym, ap, ◌∙◌,
  Bool, false, Option, none, some, List, [], ◌∷◌, ◌++◌,
}
use mathlib.Core.Path.{subst}
use mathlib.Core.List.{append_assoc, append-nil}
use awc_remote.Base.Int.{ℤ}
use awc_remote.DoTool.Keys.{Text, eq_text}
use awc_remote.Command.{
  Verb, verbs, one_of, Platform, Callback, Parsed, ok, usage_error, uncaught, verb_of, pauses,
  trailing_fuzz,
}
use awc_remote.Command.Build.{run_verb, run_word, pauses_before, add_calls, build}
use awc_remote.Command.Contents.{typed-presses, typed_file-presses, replace_crlf-ended_by}
use awc_remote.Command.Script.{
  Fuzz, no_fuzz, fuzz, Line, key_line, keydown_line, keyup_line, type_line, capture_line,
  click_line, mousedown_line, mouseup_line, move_line, drag_line, typefile_line, pastefile_line,
  expect_line, rcapture_line, rexpect_line, stable_line, rstable_line, pause_line, verb, names,
  wait_between, fuzz_words, fuzz_value, words, calls, ReadsFuzz, Reads, Lines, all_words, all_calls,
  EachReads, rounds,
}

same_text : (t u : Text) → eq_text t u ≡ true → t ≡ u
same_text [] [] h = refl
same_text [] (d ∷ ds) h = absurd cc
same_text (c ∷ cs) [] h = absurd cc
same_text (c ∷ cs) (d ∷ ds) h =
    let both = &&_both (c == d) (eq_text cs ds) h in
    let e : c ≡ d = ground (arith, both.0) in
    rw (e) (ap (λ (t : Text). d ∷ t) (same_text cs ds both.1))

abbrev EachNames : Verb → List Text → Type 0
EachNames v [] = Unit
EachNames v (t ∷ ts) = (verb_of t ≡ some v) × EachNames v ts

verb_named :
    (v : Verb) (ts : List Text) (cmd : Text)
    → EachNames v ts
    → one_of ts cmd ≡ true
    → verb_of cmd ≡ some v
verb_named v [] cmd h e = absurd cc
verb_named v (t ∷ ts) cmd (h, more) e = elim (Bool-cases (eq_text t cmd)) [
  | inl y ↦ ap verb_of (sym (same_text t cmd y)) ∙ h
  | inr n ↦
      verb_named v ts cmd more
        (subst (λ (b : Bool). (if b then true else one_of ts cmd) ≡ true) n e)
]

names-EachNames : {F : Type 0} (l : Line F) → EachNames (verb l) (names l)
unfolding verb_of verbs
names-EachNames (key_line k) = (refl, tt)
names-EachNames (keydown_line k) = (refl, (refl, tt))
names-EachNames (keyup_line k) = (refl, (refl, tt))
names-EachNames (type_line k) = (refl, tt)
names-EachNames (capture_line f) = (refl, tt)
names-EachNames (click_line b) = (refl, tt)
names-EachNames (mousedown_line b) = (refl, (refl, tt))
names-EachNames (mouseup_line b) = (refl, (refl, tt))
names-EachNames (move_line p) = (refl, (refl, tt))
names-EachNames (drag_line p) = (refl, tt)
names-EachNames (typefile_line f c) = (refl, tt)
names-EachNames (pastefile_line f ls last) = (refl, tt)
names-EachNames (expect_line f z) = (refl, tt)
names-EachNames (rcapture_line f p q) = (refl, tt)
names-EachNames (rexpect_line f p z) = (refl, tt)
names-EachNames (stable_line w x z) = (refl, tt)
names-EachNames (rstable_line w x p q z) = (refl, tt)
names-EachNames (pause_line w x d) = (refl, (refl, tt))

module _ {F : Type 0} where
  no_wait : (delay : Option F) → [] ≡ wait_between delay []
  no_wait none = refl
  no_wait (some d) = refl

  one_wait :
      (delay : Option F) (w : Text) (rest : List Text)
      → pauses delay ≡ wait_between delay (w ∷ rest)
  one_wait none w rest = refl
  one_wait (some d) w rest = refl

module _ {F : Type 0} (platform : Platform F) (delay : Option F) (warp : F)
    (incremental : Bool) where
  waits_between :
      (rest : List Text)
      → pauses_before platform delay warp incremental rest ≡ wait_between delay rest
  waits_between [] = no_wait delay
  waits_between (w ∷ rest) = one_wait delay w rest

  fuzz_read :
      {A : Type 0} (z : Fuzz F) (rest : List Text) (f : Option ℤ → List Text → Parsed A)
      → ReadsFuzz platform warp z rest
      → trailing_fuzz platform (fuzz_words z rest) f ≡ f (fuzz_value z) rest
  unfolding trailing_fuzz
  fuzz_read no_fuzz [] f h = refl
  fuzz_read no_fuzz (w ∷ rest) f h = rw (h)
  fuzz_read (fuzz w x n) rest f (r, i, e, b) = rw (r, i, e, b)

  line_read :
      (l : Line F) (rest : List Text)
      → Reads platform warp l rest
      → run_verb platform delay warp incremental (verb l) (words l rest)
        ≡ ok (calls delay incremental l, rest)
  unfolding run_verb
  line_read (key_line k) rest h = refl
  line_read (keydown_line k) rest h = refl
  line_read (keyup_line k) rest h = refl
  line_read (type_line k) rest h = rw (typed-presses delay k)
  line_read (capture_line f) rest h = rw (h)
  line_read (click_line b) rest h = rw (h)
  line_read (mousedown_line b) rest h = rw (h)
  line_read (mouseup_line b) rest h = rw (h)
  line_read (move_line (x, y)) rest (h, i) = rw (h, i)
  line_read (drag_line (x, y)) rest (h, i) = rw (h, i)
  line_read (typefile_line f c) rest h = rw (h, typed_file-presses delay c)
  line_read (pastefile_line f ls last) rest (h, e, n) = rw (h, replace_crlf-ended_by ls last e n)
  line_read (expect_line f z) rest h = fuzz_read z rest _ h
  line_read (rcapture_line f (x, y) (w, u)) rest ((a, b), (c, d), e) = rw (a, b, c, d, e)
  line_read (rexpect_line f (x, y) z) rest ((a, b), h) = rw (a, b) (fuzz_read z rest _ h)
  line_read (stable_line w x z) rest (e, h) = rw (e) (fuzz_read z rest _ h)
  line_read (rstable_line s t (x, y) (w, u) z) rest (e, (a, b), (c, d), h) =
      rw (e, a, b, c, d) (fuzz_read z rest _ h)
  line_read (pause_line w x d) rest (e, h) = rw (e, h)

  add_both :
      (xs ys : List (Callback F)) (o : Option (Parsed (List (Callback F))))
      → add_calls platform delay warp incremental xs
          (add_calls platform delay warp incremental ys o)
        ≡ add_calls platform delay warp incremental (xs ++ ys) o
  add_both xs ys none = refl
  add_both xs ys (some (ok zs)) = rw (append_assoc xs ys zs)
  add_both xs ys (some usage_error) = refl
  add_both xs ys (some uncaught) = refl

  add_none :
      (o : Option (Parsed (List (Callback F)))) → add_calls platform delay warp incremental [] o ≡ o
  add_none none = refl
  add_none (some (ok zs)) = refl
  add_none (some usage_error) = refl
  add_none (some uncaught) = refl

  word_read :
      (cmd : Text) (l : Line F) (rest : List Text)
      → verb_of cmd ≡ some (verb l)
      → Reads platform warp l rest
      → run_word platform delay warp incremental cmd (words l rest)
        ≡ ok (calls delay incremental l, rest)
  unfolding run_word
  word_read cmd l rest e h = rw (e) (line_read l rest h)

  word_unknown :
      (cmd : Text) (args : List Text)
      → verb_of cmd ≡ none
      → platform.is_file cmd ≡ false
      → run_word platform delay warp incremental cmd args ≡ usage_error
  unfolding run_word
  word_unknown cmd args e n = rw (e, n)

  built_unknown :
      (cmd : Text) (args : List Text) (fuel : ℕ)
      → verb_of cmd ≡ none
      → platform.is_file cmd ≡ false
      → build platform delay warp incremental (suc fuel) (cmd ∷ args) ≡ some usage_error
  unfolding build
  built_unknown cmd args fuel e n = rw (build, word_unknown cmd args e n)

  built_line :
      (cmd : Text) (l : Line F) (rest : List Text) (fuel : ℕ)
      → verb_of cmd ≡ some (verb l)
      → Reads platform warp l rest
      → build platform delay warp incremental (suc fuel) (cmd ∷ words l rest)
        ≡ add_calls platform delay warp incremental
            (calls delay incremental l ++ wait_between delay rest)
            (build platform delay warp incremental fuel rest)
  unfolding build
  built_line cmd l rest fuel e h = rw (build, word_read cmd l rest e h, waits_between rest)

  pub build-append :
      (ls : Lines F) (rest : List Text) (fuel : ℕ)
      → EachReads platform delay warp incremental ls rest
      → build platform delay warp incremental (rounds ls fuel) (all_words ls rest)
        ≡ add_calls platform delay warp incremental
            (all_calls platform delay warp incremental ls rest)
            (build platform delay warp incremental fuel rest)
  build-append [] rest fuel h = sym (add_none (build platform delay warp incremental fuel rest))
  build-append ((cmd, l) ∷ ls) rest fuel (e, h, more) =
      built_line cmd l (all_words ls rest) (rounds ls fuel)
        (verb_named (verb l) (names l) cmd (names-EachNames l) e) h
      ∙ ap (add_calls platform delay warp incremental _) (build-append ls rest fuel more)
      ∙ add_both _ (all_calls platform delay warp incremental ls rest) _

  -- On the words of any run of commands, spelled by whichever of their names, with numbers that read as they are meant,
  -- files that can be read, formats that are supported, and no number after a command that could take it for a fuzz,
  -- `build_command_list` adds just the calls of the commands, in order, with the delay between each two of them. A text is a key for each of its
  -- characters, by name where they have one, a file's the same without its carriage returns, each with the delay after it; a file that is pasted, where
  -- carriage returns stand only at the lines' ends, has its lines end in a line feed alone. A round for each command is enough.
  pub build-all_words :
      (ls : Lines F)
      → EachReads platform delay warp incremental ls []
      → build platform delay warp incremental (rounds ls 0) (all_words ls [])
        ≡ some (ok (all_calls platform delay warp incremental ls []))
  unfolding build
  build-all_words ls h =
      build-append ls [] 0 h ∙ rw (append-nil (all_calls platform delay warp incremental ls []))

  -- After any such run of commands, a word that is neither a command nor a file is a usage error.
  pub build-unknown :
      (ls : Lines F) (cmd : Text) (args : List Text) (fuel : ℕ)
      → EachReads platform delay warp incremental ls (cmd ∷ args)
      → verb_of cmd ≡ none
      → platform.is_file cmd ≡ false
      → build platform delay warp incremental (rounds ls (suc fuel)) (all_words ls (cmd ∷ args))
        ≡ some usage_error
  build-unknown ls cmd args fuel h e n =
      build-append ls (cmd ∷ args) (suc fuel) h ∙ rw (built_unknown cmd args fuel e n)
