-- ===== src/Command/Contents.antt =====
-- The texts that `type`, `typefile` and `pastefile` of vncdotool/command.py are given, as a user thinks of them.
use awc_remote.Base.{
  ℕ, ◌≡◌, refl, ap, ◌∙◌, false, Option, none, some, List, [], ◌∷◌, ◌++◌, map, ◌==◌, if◌then◌else◌,
  arith, Bool-cases, inl, inr,
}
use awc_remote.DoTool.Keys.{Text, text}
use awc_remote.Command.{
  Callback, press_key, wait_for, replace_crlf, pauses, typed, typed_file, file_key,
}

-- The keys with a name in a text that is typed, and in a file.
abbrev pub text_key : ℕ → Text
text_key c = if c == 45 then text "minus" else c ∷ []

abbrev pub content_key : ℕ → Text
content_key c = if c == 9 then text "tab" else if c == 10 then text "enter" else text_key c

abbrev pub without_returns : Text → Text
without_returns [] = []
without_returns (c ∷ cs) = let rest = without_returns cs in if c == 13 then rest else c ∷ rest

-- The keys one after the other, with a wait after each where a delay is asked for.
abbrev pub presses : {F : Type 0} → Option F → List Text → List (Callback F)
presses delay [] = []
presses none (k ∷ ks) = press_key k ∷ presses none ks
presses (some d) (k ∷ ks) = press_key k ∷ wait_for d ∷ presses (some d) ks

-- Lines with the same end, and what follows the last end.
abbrev pub ended_by : Text → List Text → Text → Text
ended_by end [] last = last
ended_by end (l ∷ ls) last = l ++ (end ++ ended_by end ls last)

abbrev pub NoReturn : Text → Type 0
NoReturn [] = Unit
NoReturn (c ∷ cs) = (c == 13 ≡ false) × NoReturn cs

abbrev pub EachNoReturn : List Text → Type 0
EachNoReturn [] = Unit
EachNoReturn (l ∷ ls) = NoReturn l × EachNoReturn ls

same_key : (c : ℕ) → file_key c ≡ content_key c
same_key c = ground arith

module _ {F : Type 0} where
  press_more :
      (delay : Option F) (k : Text) (ks : List Text)
      → press_key k ∷ (pauses delay ++ presses delay ks) ≡ presses delay (k ∷ ks)
  press_more none k ks = refl
  press_more (some d) k ks = refl

  pub typed-presses : (delay : Option F) (k : Text) → typed delay k ≡ presses delay (map text_key k)
  unfolding typed
  typed-presses none [] = refl
  typed-presses (some d) [] = refl
  typed-presses delay (c ∷ cs) =
      ap (λ (r : List (Callback F)). press_key (text_key c) ∷ (pauses delay ++ r))
        (typed-presses delay cs)
      ∙ press_more delay (text_key c) (map text_key cs)

  pub typed_file-presses :
      (delay : Option F) (k : Text)
      → typed_file delay k ≡ presses delay (map content_key (without_returns k))
  unfolding typed_file
  typed_file-presses none [] = refl
  typed_file-presses (some d) [] = refl
  typed_file-presses delay (c ∷ cs) = elim (Bool-cases (c == 13)) [
    | inl e ↦ rw (e) (typed_file-presses delay cs)
    | inr e ↦ rw (e, same_key c, typed_file-presses delay cs) (press_more delay (content_key c) _)
  ]

kept : (c : ℕ) (l : Text) → c == 13 ≡ false → replace_crlf (c ∷ l) ≡ c ∷ replace_crlf l
unfolding replace_crlf
kept c [] h = refl
kept c (d ∷ l) h = rw (h)

line_kept : (l rest : Text) → NoReturn l → replace_crlf (l ++ rest) ≡ l ++ replace_crlf rest
line_kept [] rest h = refl
line_kept (c ∷ l) rest (e, h) = kept c (l ++ rest) e ∙ ap (λ (t : Text). c ∷ t) (line_kept l rest h)

last_kept : (l : Text) → NoReturn l → replace_crlf l ≡ l
unfolding replace_crlf
last_kept [] h = refl
last_kept (c ∷ l) (e, h) = kept c l e ∙ ap (λ (t : Text). c ∷ t) (last_kept l h)

end_replaced : (rest : Text) → replace_crlf (13 ∷ 10 ∷ rest) ≡ 10 ∷ replace_crlf rest
unfolding replace_crlf
end_replaced rest = refl

pub replace_crlf-ended_by :
    (ls : List Text) (last : Text)
    → EachNoReturn ls
    → NoReturn last
    → replace_crlf (ended_by (13 ∷ 10 ∷ []) ls last) ≡ ended_by (10 ∷ []) ls last
replace_crlf-ended_by [] last h n = last_kept last n
replace_crlf-ended_by (l ∷ ls) last (h, more) n =
    line_kept l (13 ∷ 10 ∷ ended_by (13 ∷ 10 ∷ []) ls last) h
    ∙ ap (λ (t : Text). l ++ t)
        (end_replaced (ended_by (13 ∷ 10 ∷ []) ls last)
          ∙ ap (λ (t : Text). 10 ∷ t) (replace_crlf-ended_by ls last more n))
