-- ===== src/Proxy/Recorder.antt =====
-- What vncdotool/loggingproxy.py writes down of a client's keys and pointer, as the words of the command line that replays
-- them, which `shlex.quote` and `shlex` carry unchanged.
use awc_remote.Base.{
  ℕ, suc, ◌<◌, ◌≤◌, ◌≡◌, ◌⊎◌, refl, sym, ap, ◌∙◌, Bool, true, false, ◌&&◌, Option, none, some, List,
  [], ◌∷◌, ◌++◌, length, ltb, lt→ltb, ◌==◌, has_bit, count_up, if◌then◌else◌, inl, inr, arith,
  &&_both, ==_iff,
}
use mathlib.Core.Path.{subst}
use awc_remote.Failure.{ok}
use awc_remote.DoTool.{Wishes, decode_key, key_code, key_codes, pieces, split_dash}
use awc_remote.DoTool.Keys.{Text, text, eq_text}
use awc_remote.DoTool.Keymap.{keymap, get_key}

-- `REVERSE_MAP.get(key)`: of the names of a keysym the last one stays.
abbrev or_this : Option Text → Bool → Text → Option Text
or_this (some later_name) found name = some later_name
or_this none true name = some name
or_this none false name = none

unfoldable pub reverse_name : ℕ → List (Text × ℕ) → Option Text
reverse_name key [] = none
reverse_name key ((name, keysym) ∷ rest) = or_this (reverse_name key rest) (keysym == key) name

-- `REVERSE_MAP.get(key, chr(key))`; `chr`, which is called in any case, refuses what is no code point.
abbrev or_char : ℕ → Option Text → Text
or_char key none = key ∷ []
or_char key (some name) = name

unfoldable pub key_name : ℕ → Option Text
unfolding reverse_name
key_name key = if ltb key 1114112 then some (or_char key (reverse_name key keymap)) else none

-- `handle_keyEvent`: the words of the line, of which `elapsed` is the time since the last one.
unfoldable pub record_key : Text → ℕ → Bool → Option (List Text)
unfolding key_name
record_key elapsed key down = elim (key_name key) [
  | none ↦ none
  | some name ↦
      some (text "pause" ∷ elapsed ∷ (if down then text "keydown" else text "keyup") ∷ name ∷ [])
]

-- The clicks of `handle_pointerEvent`: one for each bit that is set, with `show` for `"%d"`.
unfoldable pub clicks : (ℕ → Text) → ℕ → List ℕ → List Text
clicks show mask [] = []
clicks show mask (button ∷ buttons) =
    let rest = clicks show mask buttons in
    if has_bit mask button then text "click" ∷ show (suc button) ∷ rest else rest

abbrev pub same_point : Option (ℕ × ℕ) → ℕ → ℕ → Bool
same_point none x y = false
same_point (some (a, b)) x y = a == x && b == y

-- `handle_pointerEvent`, with the last position; the position after it is that of the event.
unfoldable pub record_pointer : (ℕ → Text) → Text → Option (ℕ × ℕ) → ℕ → ℕ → ℕ → List Text
unfolding clicks
record_pointer show elapsed mouse x y mask =
    let moves = (if same_point mouse x y then [] else text "move" ∷ show x ∷ show y ∷ []) in
    text "pause" ∷ elapsed ∷ moves ++ clicks show mask (count_up 0 8)

-- A name of the table stands for itself and for its keysym.
abbrev is_code : ℕ → Option ℕ → Bool
is_code v none = false
is_code v (some w) = w == v

abbrev is_alone : Text → List Text → Bool
is_alone name (a ∷ []) = eq_text name a
is_alone name _ = false

abbrev is_long : Text → Bool
is_long (a ∷ b ∷ rest) = true
is_long _ = false

entry_ok : Text × ℕ → Bool
entry_ok (name, v) =
    is_long name && (is_alone name (split_dash [] name) && is_code v (get_key name keymap))

all_ok : List (Text × ℕ) → Bool
all_ok [] = true
all_ok (e ∷ es) = entry_ok e && all_ok es

keymap_ok : all_ok keymap ≡ true
unfolding all_ok entry_ok keymap get_key split_dash
keymap_ok = refl

eq_text_sound : (a b : Text) → eq_text a b ≡ true → a ≡ b
eq_text_sound [] [] h = refl
eq_text_sound [] (d ∷ ds) h = absurd cc
eq_text_sound (c ∷ cs) [] h = absurd cc
eq_text_sound (c ∷ cs) (d ∷ ds) h =
    let p = &&_both (c == d) (eq_text cs ds) h in
    ap (λ (x : ℕ). x ∷ cs) ((==_iff c d).0 p.0) ∙ ap (λ (l : Text). d ∷ l) (eq_text_sound cs ds p.1)

alone_sound : (name : Text) (l : List Text) → is_alone name l ≡ true → l ≡ name ∷ []
alone_sound name [] h = absurd cc
alone_sound name (a ∷ []) h = ap (λ (t : Text). t ∷ []) (sym (eq_text_sound name a h))
alone_sound name (a ∷ b ∷ l) h = absurd cc

code_sound : (v : ℕ) (o : Option ℕ) → is_code v o ≡ true → o ≡ some v
code_sound v none h = absurd cc
code_sound v (some w) h = ap some ((==_iff w v).0 h)

-- A name that decodes to a keysym.
abbrev Decodes : Text → ℕ → Type 0
Decodes name key = (pieces name ≡ name ∷ []) × (key_code name ≡ ok key)

not_one : (n : ℕ) → suc (suc n) == 1 ≡ false
not_one n = ground arith

long_pieces : (name : Text) → is_long name ≡ true → pieces name ≡ split_dash [] name
long_pieces [] h = absurd cc
long_pieces (a ∷ []) h = absurd cc
long_pieces (a ∷ b ∷ rest) h = rw (not_one (length rest))

named_code : (name : Text) (v : ℕ) → get_key name keymap ≡ some v → key_code name ≡ ok v
unfolding key_code
named_code name v e = rw (e)

entry_Decodes : (name : Text) (v : ℕ) → entry_ok (name, v) ≡ true → Decodes name v
unfolding entry_ok
entry_Decodes name v h =
    let p = &&_both (is_long name) _ h in
    let q = &&_both (is_alone name (split_dash [] name)) (is_code v (get_key name keymap)) p.1 in
    (
      long_pieces name p.0 ∙ alone_sound name (split_dash [] name) q.0,
      named_code name v (code_sound v _ q.1),
    )

entry_named :
    (this : Text) (v : ℕ) (name : Text) (key : ℕ)
    → entry_ok (this, v) ≡ true
    → this ≡ name
    → v ≡ key
    → Decodes name key
entry_named this v name key h e f =
    subst (λ (t : Text). Decodes t key) e
      (subst (λ (k : ℕ). Decodes this k) f (entry_Decodes this v h))

or_this-cases :
    (later : Option Text) (found : Bool) (this name : Text)
    → or_this later found this ≡ some name
    → (later ≡ some name) ⊎ ((found ≡ true) × (this ≡ name))
or_this-cases (some n) found this name h = inl h
or_this-cases none true this name h = inr (refl, cc)
or_this-cases none false this name h = absurd cc

found_Decodes :
    (key : ℕ) (es : List (Text × ℕ)) (name : Text)
    → all_ok es ≡ true
    → reverse_name key es ≡ some name
    → Decodes name key
unfolding reverse_name all_ok
found_Decodes key [] name h e = absurd cc
found_Decodes key ((this, v) ∷ es) name h e =
    let p = &&_both (entry_ok (this, v)) (all_ok es) h in
    elim (or_this-cases (reverse_name key es) (v == key) this name e) [
      | inl l ↦ found_Decodes key es name p.1 l
      | inr f ↦ entry_named this v name key p.0 f.1 ((==_iff v key).0 f.0)
    ]

long_other : (name : Text) (key : ℕ) → is_long name ≡ true → eq_text name (key ∷ []) ≡ false
long_other [] key h = absurd cc
long_other (a ∷ []) key h = absurd cc
long_other (a ∷ b ∷ rest) key h = ground arith

beyond : (key : ℕ) → 1114112 ≤ key → ltb key 1114112 ≡ false
beyond key h = ground arith

not_named : (key : ℕ) (es : List (Text × ℕ)) → all_ok es ≡ true → get_key (key ∷ []) es ≡ none
unfolding get_key all_ok entry_ok
not_named key [] h = refl
not_named key ((this, v) ∷ es) h =
    let p = &&_both (entry_ok (this, v)) (all_ok es) h in
    let q = &&_both (is_long this) _ p.0 in rw (long_other this key q.0) (not_named key es p.1)

char_code : (key : ℕ) → get_key (key ∷ []) keymap ≡ none → key_code (key ∷ []) ≡ ok key
unfolding key_code
char_code key e = rw (key_code, e)

named_Decodes :
    (key : ℕ) (o : Option Text) → reverse_name key keymap ≡ o → Decodes (or_char key o) key
named_Decodes key none e = (refl, char_code key (not_named key keymap keymap_ok))
named_Decodes key (some name) e = found_Decodes key keymap name keymap_ok e

decoded :
    (wishes : Wishes) (name : Text) (key : ℕ)
    → wishes.force_caps ≡ false
    → Decodes name key
    → decode_key wishes name ≡ ok (key ∷ [])
unfolding decode_key key_codes
decoded wishes name key f d = rw (f, d.0, d.1)

-- Each keysym that is a code point is recorded under a name, which a tool that does not force capitals decodes to that keysym
-- alone; one beyond the code points is not recorded.
pub decode_key-key_name :
    (wishes : Wishes) (key : ℕ)
    → wishes.force_caps ≡ false
    → (key < 1114112
        → (name : Text) × (key_name key ≡ some name) × (decode_key wishes name ≡ ok (key ∷ [])))
      × (1114112 ≤ key → key_name key ≡ none)
unfolding key_name
decode_key-key_name wishes key f = (
  λ h. (
    or_char key (reverse_name key keymap),
    rw (lt→ltb key 1114112 h),
    decoded wishes _ key f (named_Decodes key (reverse_name key keymap) refl),
  ),
  λ h. rw (beyond key h),
)
