-- ===== src/DoTool/Keys.antt =====
-- vncdotool/keys.py: `KEYMAP`, with the keysyms of `Key`. A text is a list of code points.
use Prim.Native.Char.{code}
use Prim.Native.String.{String, [], ◌∷◌}
use awc_remote.Base.{ℕ, Bool, List, ◌==◌, ◌&&◌, true, false}

abbrev pub Text : Type 0
Text = List ℕ

-- The code points of a literal.
abbrev pub text : String → Text
text [] = List.[]
text (c ∷ s) = List.◌∷◌ (code c) (text s)

abbrev pub eq_text : Text → Text → Bool
eq_text List.[] List.[] = true
eq_text (List.◌∷◌ a l) (List.◌∷◌ b m) = a == b && eq_text l m
eq_text _ _ = false
