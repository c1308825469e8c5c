-- ===== src/Command/Options.antt =====
-- Options that vncdotool/command.py settles: the cursor's mode, the words after `--`, and the bounds of a fuzz and a blur.
use awc_remote.Base.{
  ℕ, ◌≡◌, refl, ◌∙◌, Bool, true, false, Option, none, some, List, [], ◌∷◌, leb, if◌then◌else◌,
}
use awc_remote.Base.Int.{ℤ, pos, negsuc}
use awc_remote.DoTool.Keys.{Text, text, eq_text}
use awc_remote.DoTool.{CursorMode, omit, server, local}

abbrev pub same_mode : CursorMode → CursorMode → Bool
same_mode omit omit = true
same_mode server server = true
same_mode local local = true
same_mode omit server = false
same_mode omit local = false
same_mode server omit = false
same_mode server local = false
same_mode local omit = false
same_mode local server = false

-- The flag and `--cursor`, where it is given.
abbrev pub with_flag : CursorMode → Option CursorMode → Option CursorMode
with_flag mode none = some mode
with_flag mode (some cursor) = if same_mode cursor mode then some mode else none

abbrev pub or_omit : Option CursorMode → CursorMode
or_omit none = omit
or_omit (some cursor) = cursor

-- `resolve_cursor_mode`, of `--localcursor`, `--nocursor` and `--cursor`; `none` is a usage error.
unfoldable pub resolve_cursor_mode : Bool → Bool → Option CursorMode → Option CursorMode
resolve_cursor_mode true true cursor = none
resolve_cursor_mode true false cursor = with_flag local cursor
resolve_cursor_mode false true cursor = with_flag omit cursor
resolve_cursor_mode false false cursor = some (or_omit cursor)

-- `trailing_args`
unfoldable pub trailing_args : List Text → List Text
trailing_args [] = []
trailing_args (arg ∷ args) = if eq_text arg (text "--") then args else arg ∷ args

-- `--blur` and `--fuzz` of vncdo, and the level of `--jpeg-quality`; `none` is a usage error.
abbrev pub lossy_blur : ℤ
lossy_blur = pos 2

unfoldable pub blur_of : Option ℤ → Option ℤ → Option ℤ
blur_of jpeg_quality (some (negsuc n)) = none
blur_of jpeg_quality (some (pos n)) = some (pos n)
blur_of none none = some (pos 0)
blur_of (some level) none = some lossy_blur

unfoldable pub fuzz_option : ℤ → Option ℕ
fuzz_option (negsuc n) = none
fuzz_option (pos n) = if leb n 255 then some n else none

-- What a request for a mode says of the options, and the mode that they settle.
abbrev pub Agrees : Bool → CursorMode → CursorMode → Type 0
Agrees true asked mode = asked ≡ mode
Agrees false asked mode = Unit

abbrev pub AgreesWith : Option CursorMode → CursorMode → Type 0
AgreesWith none mode = Unit
AgreesWith (some cursor) mode = cursor ≡ mode

same : (a b : CursorMode) → same_mode a b ≡ true → a ≡ b
same omit omit h = refl
same server server h = refl
same local local h = refl
same omit server h = absurd cc
same omit local h = absurd cc
same server omit h = absurd cc
same server local h = absurd cc
same local omit h = absurd cc
same local server h = absurd cc

picked :
    (b : Bool) (a mode : CursorMode)
    → (if b then some a else none) ≡ some mode
    → (b ≡ true) × (a ≡ mode)
picked true a mode h = (refl, cc)
picked false a mode h = absurd cc

flagged :
    (flag : CursorMode) (cursor : Option CursorMode) (mode : CursorMode)
    → with_flag flag cursor ≡ some mode
    → (flag ≡ mode) × AgreesWith cursor mode
flagged flag none mode h = (cc, tt)
flagged flag (some c) mode h =
    let p = picked (same_mode c flag) flag mode h in (p.1, same c flag p.0 ∙ p.1)

-- If the cursor's mode is settled at all, then each option that was given asks for that mode.
pub resolve_cursor_mode-Agrees :
    (localcursor nocursor : Bool) (cursor : Option CursorMode) (mode : CursorMode)
    → resolve_cursor_mode localcursor nocursor cursor ≡ some mode
    → Agrees localcursor local mode × Agrees nocursor omit mode × AgreesWith cursor mode
unfolding resolve_cursor_mode
resolve_cursor_mode-Agrees true true cursor mode h = absurd cc
resolve_cursor_mode-Agrees true false cursor mode h =
    let f = flagged local cursor mode h in (f.0, tt, f.1)
resolve_cursor_mode-Agrees false true cursor mode h =
    let f = flagged omit cursor mode h in (tt, f.0, f.1)
resolve_cursor_mode-Agrees false false none mode h = (tt, tt, tt)
resolve_cursor_mode-Agrees false false (some c) mode h = (tt, tt, cc)
