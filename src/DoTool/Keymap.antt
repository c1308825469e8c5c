-- ===== src/DoTool/Keymap.antt =====
-- vncdotool/keys.py: `KEYMAP`, with the keysyms of `Key`.
use awc_remote.Base.{ℕ, Option, none, some, List, [], ◌∷◌, if◌then◌else◌}
use awc_remote.DoTool.Keys.{Text, text, eq_text}

unfoldable pub keymap : List (Text × ℕ)
keymap =
    (text "bsp", 0xFF08)
    ∷ (text "tab", 0xFF09)
    ∷ (text "return", 0xFF0D)
    ∷ (text "enter", 0xFF0D)
    ∷ (text "esc", 0xFF1B)
    ∷ (text "ins", 0xFF63)
    ∷ (text "delete", 0xFFFF)
    ∷ (text "del", 0xFFFF)
    ∷ (text "home", 0xFF50)
    ∷ (text "end", 0xFF57)
    ∷ (text "pgup", 0xFF55)
    ∷ (text "pgdn", 0xFF56)
    ∷ (text "left", 0xFF51)
    ∷ (text "up", 0xFF52)
    ∷ (text "right", 0xFF53)
    ∷ (text "down", 0xFF54)
    ∷ (text "slash", 0x005C)
    ∷ (text "bslash", 0x005C)
    ∷ (text "fslash", 0x002F)
    ∷ (text "spacebar", 0x0020)
    ∷ (text "space", 0x0020)
    ∷ (text "sb", 0x0020)
    ∷ (text "f1", 0xFFBE)
    ∷ (text "f2", 0xFFBF)
    ∷ (text "f3", 0xFFC0)
    ∷ (text "f4", 0xFFC1)
    ∷ (text "f5", 0xFFC2)
    ∷ (text "f6", 0xFFC3)
    ∷ (text "f7", 0xFFC4)
    ∷ (text "f8", 0xFFC5)
    ∷ (text "f9", 0xFFC6)
    ∷ (text "f10", 0xFFC7)
    ∷ (text "f11", 0xFFC8)
    ∷ (text "f12", 0xFFC9)
    ∷ (text "f13", 0xFFCA)
    ∷ (text "f14", 0xFFCB)
    ∷ (text "f15", 0xFFCC)
    ∷ (text "f16", 0xFFCD)
    ∷ (text "f17", 0xFFCE)
    ∷ (text "f18", 0xFFCF)
    ∷ (text "f19", 0xFFD0)
    ∷ (text "f20", 0xFFD1)
    ∷ (text "lshift", 0xFFE1)
    ∷ (text "shift", 0xFFE1)
    ∷ (text "rshift", 0xFFE2)
    ∷ (text "lctrl", 0xFFE3)
    ∷ (text "ctrl", 0xFFE3)
    ∷ (text "rctrl", 0xFFE4)
    ∷ (text "lmeta", 0xFFE7)
    ∷ (text "meta", 0xFFE7)
    ∷ (text "rmeta", 0xFFE8)
    ∷ (text "lalt", 0xFFE9)
    ∷ (text "alt", 0xFFE9)
    ∷ (text "ralt", 0xFFEA)
    ∷ (text "scrlk", 0xFF14)
    ∷ (text "sysrq", 0xFF15)
    ∷ (text "numlk", 0xFF7F)
    ∷ (text "caplk", 0xFFE5)
    ∷ (text "pause", 0xFF13)
    ∷ (text "lsuper", 0xFFEB)
    ∷ (text "super", 0xFFEB)
    ∷ (text "rsuper", 0xFFEC)
    ∷ (text "lhyper", 0xFFED)
    ∷ (text "hyper", 0xFFED)
    ∷ (text "rhyper", 0xFFEE)
    ∷ (text "kp0", 0xFFB0)
    ∷ (text "kp1", 0xFFB1)
    ∷ (text "kp2", 0xFFB2)
    ∷ (text "kp3", 0xFFB3)
    ∷ (text "kp4", 0xFFB4)
    ∷ (text "kp5", 0xFFB5)
    ∷ (text "kp6", 0xFFB6)
    ∷ (text "kp7", 0xFFB7)
    ∷ (text "kp8", 0xFFB8)
    ∷ (text "kp9", 0xFFB9)
    ∷ (text "kpenter", 0xFF8D)
    ∷ (text "minus", 45)
    ∷ []

-- `dict.get`
unfoldable pub get_key : Text → List (Text × ℕ) → Option ℕ
get_key k [] = none
get_key k ((name, keysym) ∷ rest) =
    let later_key = get_key k rest in if eq_text name k then some keysym else later_key
