-- ===== src/DoTool.antt =====
-- vncdotool/client.py: `VNCDoToolClient`, which drives a connection for the command line and the API.
-- A value of `Result` stands for the object after a method, or the exception that left it.
pub mod Keys
pub mod Keymap
pub mod Chords
pub mod Mouse
pub mod Formats
pub mod Screen
pub mod Refresh
pub mod Stable
pub mod Expect
use awc_remote.Base.{
  ℕ, zero, suc, ◌+◌, ◌-◌, ◌*◌, ◌/◌, ◌^◌, Bool, true, false, not, ◌&&◌, ◌||◌, Bytes, Option, none,
  some, List, [], ◌∷◌, ◌++◌, map, length, ltb, leb, ◌==◌, has_bit, max, range_step, if◌then◌else◌,
}
use mathlib.Core.List.{reverse}
use awc_remote.Failure.{Result, ok, err, value_error, ◌>>>=◌}
use awc_remote.PixelFormat.{PixelFormat, rgbx8888}
use awc_remote.PixelFormat.RawModes.{RawMode, raw_mode}
use awc_remote.Client.{Client, vnc_protocol_error, lose_connection, emit}
use awc_remote.Outgoing.{set_pixel_format, set_encodings, key_event, pointer_event}
use awc_remote.DoTool.Keys.{Text, text, eq_text}
use awc_remote.DoTool.Keymap.{keymap, get_key}

-- vncdotool/cursor.py: `CursorMode`
pub data CursorMode : Type 0 where
  omit server local : CursorMode

-- What the factory and the command line ask for; `is_upper` is `str.isupper`.
pub record Wishes : Type 0 where
  pub cursor_mode : CursorMode
  pub pseudodesktop : Bool
  pub last_rect : Bool
  pub qemu_extended_key : Bool
  pub fence : Bool
  pub force_caps : Bool
  pub encodings : Option (List ℕ)
  pub pixel_format : Option PixelFormat
  pub jpeg_quality : Option ℕ
  pub is_upper : Text → Bool

pub record Tool : Type 0 where
  pub client : Client
  pub x : ℕ
  pub y : ℕ
  pub buttons : ℕ
  pub image_mode : RawMode
  pub wishes : Wishes

abbrev lift_client : Tool → Result Client → Result Tool
lift_client t (ok c) = ok (record t { client = c })
lift_client t (err e) = err e

-- `s.split("-")`; 45 is the dash.
unfoldable pub split_dash : Text → Text → List Text
split_dash piece [] = reverse piece ∷ []
split_dash piece (c ∷ cs) =
    let cut = split_dash [] cs in
    let longer = split_dash (c ∷ piece) cs in if c == 45 then reverse piece ∷ cut else longer

abbrev pub begins : Text → Text → Bool
begins [] t = true
begins (c ∷ cs) [] = false
begins (c ∷ cs) (d ∷ ds) = c == d && begins cs ds

-- `part in whole`
abbrev pub part_of : Text → Text → Bool
part_of part [] = begins part []
part_of part (c ∷ cs) = begins part (c ∷ cs) || part_of part cs

abbrev pub special_keys_us : Text
special_keys_us = text "~!@#$%^&*()_+{}|:\"<>?"

-- `KEYMAP.get(k) or ord(k)`: `ord` refuses a text that is not one character.
unfoldable pub key_code : Text → Result ℕ
unfolding keymap get_key
key_code k = elim (get_key k keymap) [
  | some code ↦ ok code
  | none ↦ elim k [
    | [] ↦ err value_error
    | c ∷ rest ↦ elim rest [ [] ↦ ok c | d ∷ more ↦ err value_error ]
  ]
]

unfoldable pub key_codes : List Text → Result (List ℕ)
unfolding key_code
key_codes [] = ok []
key_codes (k ∷ ks) = key_code k >>>= λ c. key_codes ks >>>= λ cs. ok (c ∷ cs)

-- `"shift-%c" % key`, which wants one character.
abbrev pub shifted : Text → Result Text
shifted k = if length k == 1 then ok (text "shift-" ++ k) else err value_error

abbrev pub pieces : Text → List Text
pieces k = if length k == 1 then k ∷ [] else split_dash [] k

-- `_decodeKey`
unfoldable pub decode_key : Wishes → Text → Result (List ℕ)
unfolding split_dash key_codes
decode_key wishes k =
    (if wishes.force_caps && (wishes.is_upper k || part_of k special_keys_us)
      then shifted k
      else ok k)
    >>>= λ full. key_codes (pieces full)

-- A loop of `keyEvent`.
unfoldable pub send_keys : Bool → List ℕ → Client → Result Client
unfolding key_event
send_keys down [] c = ok c
send_keys down (k ∷ ks) c = key_event k down c >>>= λ d. send_keys down ks d

unfoldable pub key_down : Text → Tool → Result Tool
unfolding decode_key send_keys
key_down k t = decode_key t.wishes k >>>= λ keys. lift_client t (send_keys true keys t.client)

unfoldable pub key_up : Text → Tool → Result Tool
unfolding decode_key send_keys
key_up k t = decode_key t.wishes k >>>= λ keys. lift_client t (send_keys false keys t.client)

unfoldable pub key_press : Text → Tool → Result Tool
unfolding decode_key send_keys
key_press k t = decode_key t.wishes k >>>= λ keys.
    lift_client t (send_keys true keys t.client >>>= λ c. send_keys false (reverse keys) c)

-- `buttons |= 1 << k` and `buttons &= ~(1 << k)`.
abbrev pub set_bit : ℕ → ℕ → ℕ
set_bit n k = if has_bit n k then n else n + 2 ^ k

abbrev pub clear_bit : ℕ → ℕ → ℕ
clear_bit n k = if has_bit n k then n - 2 ^ k else n

-- `pointerEvent` at the last position.
unfoldable pub send_pointer : Tool → Result Tool
unfolding pointer_event
send_pointer t = lift_client t (pointer_event t.x t.y t.buttons t.client)

-- A shift by -1 is a ValueError.
unfoldable pub mouse_down : ℕ → Tool → Result Tool
unfolding send_pointer
mouse_down zero t = err value_error
mouse_down (suc k) t = send_pointer (record t { buttons = set_bit t.buttons k })

unfoldable pub mouse_up : ℕ → Tool → Result Tool
unfolding send_pointer
mouse_up zero t = err value_error
mouse_up (suc k) t = send_pointer (record t { buttons = clear_bit t.buttons k })

unfoldable pub mouse_press : ℕ → Tool → Result Tool
unfolding mouse_down mouse_up
mouse_press button t = mouse_down button t >>>= λ u. mouse_up button u

unfoldable pub mouse_move : ℕ → ℕ → Tool → Result Tool
unfolding send_pointer
mouse_move x y t = send_pointer (record t { x = x; y = y })

-- `o + d * s // dmax` for the signed distance `d` from `from` to `to`; `//` rounds down.
abbrev pub along : ℕ → ℕ → ℕ → ℕ → ℕ
along from to s dmax =
    if leb from to
    then from + (to - from) * s / dmax
    else from - ((from - to) * s + (dmax - 1)) / dmax

abbrev pub distance : ℕ → ℕ → ℕ
distance a b = if leb a b then b - a else a - b

-- The loop of `mouseDrag`, without its pauses.
unfoldable pub drag_steps : ℕ → ℕ → ℕ → ℕ → ℕ → List ℕ → Tool → Result Tool
unfolding mouse_move
drag_steps ox oy x y dmax [] t = ok t
drag_steps ox oy x y dmax (s ∷ steps) t =
    mouse_move (along ox x s dmax) (along oy y s dmax) t >>>= λ u. drag_steps ox oy x y dmax steps u

-- `mouseDrag`; `range` refuses a step of 0.
unfoldable pub mouse_drag : ℕ → ℕ → ℕ → Tool → Result Tool
unfolding drag_steps
mouse_drag x y step t =
    let dmax = max (distance t.x x) (distance t.y y) in
    if step == 0
    then err value_error
    else drag_steps t.x t.y x y dmax (range_step dmax step) t >>>= λ u. mouse_move x y u

-- `updatePointerPos`
unfoldable pub move_pointer : ℕ → ℕ → Tool → Tool
move_pointer x y t = record t { x = x; y = y }

-- The format that is asked for goes out once its raw mode is known.
unfoldable pub ask_format : PixelFormat → Tool → Tool
unfolding set_pixel_format
ask_format f t = elim (raw_mode f) [
  | none ↦ record t { client = emit lose_connection (emit vnc_protocol_error t.client) }
  | some mode ↦ record t { client = set_pixel_format f t.client; image_mode = mode }
]

-- `setImageMode`, for the format that was asked for.
unfoldable pub set_mode_for : Option PixelFormat → Tool → Tool
unfolding ask_format raw_mode
set_mode_for (some f) t = ask_format f t
set_mode_for none t = elim (raw_mode t.client.pixel_format) [
  | some mode ↦ record t { image_mode = mode }
  | none ↦ ask_format rgbx8888 t
]

unfoldable pub set_image_mode : Tool → Tool
unfolding set_mode_for
set_image_mode t = set_mode_for t.wishes.pixel_format t

abbrev pub is_server : CursorMode → Bool
is_server server = true
is_server omit = false
is_server local = false

abbrev pub when : Bool → List ℕ → List ℕ
when b es = if b then es else []

-- `JPEG_QUALITY_ENCODINGS[level]`; -32 is the lowest level, and a level past 9 is an IndexError.
abbrev pub quality_encodings : Option ℕ → Result (List ℕ)
quality_encodings none = ok []
quality_encodings (some level) =
    if leb level 9 then ok ((2 ^ 32 - 32 + level) ∷ []) else err value_error

-- `requested_encodings or DEFAULT_ENCODINGS`: Tight, Hextile, Raw.
abbrev pub base_encodings : Option (List ℕ) → List ℕ
base_encodings none = 7 ∷ 5 ∷ 0 ∷ []
base_encodings (some []) = 7 ∷ 5 ∷ 0 ∷ []
base_encodings (some (e ∷ es)) = e ∷ es

unfoldable pub offered_encodings : Wishes → Result (List ℕ)
offered_encodings w = quality_encodings w.jpeg_quality >>>= λ quality. ok (
    base_encodings w.encodings
    ++ (when (not (is_server w.cursor_mode)) ((2 ^ 32 - 239) ∷ (2 ^ 32 - 232) ∷ [])
        ++ (when w.pseudodesktop ((2 ^ 32 - 223) ∷ [])
            ++ (when w.last_rect ((2 ^ 32 - 224) ∷ [])
                ++ (when w.qemu_extended_key ((2 ^ 32 - 258) ∷ [])
                    ++ (when w.fence ((2 ^ 32 - 312) ∷ []) ++ quality))))))

-- `vncConnectionMade`, without the call of the factory at its end.
unfoldable pub vnc_connection_made_client : Tool → Result Tool
unfolding set_image_mode offered_encodings set_encodings
vnc_connection_made_client t =
    let u = set_image_mode t in
    offered_encodings u.wishes >>>= λ es. lift_client u (set_encodings es u.client)
