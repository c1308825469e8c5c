-- ===== src/PixelFormat/RawModes.antt =====
-- vncdotool/pixelformat.py: the Pillow raw mode of a pixel format, and what its quantization may
-- cost. `UnsupportedPixelFormat` is `none`.
use awc_remote.Base.{
  ℕ, ◌-◌, ◌/◌, ◌%◌, ◌^◌, Bool, true, false, not, ◌&&◌, Option, none, some, List, [], ◌∷◌, ◌==◌,
  if◌then◌else◌,
}
use awc_remote.Base.Int.{ℤ, pos, sub_ℕ, eq_ℤ}
use awc_remote.PixelFormat.{PixelFormat, bit_length, has_widths}

pub data Channel : Type 0 where
  red green blue unused : Channel

-- `shifts == (r, g, b)`.
unfoldable pub has_shifts : PixelFormat → ℕ → ℕ → ℕ → Bool
has_shifts f r g b = f.redshift == r && (f.greenshift == g && f.blueshift == b)

-- The dict of `_byte_positions`, which a big-endian shift past the pixel gives a negative key.
abbrev pub Positions : Type 0
Positions = List (ℤ × Channel)

unfoldable pub position_get : Positions → ℤ → Channel
position_get [] i = unused
position_get ((j, c) ∷ rest) i = if eq_ℤ j i then c else position_get rest i

unfoldable pub position_in : Positions → ℤ → Bool
position_in [] i = false
position_in ((j, c) ∷ rest) i = if eq_ℤ j i then true else position_in rest i

-- One round of the loop of `_byte_positions`.
unfoldable pub place_channel : PixelFormat → ℕ → Positions → ℕ → Channel → Option Positions
unfolding position_in
place_channel f nbytes placed shift channel =
    let at = if f.bigendian then sub_ℕ (nbytes - 1) (shift / 8) else pos (shift / 8) in
    if not (shift % 8 == 0)
    then none
    else if position_in placed at
    then none
    else some ((at, channel) ∷ placed)

infixl 5 ◌>>=◌
abbrev pub ◌>>=◌ {ℓ κ} : {A : Type ℓ} {B : Type κ} → Option A → (A → Option B) → Option B
none >>= k = none
some a >>= k = k a

unfoldable pub byte_positions : PixelFormat → ℕ → Option Positions
unfolding place_channel
byte_positions f nbytes = do
  r ← place_channel f nbytes [] f.redshift red
  g ← place_channel f nbytes r f.greenshift green
  place_channel f nbytes g f.blueshift blue

pub data RawMode : Type 0 where
  rgbx bgrx xrgb xbgr rgb bgr bgr16 rgb16 bgr15 rgb15 rgb4b : RawMode

-- `mode in _32BPP_MODES` and `mode in _24BPP_MODES`, on the joined letters.
unfoldable pub mode_32 : Channel → Channel → Channel → Channel → Option RawMode
mode_32 red green blue unused = some rgbx
mode_32 blue green red unused = some bgrx
mode_32 unused red green blue = some xrgb
mode_32 unused blue green red = some xbgr
mode_32 _ _ _ _ = none

unfoldable pub mode_24 : Channel → Channel → Channel → Option RawMode
mode_24 red green blue = some rgb
mode_24 blue green red = some bgr
mode_24 _ _ _ = none

-- The table of 16-bit layouts.
unfoldable pub mode_16 : PixelFormat → Option RawMode
unfolding has_widths has_shifts
mode_16 f =
    if has_widths f 5 6 5 && has_shifts f 11 5 0
    then some bgr16
    else if has_widths f 5 6 5 && has_shifts f 0 5 11
    then some rgb16
    else if has_widths f 5 5 5 && has_shifts f 10 5 0
    then some bgr15
    else if has_widths f 5 5 5 && has_shifts f 0 5 10
    then some rgb15
    else if has_widths f 4 4 4 && has_shifts f 0 4 8
    then some rgb4b
    else none

unfoldable pub layout_32 : PixelFormat → Option RawMode
unfolding byte_positions position_get mode_32
layout_32 f = do
  p ← byte_positions f 4
  mode_32 (position_get p (pos 0)) (position_get p (pos 1)) (position_get p (pos 2))
      (position_get p (pos 3))

unfoldable pub layout_24 : PixelFormat → Option RawMode
unfolding byte_positions position_get mode_24
layout_24 f = do
  p ← byte_positions f 3
  mode_24 (position_get p (pos 0)) (position_get p (pos 1)) (position_get p (pos 2))

unfoldable pub raw_mode : PixelFormat → Option RawMode
unfolding layout_32 layout_24 mode_16 has_widths
raw_mode f =
    if not f.truecolor
    then none
    else if f.bpp == 32
    then (if has_widths f 8 8 8 then layout_32 f else none)
    else if f.bpp == 24
    then (if has_widths f 8 8 8 then layout_24 f else none)
    else if f.bpp == 16
    then (if f.bigendian then none else mode_16 f)
    else none

-- `255 >> width` for each channel, red first.
unfoldable pub channel_tolerance : PixelFormat → Option (ℕ × ℕ × ℕ)
channel_tolerance f =
    if not f.truecolor
    then none
    else some (
      255 / 2 ^ bit_length f.redmax,
      255 / 2 ^ bit_length f.greenmax,
      255 / 2 ^ bit_length f.bluemax,
    )
