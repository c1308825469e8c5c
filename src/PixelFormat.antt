-- ===== src/PixelFormat.antt =====
-- vncdotool/pixelformat.py: the PIXEL_FORMAT structure and the widths of the packed pixels of ZRLE
-- (CPIXEL) and Tight (TPIXEL).
pub mod Struct
pub mod Widths
pub mod RawModes
use awc_remote.Base.{
  ℕ, zero, suc, ◌+◌, ◌-◌, ◌*◌, ◌/◌, ◌%◌, ◌^◌, Bool, true, false, not, ◌&&◌, Option, none, some,
  List, [], ◌∷◌, ◌++◌, Bytes, byte_at, u16_be, u16_at, ltb, leb, ◌==◌, if◌then◌else◌,
}
use awc_remote.Base.Int.{ℤ, pos, sub_ℕ, eq_ℤ}

pub record PixelFormat : Type 0 where
  pub bpp : ℕ
  pub depth : ℕ
  pub bigendian : Bool
  pub truecolor : Bool
  pub redmax : ℕ
  pub greenmax : ℕ
  pub bluemax : ℕ
  pub redshift : ℕ
  pub greenshift : ℕ
  pub blueshift : ℕ

-- The format of a `PixelFormat()` that names no field.
abbrev pub default_format : PixelFormat
default_format = record {
  bpp = 32;
  depth = 24;
  bigendian = false;
  truecolor = true;
  redmax = 255;
  greenmax = 255;
  bluemax = 255;
  redshift = 0;
  greenshift = 8;
  blueshift = 16;
}

unfoldable pub bypp : PixelFormat → ℕ
bypp f = (7 + f.bpp) / 8

abbrev pub flag_byte : Bool → ℕ
flag_byte b = if b then 1 else 0

-- `Struct("!BB??HHHBBBxxx")`, on fields that fit their widths.
unfoldable pub to_bytes : PixelFormat → Bytes
to_bytes f =
    f.bpp
    ∷ f.depth
    ∷ flag_byte f.bigendian
    ∷ flag_byte f.truecolor
    ∷ (u16_be f.redmax
        ++ (u16_be f.greenmax
            ++ (u16_be f.bluemax ++ (f.redshift ∷ f.greenshift ∷ f.blueshift ∷ 0 ∷ 0 ∷ 0 ∷ []))))

unfoldable pub from_bytes : Bytes → PixelFormat
from_bytes b = record {
  bpp = byte_at b 0;
  depth = byte_at b 1;
  bigendian = not (byte_at b 2 == 0);
  truecolor = not (byte_at b 3 == 0);
  redmax = u16_at b 4;
  greenmax = u16_at b 6;
  bluemax = u16_at b 8;
  redshift = byte_at b 10;
  greenshift = byte_at b 11;
  blueshift = byte_at b 12;
}

-- `int.bit_length`, by halving; `fuel` bounds the number of halvings.
pub bit_length_from : ℕ → ℕ → ℕ
bit_length_from zero n = 0
bit_length_from (suc fuel) n = elim (n == 0) [
  | true ↦ 0
  | false ↦ suc (bit_length_from fuel (n / 2))
]

unfoldable pub bit_length : ℕ → ℕ
unfolding bit_length_from
bit_length n = bit_length_from n n

-- `_channel_widths(f) == (r, g, b)`.
unfoldable pub has_widths : PixelFormat → ℕ → ℕ → ℕ → Bool
has_widths f r g b =
    bit_length f.redmax == r && (bit_length f.greenmax == g && bit_length f.bluemax == b)

pub data Placement : Type 0 where
  low high : Placement

unfoldable pub cpixel_placement : PixelFormat → Option Placement
cpixel_placement f =
    if leb (f.redshift + bit_length f.redmax) 24
      && (leb (f.greenshift + bit_length f.greenmax) 24
          && leb (f.blueshift + bit_length f.bluemax) 24)
    then some low
    else if leb 8 f.redshift && (leb 8 f.greenshift && leb 8 f.blueshift)
    then some high
    else none

abbrev pub is_some {ℓ} : {A : Type ℓ} → Option A → Bool
is_some none = false
is_some (some a) = true

abbrev pub is_low : Option Placement → Bool
is_low (some low) = true
is_low _ = false

unfoldable pub cpixel_bytes : PixelFormat → ℕ
unfolding bypp cpixel_placement
cpixel_bytes f = if f.truecolor && (f.bpp == 32 && is_some (cpixel_placement f)) then 3 else bypp f

-- `low != bigendian` on Booleans.
abbrev pub differs : Bool → Bool → Bool
differs a b = if a then not b else b

unfoldable pub cpixel_offset : PixelFormat → ℕ
unfolding cpixel_bytes
cpixel_offset f =
    if not (cpixel_bytes f == 3)
    then 0
    else if differs (is_low (cpixel_placement f)) f.bigendian
    then 0
    else bypp f - 3

unfoldable pub tpixel_bytes : PixelFormat → ℕ
unfolding bypp has_widths
tpixel_bytes f =
    if f.truecolor && (f.bpp == 32 && (f.depth == 24 && has_widths f 8 8 8)) then 3 else bypp f

abbrev pub tpixel_format : PixelFormat
tpixel_format = record {
  bpp = 24;
  depth = 24;
  bigendian = false;
  truecolor = true;
  redmax = 255;
  greenmax = 255;
  bluemax = 255;
  redshift = 0;
  greenshift = 8;
  blueshift = 16;
}

-- The `PIXEL_FORMATS` that a user can ask for by name.
abbrev pub bgrx8888 : PixelFormat
bgrx8888 = record {
  bpp = 32;
  depth = 24;
  bigendian = false;
  truecolor = true;
  redmax = 255;
  greenmax = 255;
  bluemax = 255;
  redshift = 16;
  greenshift = 8;
  blueshift = 0;
}

abbrev pub rgbx8888 : PixelFormat
rgbx8888 = default_format

abbrev pub rgb565 : PixelFormat
rgb565 = record {
  bpp = 16;
  depth = 16;
  bigendian = false;
  truecolor = true;
  redmax = 31;
  greenmax = 63;
  bluemax = 31;
  redshift = 11;
  greenshift = 5;
  blueshift = 0;
}
