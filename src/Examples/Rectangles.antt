-- ===== src/Examples/Rectangles.antt =====
-- A rectangle of two pixels (vncdotool/decoders/).
use awc_remote.RectBuffer.{RectBuffer}
use awc_remote.Failure.{err, out_of_fuel}
use awc_remote.Decoders.Zrle.{Source, zrle_rect}
use awc_remote.Decoders.Zrle.Ends.{zrle_rect-out_of_fuel}
use awc_remote.Base.{◌≢◌, some, Option, length, ◌*◌, ◌≡◌, refl, true, false, none, [], ◌∷◌}
use awc_remote.Generator.{Gen, done}
use awc_remote.Decoders.Sizes.Streams.{HasRgb}
use mathlib.Core.Path.{subst}
use awc_remote.Client.{Picture, Client, Library, Rect}
use awc_remote.PixelFormat.{bypp, default_format}
use awc_remote.Decoders.Base.{Outcome, pasted}
use awc_remote.Decoders.Tight.{tight_decode}
use awc_remote.Connection.{Conn, new_connection}
use awc_remote.Connection.Dispatch.{decoder_for}
use awc_remote.Decoders.Sizes.{IsSized}
use awc_remote.Decoders.Sizes.Simple.{decoder_for-IsSized}

-- Pillow makes one red pixel of every JPEG here.
abbrev one_picture : Library
one_picture = record {
  decompress = λ calls block limit. none;
  open_jpeg = λ block. some (record { width = 1; height = 1; rgb = 255 ∷ 0 ∷ 0 ∷ [] });
  triple_des = λ key block. block;
  urandom = λ n. [];
  ard_response = λ credentials generator key_len modulus server_key. [];
  certificates_load = λ host. true;
  typed_username = [];
  typed_password = [];
}

abbrev IsRgb : Option Picture → Type 0
IsRgb none = Unit {0}
IsRgb (some image) = length image.rgb ≡ image.width * image.height * 3

of_one_picture :
    (image : Picture)
    → some (record { width = 1; height = 1; rgb = 255 ∷ 0 ∷ 0 ∷ [] }) ≡ some image
    → length image.rgb ≡ image.width * image.height * 3
of_one_picture image e = subst IsRgb e refl

one_picture-HasRgb : HasRgb one_picture
one_picture-HasRgb = record { rgb = λ block image e. of_one_picture image e }

abbrev two_pixels : Rect
two_pixels = record { x = 3; y = 4; width = 2; height = 1 }

tight_two_pixels :
    IsSized two_pixels default_format (tight_decode one_picture two_pixels default_format)
unfolding decoder_for
tight_two_pixels =
    decoder_for-IsSized one_picture 7 (tight_decode one_picture) one_picture-HasRgb refl two_pixels
      default_format

abbrev idle : Conn
idle = new_connection (record {
  shared = false;
  username = none;
  password = none;
  tls_hostname = none;
  tls_allow_unverified = false;
})

-- What a decoder does once it has its two pixels of four bytes.
abbrev eight_bytes : Gen Client Outcome
eight_bytes = done (pasted (1 ∷ 2 ∷ 3 ∷ 0 ∷ 4 ∷ 5 ∷ 6 ∷ 0 ∷ []) default_format)

-- A run of 257 pixels for a rectangle of one: refused, since the run is too long.
abbrev long_run : Source
long_run = record { bytes = 128 ∷ 7 ∷ 255 ∷ 1 ∷ []; cbytes = 1; coffset = 0; bypp = 1 }

abbrev one_pixel : RectBuffer
one_pixel = record {
  width = 1;
  height = 1;
  bypp = 1;
  backing = 0 ∷ [];
  nbytes = 1;
  whole = none;
  covered = false;
}

long_run_ends : zrle_rect long_run one_pixel ≢ err out_of_fuel
long_run_ends = zrle_rect-out_of_fuel long_run one_pixel
