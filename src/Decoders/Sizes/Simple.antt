-- ===== src/Decoders/Sizes/Simple.antt =====
-- The decoders without a buffer of their own, and `DECODERS` of vncdotool/decoders/__init__.py.
use mathlib.Core.Path.{subst}
use awc_remote.Base.{ℕ, ◌≡◌, ◌+◌, ◌||◌, Option, none, some, u16_at, ltb, leb, ◌==◌, if_both}
use awc_remote.Failure.{decode_error, value_error}
use awc_remote.PixelFormat.{PixelFormat, bypp}
use awc_remote.Generator.{Gen}
use awc_remote.Generator.Ensures.{
  Ensures, gives, looks, changes, stops, Ensures-bind, Ensures-read, Ensures-if, Ensures-guard,
}
use awc_remote.Client.{Client, Rect, Library, max_desktop_size}
use awc_remote.Decoders.Base.{decode_on_client, decode_control}
use awc_remote.Decoders.Simple.{
  raw_decode, copy_rect, copy_rect_decode, cursor, cursor_decode, desktop_size, desktop_size_decode,
  pointer_pos, pointer_pos_decode, extended_key, qemu_extended_key_decode,
}
use awc_remote.Connection.Dispatch.{Decoder, decoder_for, pseudo}
use awc_remote.Decoders.Sizes.{IsSized, HasPixels}
use awc_remote.Decoders.Sizes.Buffers.{require_fits-Ensures}
use awc_remote.Decoders.Sizes.Rectangles.{
  rre_decode-IsSized, corre_decode-IsSized, hextile_decode-IsSized,
}
use awc_remote.Decoders.Sizes.Streams.{HasRgb, tight_decode-IsSized}
use awc_remote.Decoders.Sizes.Tiles.{zrle_decode-IsSized}

raw_decode-IsSized :
    (rect : Rect) (format : PixelFormat) → IsSized rect format (raw_decode rect format)
unfolding IsSized raw_decode
raw_decode-IsSized rect format =
    Ensures-bind (require_fits-Ensures rect.width rect.height)
      (λ u t. Ensures-read _ (λ pixels len. gives len))

module _ (rect : Rect) (format : PixelFormat) where
  decode_on_client-IsSized :
      (d : Rect → PixelFormat → Gen Client (Unit {0}))
      → Ensures (HasPixels (bypp format)) (λ _. Unit {0}) (d rect format)
      → IsSized rect format (decode_on_client d rect format)
  unfolding IsSized decode_on_client
  decode_on_client-IsSized d h = Ensures-bind h (λ u t. gives tt)

  decode_control-IsSized :
      (d : Rect → Gen Client (Unit {0}))
      → Ensures (HasPixels (bypp format)) (λ _. Unit {0}) (d rect)
      → IsSized rect format (decode_control d rect format)
  unfolding IsSized decode_control
  decode_control-IsSized d h = Ensures-bind h (λ u t. gives tt)

  copy_rect_decode-IsSized : IsSized rect format (copy_rect_decode rect format)
  unfolding copy_rect_decode
  copy_rect_decode-IsSized = decode_on_client-IsSized copy_rect (
      Ensures-read 4 (λ block len.
        Ensures-bind {P = λ _. Unit}
          (looks (λ c k.
            Ensures-if
              (ltb c.width (u16_at block 0 + rect.width)
                || ltb c.height (u16_at block 2 + rect.height))
              (λ _. stops decode_error) (λ _. gives tt)))
          (λ u t. changes _ (λ c k. k) (gives tt))))

  cursor_decode-IsSized : IsSized rect format (cursor_decode rect format)
  unfolding cursor_decode
  cursor_decode-IsSized =
      decode_on_client-IsSized cursor
        (Ensures-read _ (λ block len. changes _ (λ c k. k) (gives tt)))

  desktop_size_decode-IsSized : IsSized rect format (desktop_size_decode rect format)
  unfolding desktop_size_decode
  desktop_size_decode-IsSized = decode_control-IsSized desktop_size (
      Ensures-guard (leb max_desktop_size rect.width || leb max_desktop_size rect.height)
        value_error (λ _. changes _ (λ c k. k) (gives tt)))

  pointer_pos_decode-IsSized : IsSized rect format (pointer_pos_decode rect format)
  unfolding pointer_pos_decode
  pointer_pos_decode-IsSized = decode_control-IsSized pointer_pos (changes _ (λ c k. k) (gives tt))

  qemu_extended_key_decode-IsSized : IsSized rect format (qemu_extended_key_decode rect format)
  unfolding qemu_extended_key_decode
  qemu_extended_key_decode-IsSized =
      decode_control-IsSized extended_key (changes _ (λ c k. k) (gives tt))

abbrev AllSized : Option Decoder → Type 0
AllSized none = Unit {0}
AllSized (some decode) =
    (rect : Rect) (format : PixelFormat) → IsSized rect format (decode rect format)

registered : (lib : Library) (encoding : ℕ) → HasRgb lib → AllSized (decoder_for lib encoding)
unfolding decoder_for
registered lib encoding law =
    if_both AllSized (encoding == 0) (λ _. raw_decode-IsSized)
      (λ _.
        if_both AllSized (encoding == 1) (λ _. copy_rect_decode-IsSized)
          (λ _.
            if_both AllSized (encoding == 2) (λ _. rre_decode-IsSized)
              (λ _.
                if_both AllSized (encoding == 4) (λ _. corre_decode-IsSized)
                  (λ _.
                    if_both AllSized (encoding == 5) (λ _. hextile_decode-IsSized)
                      (λ _.
                        if_both AllSized (encoding == 16) (λ _. zrle_decode-IsSized lib)
                          (λ _.
                            if_both AllSized (encoding == 7) (λ _. tight_decode-IsSized lib law)
                              (λ _.
                                if_both AllSized (encoding == pseudo 239)
                                  (λ _. cursor_decode-IsSized)
                                  (λ _.
                                    if_both AllSized (encoding == pseudo 223)
                                      (λ _. desktop_size_decode-IsSized)
                                      (λ _.
                                        if_both AllSized (encoding == pseudo 232)
                                          (λ _. pointer_pos_decode-IsSized)
                                          (λ _.
                                            if_both AllSized (encoding == pseudo 258)
                                              (λ _. qemu_extended_key_decode-IsSized)
                                              (λ _. tt)))))))))))

-- Each decoder that is registered pastes as many bytes as the rectangle holds in the format that it
-- names, or pastes nothing: for every sequence of blocks of the lengths that it asks for, and whatever
-- zlib makes of the data, if Pillow's RGB pictures take three bytes to a pixel, and while the client's
-- pixels keep their width.
pub decoder_for-IsSized :
    (lib : Library) (encoding : ℕ) (decode : Decoder)
    → HasRgb lib
    → decoder_for lib encoding ≡ some decode
    → (rect : Rect) (format : PixelFormat) → IsSized rect format (decode rect format)
decoder_for-IsSized lib encoding decode law e = subst AllSized e (registered lib encoding law)
