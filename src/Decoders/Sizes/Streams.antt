-- ===== src/Decoders/Sizes/Streams.antt =====
-- Tight, whose rectangles come whole (vncdotool/decoders/tight.py).
use awc_remote.Base.{
  ℕ, ◌+◌, ◌*◌, ◌/◌, ◌%◌, ◌≡◌, refl, sym, ap, ◌∙◌, true, not, ◌&&◌, Bytes, Option, none, some, map,
  length, slice, count_up, byte_at, ltb, ◌==◌, has_bit, arith, if◌then◌else◌, length-repeat,
  &&_both, ==_iff,
}
use awc_remote.Failure.{Result, ok, err, Guarantees, Guarantees-if, returns, raises, decode_error}
use awc_remote.PixelFormat.{PixelFormat, bypp, tpixel_bytes, tpixel_format}
use awc_remote.Generator.{◌>>=◌}
use awc_remote.Generator.Ensures.{
  Ensures, gives, stops, asks, looks, changes, Ensures-bind, Ensures-read, Ensures-if,
  Ensures-guard, Ensures-lift, Ensures-modify,
}
use awc_remote.Client.{Rect, Library, Picture}
use awc_remote.Decoders.Base.{Paste}
use awc_remote.Decoders.Tight.{
  min_to_compress, max_width, output_format, compact_length, exactly, decompress_block, basic_data,
  basic_copy, basic_palette, decode_basic, jpeg_rect, tight_rect, tight_decode,
}
use awc_remote.Decoders.Sizes.{HasPixels, IsSized}
use awc_remote.Decoders.Sizes.Buffers.{require_fits-Ensures}
use awc_remote.Decoders.Sizes.Packed.{area, length-colours, length-colour, unpalette-Guarantees}

-- What is relied on of Pillow: a picture in RGB takes three bytes to a pixel.
pub record HasRgb (lib : Library) : Type 0 where
  pub rgb :
      (block : Bytes) (image : Picture)
      → lib.open_jpeg block ≡ some image
      → length image.rgb ≡ image.width * image.height * 3

abbrev Fills : ℕ → ℕ → Paste → Type 0
Fills w h paste = length paste.pixels ≡ w * h * bypp paste.pixel_format

bypp-output_format : (f : PixelFormat) → bypp (output_format f) ≡ tpixel_bytes f
unfolding output_format tpixel_bytes bypp
bypp-output_format f = ground arith

exactly-Guarantees :
    (size : ℕ) (r : Result Bytes) → Guarantees (λ b. length b ≡ size) (exactly size r)
exactly-Guarantees size (ok out) =
    Guarantees-if (length out == size) (λ e. returns ((==_iff _ _).0 e)) (λ _. raises decode_error)
exactly-Guarantees size (err e) = raises e

module _ (lib : Library) (m : ℕ) where
  compact_length-Ensures : Ensures (HasPixels m) (λ _. Unit {0}) compact_length
  unfolding compact_length
  compact_length-Ensures = Ensures-read 1 (λ first l.
      Ensures-if (not (has_bit (byte_at first 0) 7)) (λ _. gives tt)
        (λ _. Ensures-read 1 (λ second k.
          Ensures-if (not (has_bit (byte_at second 0) 7)) (λ _. gives tt)
            (λ _. Ensures-read 1 (λ third j. gives tt)))))

  decompress_block-Ensures :
      (stream_id : ℕ) (block : Bytes) (size : ℕ)
      → Ensures (HasPixels m) (λ b. length b ≡ size) (decompress_block lib stream_id block size)
  unfolding decompress_block
  decompress_block-Ensures stream_id block size =
      looks (λ c i. changes _ (λ d k. k) (Ensures-lift (exactly-Guarantees size _)))

  basic_data-Ensures :
      (stream_id size : ℕ)
      → Ensures (HasPixels m) (λ b. length b ≡ size) (basic_data lib stream_id size)
  unfolding basic_data
  basic_data-Ensures stream_id size =
      Ensures-if (size == 0) (λ e. gives (sym ((==_iff _ _).0 e)))
        (λ _.
          Ensures-if (ltb size min_to_compress) (λ _. asks size (λ b l. gives l))
            (λ _.
              Ensures-bind compact_length-Ensures
                (λ n u. Ensures-read n (λ block l. decompress_block-Ensures stream_id block size))))

  basic_copy-Fills :
      (stream_id w h : ℕ) (f : PixelFormat)
      → Ensures (HasPixels m) (Fills w h) (basic_copy lib stream_id w h f)
  unfolding basic_copy
  basic_copy-Fills stream_id w h f =
      Ensures-bind (basic_data-Ensures stream_id (h * (w * tpixel_bytes f))) (λ pixels len.
        gives (len ∙ area w h (tpixel_bytes f) ∙ ap (λ n. w * h * n) (sym (bypp-output_format f))))

  many :
      (raw head : Bytes) (f : PixelFormat)
      → length (
          map
            (λ i. slice raw (i * tpixel_bytes f) (tpixel_bytes f))
            (count_up 0 (byte_at head 0 + 1)))
        ≡ byte_at head 0 + 1
  many raw head f = length-colours raw (tpixel_bytes f) 0 (byte_at head 0 + 1)

  row_size :
      (w m n : ℕ)
      → m ≡ n
      → (if m == 2 then (w + 7) / 8 else w) ≡ (if n == 2 then (w + 7) / 8 else w)
  row_size w m n e = ap (λ k. if k == 2 then (w + 7) / 8 else w) e

  basic_palette-Fills :
      (stream_id w h : ℕ) (f : PixelFormat)
      → Ensures (HasPixels m) (Fills w h) (basic_palette lib stream_id w h f)
  unfolding basic_palette
  basic_palette-Fills stream_id w h f = Ensures-read 1 (λ head l.
      Ensures-read ((byte_at head 0 + 1) * tpixel_bytes f) (λ raw len.
        Ensures-bind (basic_data-Ensures stream_id _) (λ indices size.
          Ensures-bind
            (Ensures-lift (
              unpalette-Guarantees indices _ w h _ (tpixel_bytes f) size
                (row_size w _ _ (sym (many raw head f))) (omega (arith, many raw head f))
                (λ i lt.
                  length-colour raw (tpixel_bytes f) 0 (byte_at head 0 + 1) i
                    (len ∙ ap (λ k. k * tpixel_bytes f) (omega arith))
                    (omega (arith, many raw head f)))))
            (λ pixels e. gives (e ∙ ap (λ n. w * h * n) (sym (bypp-output_format f)))))))

  decode_basic-Fills :
      (control w h : ℕ) (f : PixelFormat)
      → Ensures (HasPixels m) (Fills w h) (decode_basic lib control w h f)
  unfolding decode_basic
  decode_basic-Fills control w h f =
      Ensures-bind
        (Ensures-if {P = λ _. Unit {0}} (has_bit control 2) (λ _. asks 1 (λ b l. gives tt))
          (λ _. gives tt))
        (λ filter u.
          Ensures-if (byte_at filter 0 == 0) (λ _. basic_copy-Fills (control % 4) w h f)
            (λ _.
              Ensures-if (byte_at filter 0 == 1) (λ _. basic_palette-Fills (control % 4) w h f)
                (λ _. stops decode_error)))

  jpeg-Fills :
      (o : Option Picture) (w h : ℕ)
      → ((image : Picture) → o ≡ some image → length image.rgb ≡ image.width * image.height * 3)
      → Guarantees (Fills w h) (elim o [
        | none ↦ err decode_error
        | some image ↦
            if image.width == w && image.height == h
            then ok (record { pixels = image.rgb; pixel_format = tpixel_format })
            else err decode_error
      ])
  unfolding bypp
  jpeg-Fills none w h law = raises decode_error
  jpeg-Fills (some image) w h law =
      Guarantees-if (image.width == w && image.height == h)
        (λ e.
          let same : (image.width == w ≡ true) × (image.height == h ≡ true) =
            &&_both (image.width == w) (image.height == h) e in
          returns (
            law image refl
            ∙ cc ((==_iff image.width w).0 same.0, (==_iff image.height h).0 same.1)))
        (λ _. raises decode_error)

  jpeg_rect-Fills : HasRgb lib → (w h : ℕ) → Ensures (HasPixels m) (Fills w h) (jpeg_rect lib w h)
  unfolding jpeg_rect ◌>>=◌
  jpeg_rect-Fills law w h = looks (λ c i.
      Ensures-guard (not c.tight.jpeg_offered) decode_error (λ _.
        Ensures-bind compact_length-Ensures (λ n u.
          Ensures-read n
            (λ block l. Ensures-lift (jpeg-Fills (lib.open_jpeg block) w h (law.rgb block))))))

  tight_rect-Fills :
      HasRgb lib
      → (w h : ℕ) (f : PixelFormat) → Ensures (HasPixels m) (Fills w h) (tight_rect lib w h f)
  unfolding tight_rect
  tight_rect-Fills law w h f = Ensures-read 1 (λ head l.
      Ensures-modify _ (λ c k. k)
        (Ensures-if (byte_at head 0 / 16 == 8)
          (λ _. Ensures-read _ (λ pixel len.
            gives (
              length-repeat (w * h) pixel
              ∙ ap (λ n. w * h * n) (len ∙ sym (bypp-output_format f)))))
          (λ _. Ensures-guard (ltb max_width w) decode_error (λ _.
            Ensures-if (byte_at head 0 / 16 == 9) (λ _. jpeg_rect-Fills law w h)
              (λ _.
                Ensures-guard (has_bit (byte_at head 0 / 16) 3) decode_error
                  (λ _. decode_basic-Fills (byte_at head 0 / 16) w h f))))))

-- Tight returns the rectangle's bytes, whatever zlib makes of the data.
pub tight_decode-IsSized :
    (lib : Library)
    → HasRgb lib
    → (rect : Rect) (format : PixelFormat) → IsSized rect format (tight_decode lib rect format)
unfolding IsSized tight_decode
tight_decode-IsSized lib law rect format =
    Ensures-bind (require_fits-Ensures rect.width rect.height) (λ u t.
      Ensures-bind (tight_rect-Fills lib (bypp format) law rect.width rect.height format)
        (λ paste e. gives e))
