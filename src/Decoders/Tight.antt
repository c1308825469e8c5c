-- ===== src/Decoders/Tight.antt =====
-- vncdotool/decoders/tight.py: Fill, JPEG and Basic compression over four zlib streams.
pub mod Ends
use awc_remote.Base.{
  ◌||◌, ℕ, zero, suc, ◌+◌, ◌-◌, ◌*◌, ◌/◌, ◌%◌, ◌^◌, not, ◌&&◌, Bytes, Option, none, some, List, [],
  ◌∷◌, ◌++◌, length, slice, repeat, count_up, map, byte_at, get_or, ltb, ◌==◌, has_bit,
  if◌then◌else◌,
}
use mathlib.Core.List.{flat_map}
use awc_remote.Failure.{
  Result, ok, err, decode_error, zlib_error, value_error, out_of_fuel, fold_ok,
}
use awc_remote.PixelFormat.{PixelFormat, tpixel_bytes, tpixel_format}
use awc_remote.Generator.{
  Gen, done, raise, look, change, ◌>>=◌, ◌>>◌, read, lift, raise_if, modify, gets,
}
use awc_remote.Client.{Client, Rect, Library, Stream, TightState}
use awc_remote.Decoders.Base.{Outcome, Paste, decode_whole}

abbrev pub min_to_compress : ℕ
min_to_compress = 12

abbrev pub max_width : ℕ
max_width = 2048

-- `_mono_table`: the 8 pixels of a byte, most significant bit first.
unfoldable pub mono_pixels : Bytes → Bytes → ℕ → Bytes
mono_pixels zero_pixel one_pixel byte =
    flat_map (λ bit. if has_bit byte (7 - bit) then one_pixel else zero_pixel) (count_up 0 8)

unfoldable pub output_format : PixelFormat → PixelFormat
output_format f = if tpixel_bytes f == 3 then tpixel_format else f

-- The four streams by their number.
unfoldable pub stream_at : TightState → ℕ → Option Stream
stream_at t zero = t.stream0
stream_at t (suc zero) = t.stream1
stream_at t (suc (suc zero)) = t.stream2
stream_at t (suc (suc (suc n))) = t.stream3

unfoldable pub set_stream : ℕ → Option Stream → TightState → TightState
set_stream zero s t = record t { stream0 = s }
set_stream (suc zero) s t = record t { stream1 = s }
set_stream (suc (suc zero)) s t = record t { stream2 = s }
set_stream (suc (suc (suc n))) s t = record t { stream3 = s }

-- The reset bits, which apply to every kind of rectangle.
unfoldable pub reset_streams : ℕ → TightState → TightState
reset_streams control t = record t {
  stream0 = if has_bit control 0 then none else t.stream0;
  stream1 = if has_bit control 1 then none else t.stream1;
  stream2 = if has_bit control 2 then none else t.stream2;
  stream3 = if has_bit control 3 then none else t.stream3;
}

-- `_compactLength`: `|=` of disjoint bits is a sum.
unfoldable pub compact_length : Gen Client ℕ
compact_length = do
  first ← read 1
  let low = byte_at first 0 % 128
  if not (has_bit (byte_at first 0) 7) then done low else do
    second ← read 1
    let mid = low + byte_at second 0 % 128 * 2 ^ 7
    if not (has_bit (byte_at second 0) 7)
        then done mid
        else do third ← read 1; done (mid + byte_at third 0 * 2 ^ 14)

-- The loop of `_decompress`, with the calls of the stream so far; the state goes with the outcome.
unfoldable pub inflate : ℕ → Library → Stream → Bytes → Bytes → ℕ → Result Bytes × Stream
inflate zero lib calls out tail size = (err out_of_fuel, calls)
inflate (suc fuel) lib calls out tail size =
    let remaining = size - length out in
    let next : Result Bytes × Stream = elim (lib.decompress calls tail remaining) [
      | none ↦ (err zlib_error, calls ++ (tail, remaining) ∷ [])
      | some got ↦ elim got.unconsumed_tail [
        | [] ↦ (ok (out ++ got.output), calls ++ (tail, remaining) ∷ [])
        | b ∷ rest ↦
            inflate fuel lib (calls ++ (tail, remaining) ∷ []) (out ++ got.output) (b ∷ rest) size
      ]
    ] in
    let last : Result Bytes × Stream = elim (lib.decompress calls tail 1) [
      | none ↦ (err zlib_error, calls ++ (tail, 1) ∷ [])
      | some got ↦ elim got.output [
        | [] ↦ (ok out, calls ++ (tail, 1) ∷ [])
        | b ∷ more ↦ (err decode_error, calls ++ (tail, 1) ∷ [])
      ]
    ] in
    if ltb 0 remaining then next else last

-- `len(out) != size` after the loop.
abbrev pub exactly : ℕ → Result Bytes → Result Bytes
exactly size (ok out) = if length out == size then ok out else err decode_error
exactly size (err e) = err e

abbrev pub calls_of : Option Stream → Stream
calls_of none = []
calls_of (some s) = s

-- `_decompress`. A call that leaves input behind has filled its output, so two rounds are enough.
unfoldable pub decompress_block : Library → ℕ → Bytes → ℕ → Gen Client Bytes
unfolding inflate stream_at set_stream
decompress_block lib stream_id block size = look (λ c.
    let (out, calls) = inflate 2 lib (calls_of (stream_at c.tight stream_id)) [] block size in
    change (λ d. record d { tight = set_stream stream_id (some calls) d.tight })
      (lift (exactly size out)))

-- The rows of a 1-bit rectangle, each cut to its width.
unfoldable pub mono_rows : Bytes → ℕ → ℕ → List ℕ → Bytes
mono_rows pixels padded stride rows = flat_map (λ row. slice pixels (row * padded) stride) rows

-- One channel is translated by itself; others are merged in a mode of `_BAND_MODES`, and a count without a mode is `KeyError`.
abbrev pub merge_bands : ℕ → Result Bytes → Result Bytes
merge_bands entry (err e) = err e
merge_bands entry (ok pixels) =
    if entry == 1 || entry == 2 || entry == 3 || entry == 4 then ok pixels else err value_error

-- `_unpalette`: the palette entry of each index; Pillow only interleaves the channels.
unfoldable pub unpalette : Bytes → List Bytes → ℕ → ℕ → ℕ → Result Bytes
unfolding mono_pixels mono_rows
unpalette [] palette width height row_size = ok []
unpalette (d ∷ ds) palette width height row_size =
    let indices = d ∷ ds in
    let entry = length (get_or palette 0 []) in
    let pixels = flat_map (mono_pixels (get_or palette 0 []) (get_or palette 1 [])) indices in
    if length palette == 2
    then ok (
        if row_size * 8 * entry == width * entry
        then pixels
        else mono_rows pixels (row_size * 8 * entry) (width * entry) (count_up 0 height))
    else merge_bands entry (
        fold_ok
          (λ out index.
            if ltb index (length palette)
            then ok (out ++ get_or palette index [])
            else err decode_error)
          [] indices)

-- The `data` of a Basic rectangle: nothing, raw bytes, or a compressed block.
unfoldable pub basic_data : Library → ℕ → ℕ → Gen Client Bytes
unfolding compact_length decompress_block
basic_data lib stream_id data_size =
    if data_size == 0
    then done []
    else if ltb data_size min_to_compress
    then read data_size
    else (do n ← compact_length; block ← read n; decompress_block lib stream_id block data_size)

-- `_decodeBasic` after its filter: the copy filter, and the palette filter.
unfoldable pub basic_copy : Library → ℕ → ℕ → ℕ → PixelFormat → Gen Client Paste
unfolding basic_data output_format
basic_copy lib stream_id width height format = do
  pixels ← basic_data lib stream_id (height * (width * tpixel_bytes format))
  done (record { pixels = pixels; pixel_format = output_format format })

unfoldable pub basic_palette : Library → ℕ → ℕ → ℕ → PixelFormat → Gen Client Paste
unfolding basic_data output_format unpalette
basic_palette lib stream_id width height format = do
  head ← read 1
  let palette_size = byte_at head 0 + 1
  let tbytes = tpixel_bytes format
  raw ← read (palette_size * tbytes)
  let palette = map (λ i. slice raw (i * tbytes) tbytes) (count_up 0 palette_size)
  let row_size = (if palette_size == 2 then (width + 7) / 8 else width)
  indices ← basic_data lib stream_id (height * row_size)
  pixels ← lift (unpalette indices palette width height row_size)
  done (record { pixels = pixels; pixel_format = output_format format })

unfoldable pub decode_basic : Library → ℕ → ℕ → ℕ → PixelFormat → Gen Client Paste
unfolding basic_copy basic_palette
decode_basic lib control width height format = do
  filter ← (if has_bit control 2 then read 1 else done (0 ∷ []))
  let stream_id = control % 4
  if byte_at filter 0 == 0
      then basic_copy lib stream_id width height format
      else if byte_at filter 0 == 1
      then basic_palette lib stream_id width height format
      else raise decode_error

unfoldable pub decode_jpeg : Library → Bytes → ℕ → ℕ → Result Paste
decode_jpeg lib block width height = elim (lib.open_jpeg block) [
  | none ↦ err decode_error
  | some image ↦
      if image.width == width && image.height == height
      then ok (record { pixels = image.rgb; pixel_format = tpixel_format })
      else err decode_error
]

-- `decodeRect`: the JPEG branch.
unfoldable pub jpeg_rect : Library → ℕ → ℕ → Gen Client Paste
unfolding compact_length decode_jpeg
jpeg_rect lib width height = do
  offered ← gets (λ c. c.tight.jpeg_offered)
  raise_if (not offered) decode_error
  n ← compact_length
  block ← read n
  lift (decode_jpeg lib block width height)

-- `decodeRect`
unfoldable pub tight_rect : Library → ℕ → ℕ → PixelFormat → Gen Client Paste
unfolding reset_streams output_format jpeg_rect decode_basic
tight_rect lib width height format = do
  head ← read 1
  modify (λ c. record c { tight = reset_streams (byte_at head 0) c.tight })
  let control = byte_at head 0 / 16
  if control == 8
      then (do
        pixel ← read (tpixel_bytes format)
        done (record {
          pixels = repeat (width * height) pixel;
          pixel_format = output_format format;
        }))
      else do
        raise_if (ltb max_width width) decode_error
        if control == 9 then jpeg_rect lib width height else do
          raise_if (has_bit control 3) decode_error
          decode_basic lib control width height format

unfoldable pub tight_decode : Library → Rect → PixelFormat → Gen Client Outcome
unfolding decode_whole tight_rect
tight_decode lib = decode_whole (tight_rect lib)
