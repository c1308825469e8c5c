-- ===== src/Decoders/Sizes/Tiles.antt =====
-- ZRLE, whose tiles are drawn into the buffer of the rectangle (vncdotool/decoders/zrle.py).
use awc_remote.Base.{
  ℕ, ◌+◌, ◌-◌, ◌*◌, ◌/◌, ◌%◌, Bool, not, ◌&&◌, Bytes, Option, none, some, List, [], ◌∷◌, length,
  ltb, ◌==◌, has_bit,
}
use awc_remote.Failure.{
  Result, Guarantees, Guarantees-if, Guarantees-bind, Guarantees-after, returns, raises,
  decode_error, zlib_error, ok, ◌>>>=◌,
}
use awc_remote.PixelFormat.{PixelFormat}
use awc_remote.RectBuffer.{RectBuffer, blit}
use awc_remote.Generator.{Gen, raise}
use awc_remote.Generator.Ensures.{Ensures, stops, looks, changes, Ensures-lift, Ensures-read}
use awc_remote.Client.{Client, Rect, Library, Inflated}
use awc_remote.Decoders.Zrle.{
  check, Source, byte_from, read_palette, rle_tile, rle_pixels, raw_tile, take_at, expand_cpixels,
  index_bits, packed_rows, packed_tile, zrle_tile, zrle_tiles, zrle_rect, zrle_pixels, zrle_decode,
}
use awc_remote.Decoders.Sizes.{IsSized, HasPixels}
use awc_remote.Decoders.Sizes.Buffers.{IsBuffer, blit-IsBuffer, fill-IsBuffer, decode_into-IsSized}

module _ (w h n : ℕ) where
  abbrev IsDrawn : RectBuffer × ℕ → Type 0
  IsDrawn r = IsBuffer w h n r.0

  Guarantees-check :
      (bad : Bool) {r : Result (RectBuffer × ℕ)}
      → Guarantees IsDrawn r
      → Guarantees IsDrawn (check bad r)
  Guarantees-check bad g = Guarantees-if bad (λ _. raises decode_error) (λ _. g)

  blitted :
      (b : RectBuffer) (tile : Rect) (pixels : Bytes) (next : ℕ)
      → IsBuffer w h n b
      → Guarantees IsDrawn
          (blit b tile.x tile.y tile.width tile.height pixels >>>= λ drawn. ok (drawn, next))
  blitted b tile pixels next i =
      Guarantees-bind (blit-IsBuffer b _ _ _ _ _ i) (λ drawn j. returns j)

  rle_tile-IsDrawn :
      (s : Source) (palette : List Bytes) (tile : Rect) (pos : ℕ) (b : RectBuffer)
      → IsBuffer w h n b
      → Guarantees IsDrawn (rle_tile s palette tile pos b)
  unfolding rle_tile
  rle_tile-IsDrawn s palette tile pos b i =
      Guarantees-after
        (rle_pixels (tile.width * tile.height) s palette (tile.width * tile.height) pos [] 0)
        (λ (pixels, k, next).
          Guarantees-check (not (k == tile.width * tile.height)) (blitted b tile pixels next i))

  raw_tile-IsDrawn :
      (s : Source) (tile : Rect) (pos : ℕ) (b : RectBuffer)
      → IsBuffer w h n b
      → Guarantees IsDrawn (raw_tile s tile pos b)
  unfolding raw_tile
  raw_tile-IsDrawn s tile pos b i =
      Guarantees-after (take_at s pos (tile.width * tile.height * s.cbytes)) (λ (raw, next).
        blitted b tile (expand_cpixels raw (tile.width * tile.height) s.cbytes s.bypp s.coffset)
          next i)

  packed_tile-IsDrawn :
      (s : Source) (palette : List Bytes) (tile : Rect) (pos : ℕ) (b : RectBuffer)
      → IsBuffer w h n b
      → Guarantees IsDrawn (packed_tile s palette tile pos b)
  unfolding packed_tile
  packed_tile-IsDrawn s palette tile pos b i =
      let per_byte = 8 / index_bits (length palette) in
      let row_size = (tile.width + per_byte - 1) / per_byte in
      Guarantees-check (ltb (length s.bytes) (pos + row_size * tile.height)) (
        Guarantees-after (packed_rows s palette tile.height row_size tile.width pos [])
          (λ (pixels, next). blitted b tile pixels next i))

  zrle_tile-IsDrawn :
      (s : Source) (tile : Rect) (pos : ℕ) (b : RectBuffer)
      → IsBuffer w h n b
      → Guarantees IsDrawn (zrle_tile s tile pos b)
  unfolding zrle_tile
  zrle_tile-IsDrawn s tile pos b i = Guarantees-after (byte_from s pos) (λ (subencoding, at).
      Guarantees-check (not (has_bit subencoding 7) && ltb 16 (subencoding % 128)) (
        Guarantees-after (read_palette s at (subencoding % 128)) (λ (palette, next).
          Guarantees-if (has_bit subencoding 7) (λ _. rle_tile-IsDrawn s palette tile next b i)
            (λ _.
              Guarantees-if (subencoding % 128 == 0) (λ _. raw_tile-IsDrawn s tile next b i)
                (λ _.
                  Guarantees-if (subencoding % 128 == 1)
                    (λ _. Guarantees-bind (fill-IsBuffer b _ _ _ _ _ i) (λ drawn j. returns j))
                    (λ _. packed_tile-IsDrawn s palette tile next b i))))))

  zrle_tiles-IsDrawn :
      (s : Source) (l : List Rect) (pos : ℕ) (b : RectBuffer)
      → IsBuffer w h n b
      → Guarantees IsDrawn (zrle_tiles s l pos b)
  unfolding zrle_tiles
  zrle_tiles-IsDrawn s [] pos b i = returns i
  zrle_tiles-IsDrawn s (tile ∷ rest) pos b i =
      Guarantees-bind (zrle_tile-IsDrawn s tile pos b i)
        (λ (drawn, next) j. zrle_tiles-IsDrawn s rest next drawn j)

  zrle_rect-IsBuffer :
      (s : Source) (b : RectBuffer) → IsBuffer w h n b → Guarantees (IsBuffer w h n) (zrle_rect s b)
  unfolding zrle_rect
  zrle_rect-IsBuffer s b i = Guarantees-bind (zrle_tiles-IsDrawn s _ 0 b i) (λ (drawn, pos) j.
      Guarantees-if (not (pos == length s.bytes)) (λ _. raises decode_error) (λ _. returns j))

  inflated :
      (o : Option Inflated) (g : Inflated → Gen Client RectBuffer)
      → ((got : Inflated) → Ensures (HasPixels n) (IsBuffer w h n) (g got))
      → Ensures
          (HasPixels n)
          (IsBuffer w h n)
          (elim o [ none ↦ raise zlib_error | some got ↦ g got ])
  inflated none g k = stops zlib_error
  inflated (some got) g k = k got

  zrle_pixels-IsBuffer :
      (lib : Library) (b : RectBuffer) (format : PixelFormat)
      → IsBuffer w h n b
      → Ensures (HasPixels n) (IsBuffer w h n) (zrle_pixels lib b format)
  unfolding zrle_pixels
  zrle_pixels-IsBuffer lib b format i = Ensures-read 4 (λ head l. Ensures-read _ (λ block m.
      looks (λ c same.
        inflated (lib.decompress c.zlib_stream block 0) _
          (λ got. changes _ (λ d k. k) (Ensures-lift (zrle_rect-IsBuffer _ b i))))))

-- ZRLE returns the rectangle's bytes, whatever zlib makes of the data.
pub zrle_decode-IsSized :
    (lib : Library) (rect : Rect) (format : PixelFormat)
    → IsSized rect format (zrle_decode lib rect format)
unfolding zrle_decode
zrle_decode-IsSized lib rect format =
    decode_into-IsSized (zrle_pixels lib) rect format
      (λ b i. zrle_pixels-IsBuffer _ _ _ lib b format i)
