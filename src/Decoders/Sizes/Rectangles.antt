-- ===== src/Decoders/Sizes/Rectangles.antt =====
-- The decoders that draw subrectangles (vncdotool/decoders/rre.py and hextile.py).
use awc_remote.Base.{
  ℕ, zero, suc, ◌+◌, ◌/◌, ◌%◌, Bool, not, ◌||◌, Bytes, List, [], ◌∷◌, drop, byte_at, u32_at, ltb,
  ◌==◌, has_bit, if◌then◌else◌,
}
use awc_remote.Failure.{Guarantees, fold_ok-Guarantees, Guarantees-if, raises, decode_error}
use awc_remote.PixelFormat.{PixelFormat}
use awc_remote.RectBuffer.{RectBuffer}
use awc_remote.Generator.{read_some}
use awc_remote.Generator.Ensures.{
  Ensures, gives, asks, Ensures-bind, Ensures-lift, Ensures-read, Ensures-if, Ensures-guard,
}
use awc_remote.Client.{Client, Rect}
use awc_remote.Decoders.Rre.{Coords, wide, narrow, subrect, rre_pixels, rre_decode, corre_decode}
use awc_remote.Decoders.Hextile.{
  Canvas, tile_subrect, tile_subrects, coded_tile, one_tile, all_tiles, hextile_pixels,
  hextile_decode,
}
use awc_remote.Decoders.Sizes.{IsSized, HasPixels}
use awc_remote.Decoders.Sizes.Buffers.{IsBuffer, blit-IsBuffer, fill-IsBuffer, decode_into-IsSized}

subrect-IsBuffer :
    (coords : Coords) (w h n size : ℕ) (block : Bytes) (b : RectBuffer) (pos : ℕ)
    → IsBuffer w h n b
    → Guarantees (IsBuffer w h n) (subrect coords size block b pos)
unfolding subrect
subrect-IsBuffer coords w h n size block b pos i = fill-IsBuffer b _ _ _ _ _ i

rre_pixels-IsBuffer :
    (coords : Coords) (w h n : ℕ) (b : RectBuffer) (format : PixelFormat)
    → IsBuffer w h n b
    → Ensures (HasPixels n) (IsBuffer w h n) (rre_pixels coords b format)
unfolding rre_pixels
rre_pixels-IsBuffer coords w h n b format i = Ensures-read _ (λ header len.
    Ensures-bind (Ensures-lift (fill-IsBuffer b 0 0 b.width b.height (drop 4 header) i)) (λ drawn j.
      Ensures-if (u32_at header 0 == 0) (λ _. gives j)
        (λ _. Ensures-guard _ decode_error (λ _. Ensures-read _ (λ block l. Ensures-lift (
          fold_ok-Guarantees (IsBuffer w h n) (subrect coords b.bypp block)
            (λ c pos k. subrect-IsBuffer coords w h n b.bypp block c pos k) drawn _ j))))))

-- RRE and CoRRE return the rectangle's bytes.
pub rre_decode-IsSized :
    (rect : Rect) (format : PixelFormat) → IsSized rect format (rre_decode rect format)
unfolding rre_decode
rre_decode-IsSized rect format =
    decode_into-IsSized (rre_pixels wide) rect format
      (λ b i. rre_pixels-IsBuffer wide _ _ _ b format i)

pub corre_decode-IsSized :
    (rect : Rect) (format : PixelFormat) → IsSized rect format (corre_decode rect format)
unfolding corre_decode
corre_decode-IsSized rect format =
    decode_into-IsSized (rre_pixels narrow) rect format
      (λ b i. rre_pixels-IsBuffer narrow _ _ _ b format i)

read_some-Ensures : {I : Client → Type 0} (k : ℕ) → Ensures I (λ _. Unit {0}) (read_some k)
read_some-Ensures zero = gives tt
read_some-Ensures (suc k) = asks (suc k) (λ b l. gives tt)

module _ (w h n : ℕ) where
  tile_subrect-IsBuffer :
      (size : ℕ) (tile : Rect) (coloured : Bool) (foreground block : Bytes) (b : RectBuffer)
      (offset : ℕ)
      → IsBuffer w h n b
      → Guarantees (IsBuffer w h n) (tile_subrect size tile coloured foreground block b offset)
  unfolding tile_subrect
  tile_subrect-IsBuffer size tile coloured foreground block b offset i =
      let at = (if coloured then offset + size else offset) in
      Guarantees-if
        (ltb tile.width (byte_at block at / 16 + (byte_at block (at + 1) / 16 + 1))
          || ltb tile.height (byte_at block at % 16 + (byte_at block (at + 1) % 16 + 1)))
        (λ _. raises decode_error) (λ _. fill-IsBuffer b _ _ _ _ _ i)

  abbrev IsDrawn : Canvas → Type 0
  IsDrawn c = IsBuffer w h n c.target

  tile_subrects-IsDrawn :
      (size : ℕ) (tile : Rect) (coloured : Bool) (count : ℕ) (c : Canvas)
      → IsDrawn c
      → Ensures (HasPixels n) IsDrawn (tile_subrects size tile coloured count c)
  unfolding tile_subrects
  tile_subrects-IsDrawn size tile coloured count c i = Ensures-guard _ decode_error (λ _.
      Ensures-read _ (λ block l.
        Ensures-bind
          (Ensures-lift (
            fold_ok-Guarantees (IsBuffer w h n) (tile_subrect size tile coloured c.foreground block)
              (λ b offset j. tile_subrect-IsBuffer size tile coloured c.foreground block b offset j)
              c.target _ i))
          (λ drawn j. gives j)))

  coded_tile-IsDrawn :
      (size : ℕ) (tile : Rect) (subencoding : ℕ) (c : Canvas)
      → IsDrawn c
      → Ensures (HasPixels n) IsDrawn (coded_tile size tile subencoding c)
  unfolding coded_tile
  coded_tile-IsDrawn size tile subencoding c i = Ensures-bind (read_some-Ensures _) (λ block u.
      Ensures-guard _ decode_error (λ _.
        Ensures-bind (Ensures-lift (fill-IsBuffer c.target _ _ _ _ _ i)) (λ drawn j.
          Ensures-if (not (has_bit subencoding 3)) (λ _. gives j)
            (λ _. tile_subrects-IsDrawn size tile _ _ _ j))))

  one_tile-IsDrawn :
      (size : ℕ) (tile : Rect) (c : Canvas)
      → IsDrawn c
      → Ensures (HasPixels n) IsDrawn (one_tile size tile c)
  unfolding one_tile
  one_tile-IsDrawn size tile c i = Ensures-read 1 (λ head l.
      Ensures-if (has_bit (byte_at head 0) 0)
        (λ _. Ensures-read _ (λ pixels m.
          Ensures-bind (Ensures-lift (blit-IsBuffer c.target _ _ _ _ _ i)) (λ drawn j. gives j)))
        (λ _. coded_tile-IsDrawn size tile _ c i))

  all_tiles-IsDrawn :
      (size : ℕ) (l : List Rect) (c : Canvas)
      → IsDrawn c
      → Ensures (HasPixels n) IsDrawn (all_tiles size l c)
  unfolding all_tiles
  all_tiles-IsDrawn size [] c i = gives i
  all_tiles-IsDrawn size (tile ∷ rest) c i =
      Ensures-bind (one_tile-IsDrawn size tile c i) (λ d j. all_tiles-IsDrawn size rest d j)

  hextile_pixels-IsBuffer :
      (b : RectBuffer) (format : PixelFormat)
      → IsBuffer w h n b
      → Ensures (HasPixels n) (IsBuffer w h n) (hextile_pixels b format)
  unfolding hextile_pixels
  hextile_pixels-IsBuffer b format i =
      Ensures-bind (all_tiles-IsDrawn b.bypp _ _ i) (λ c j. gives j)

-- Hextile returns the rectangle's bytes.
pub hextile_decode-IsSized :
    (rect : Rect) (format : PixelFormat) → IsSized rect format (hextile_decode rect format)
unfolding hextile_decode
hextile_decode-IsSized rect format =
    decode_into-IsSized hextile_pixels rect format (λ b i. hextile_pixels-IsBuffer _ _ _ b format i)
