-- ===== src/Decoders/Sizes/Pasting.antt =====
-- The check of `_finishRectangle` in vncdotool/rfb.py.
use awc_remote.Base.{◌≡◌, Bytes, Option, none, some, length}
use awc_remote.PixelFormat.{PixelFormat}
use awc_remote.Generator.Ensures.{Ensures}
use awc_remote.Generator.Resume.{Resumed, returned, failed, parked}
use awc_remote.Client.{Client, Rect, update_rectangle, emit}
use awc_remote.Decoders.Base.{Paste}
use awc_remote.Connection.{Conn}

-- What holds of a generator when it stops, runs to its next block, or returns.
Upholds : {A : Type 0} → (Client → Type 0) → (A → Type 0) → Resumed Client A → Type 0
Upholds I P (returned a c) = P a × I c
Upholds I P (failed e c) = I c
Upholds I P (parked n k c) = I c × ((b : Bytes) → length b ≡ n → Ensures I P (k b))

-- What `_finishRectangle` is to do with a rectangle's paste, with no check.
abbrev pub shown : Rect → Option Paste → Conn → Conn
shown rect none c = c
shown rect (some paste) c = record c {
  client = emit (update_rectangle rect paste.pixels paste.pixel_format) c.client;
}
