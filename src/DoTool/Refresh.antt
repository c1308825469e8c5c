-- ===== src/DoTool/Refresh.antt =====
-- The screen's size and the end of a refresh in vncdotool/client.py.
use awc_remote.Base.{
  ℕ, ◌+◌, ◌≡◌, refl, ap, ◌∙◌, true, false, ◌||◌, Bytes, Option, some, ◌∷◌, ltb, max, Bool-cases,
  inl, inr, arith,
}
use awc_remote.Failure.{Result, ok}
use awc_remote.Client.{Client, Rect, write, emit}
use awc_remote.PixelFormat.{PixelFormat}
use awc_remote.PixelFormat.RawModes.{RawMode, raw_mode}
use awc_remote.Outgoing.{update_request_message}
use awc_remote.DoTool.Screen.{Pillow, Display, paint_rect, painted, update_rectangle_image}

-- What the client relies on of Pillow: a new image has the size that it is asked for, and pasting keeps the size.
pub record HasSizes {Image Mask : Type 0} (lib : Pillow Image Mask) : Type 0 where
  pub black_width : (w h : ℕ) → lib.width (lib.black w h) ≡ w
  pub black_height : (w h : ℕ) → lib.height (lib.black w h) ≡ h
  pub paste_width : (a b : Image) (x y : ℕ) → lib.width (lib.paste a b x y) ≡ lib.width a
  pub paste_height : (a b : Image) (x y : ℕ) → lib.height (lib.paste a b x y) ≡ lib.height a

either : (a b c d : ℕ) → ltb a b || ltb c d ≡ false → (a ≡ max b a) × (c ≡ max d c)
either a b c d h = (ground arith, ground arith)

module _ {Image Mask : Type 0} (lib : Pillow Image Mask) (law : HasSizes lib) where
  painted_size :
      (c : Client) (screen update : Image) (r : Rect)
      → (lib.width (painted lib c (some screen) update r) ≡ max (r.x + r.width) (lib.width screen))
        × (lib.height (painted lib c (some screen) update r)
            ≡ max (r.y + r.height) (lib.height screen))
  unfolding painted
  painted_size c screen update r =
      elim (Bool-cases
        (ltb (lib.width screen) (r.x + r.width) || ltb (lib.height screen) (r.y + r.height))) [
          | inl e ↦ rw (e) (
            law.paste_width _ update r.x r.y ∙ law.paste_width _ screen 0 0 ∙ law.black_width _ _,
            law.paste_height _ update r.x r.y
                ∙ law.paste_height _ screen 0 0
                ∙ law.black_height _ _,
          )
          | inr e ↦
              let kept =
                either (lib.width screen) (r.x + r.width) (lib.height screen) (r.y + r.height) e in
              rw (e) (
                law.paste_width screen update r.x r.y ∙ kept.0,
                law.paste_height screen update r.x r.y ∙ kept.1,
              )
        ]

  -- A rectangle of pixels that Pillow accepts, on a screen that is there, leaves a screen just large enough for both: it never shrinks
  -- and it holds the rectangle.
  pub update_rectangle_image-max :
      (r : Rect) (b : ℕ) (bytes : Bytes) (f : PixelFormat) (d : Display Image Mask) (mode : RawMode)
      (update screen : Image)
      → raw_mode f ≡ some mode
      → lib.frombytes r.width r.height (b ∷ bytes) mode ≡ some update
      → d.screen ≡ some screen
      → (e : Display Image Mask) × (new_screen : Image) × (update_rectangle_image lib r
            (b ∷ bytes)
            f
            d
          ≡ ok e)
        × (e.screen ≡ some new_screen)
        × (lib.width new_screen ≡ max (r.x + r.width) (lib.width screen))
        × (lib.height new_screen ≡ max (r.y + r.height) (lib.height screen))
  unfolding update_rectangle_image
  update_rectangle_image-max r b bytes f d mode update screen m u s = (
    paint_rect lib r
        (record d { screen = some (painted lib d.tool.client (some screen) update r) }),
    painted lib d.tool.client (some screen) update r,
    rw (m, u)
        (ap
          (λ (o : Option Image).
            ok (
              paint_rect lib r (record d { screen = some (painted lib d.tool.client o update r) })))
          s),
    refl,
    (painted_size d.tool.client screen update r).0,
    (painted_size d.tool.client screen update r).1,
  )

module _ {Image Mask : Type 0} (lib : Pillow Image Mask) where
  abbrev asked : Display Image Mask → Display Image Mask
  asked d = record d {
    tool = record d.tool {
      client =
          emit (write (update_request_message false 0 0 d.tool.client.width d.tool.client.height))
            d.tool.client;
    };
  }

  -- A display that has a screen, and awaits a refresh.
  abbrev pub awaiting : Image → Display Image Mask → Display Image Mask
  awaiting screen d = record d { deferred = true; screen = some screen }

  -- What the rectangles of an update leave: some mask, some screen, and the size of the desktop; a new size of the desktop starts the
  -- count of retries anew (`updateDesktopSize`), and else it is kept.
  abbrev pub repainted : Mask → Image → ℕ → ℕ → ℕ → Display Image Mask → Display Image Mask
  repainted m screen retries width height d = record d {
    unpainted = m;
    screen = some screen;
    retries = retries;
    tool = record d.tool { client = record d.tool.client { width = width; height = height } };
  }

  abbrev pub Refreshed : Display Image Mask → Result (Display Image Mask) → Type 0
  Refreshed d res =
      (e : Display Image Mask) × (res ≡ ok e)
      × (e.deferred ≡ false)
      × (e.refreshed ≡ d.refreshed + 1)

  -- A refresh that has asked again, and still awaits an update.
  abbrev pub Asking : Display Image Mask → Result (Display Image Mask) → Type 0
  Asking d res =
      (e : Display Image Mask) × (res ≡ ok e)
      × (e.deferred ≡ true)
      × (e.refreshed ≡ d.refreshed)
      × (e.retries ≡ 1)
