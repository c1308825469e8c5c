-- ===== src/DoTool/Screen.antt =====
-- vncdotool/client.py: the screen image, from `updateRectangle` to `updateDesktopSize`. Pillow is a record of
-- the calls that the client makes.
use awc_remote.Base.{
  ℕ, ◌+◌, Bool, true, false, not, ◌&&◌, ◌||◌, Bytes, Option, none, some, List, [], ◌∷◌, ltb, max,
  if◌then◌else◌,
}
use awc_remote.Failure.{Result, ok, err, value_error, ◌>>>=◌}
use awc_remote.PixelFormat.{PixelFormat}
use awc_remote.PixelFormat.RawModes.{RawMode, raw_mode}
use awc_remote.Client.{Client, Rect, max_desktop_size}
use awc_remote.Outgoing.{framebuffer_update_request}
use awc_remote.DoTool.{Tool}

-- `Image.new("RGB", size, "black")`, `Image.frombytes`, `size`, `crop` and `paste` at a point; a mask is the
-- one-bit image of `_FullScreenReceived`: all set, cleared in a box, and whether nothing is set.
pub record Pillow (Image Mask : Type 0) : Type 0 where
  pub black : ℕ → ℕ → Image
  pub frombytes : ℕ → ℕ → Bytes → RawMode → Option Image
  pub width : Image → ℕ
  pub height : Image → ℕ
  pub crop : Image → Rect → Image
  pub paste : Image → Image → ℕ → ℕ → Image
  pub full_mask : ℕ → ℕ → Mask
  pub clear_box : Mask → Rect → Mask
  pub is_blank : Mask → Bool
  pub has_area : Mask → Bool

-- `deferred` while a refresh is awaited, and the number of those that have been called back.
pub record Display (Image Mask : Type 0) : Type 0 where
  pub tool : Tool
  pub screen : Option Image
  pub unpainted : Mask
  pub retries : ℕ
  pub deferred : Bool
  pub refreshed : ℕ

module _ {Image Mask : Type 0} (lib : Pillow Image Mask) where
  -- `_FullScreenReceived(width, height)`
  abbrev pub full_screen : ℕ → ℕ → Display Image Mask → Display Image Mask
  full_screen w h d = record d { unpainted = lib.full_mask w h; retries = 0 }

  abbrev pub paint_rect : Rect → Display Image Mask → Display Image Mask
  paint_rect r d = record d { unpainted = lib.clear_box d.unpainted r }

  -- The screen after an update: made at the size of the desktop, grown to hold the rectangle, or kept.
  unfoldable pub painted : Client → Option Image → Image → Rect → Image
  painted c none update r = lib.paste (lib.black c.width c.height) update r.x r.y
  painted c (some screen) update r =
      if ltb (lib.width screen) (r.x + r.width) || ltb (lib.height screen) (r.y + r.height)
      then lib.paste
          (lib.paste
            (lib.black (max (r.x + r.width) (lib.width screen))
              (max (r.y + r.height) (lib.height screen)))
            screen 0 0)
          update r.x r.y
      else lib.paste screen update r.x r.y

  abbrev mode_of : Option RawMode → Result RawMode
  mode_of none = err value_error
  mode_of (some m) = ok m

  abbrev image_of : Option Image → Result Image
  image_of none = err value_error
  image_of (some i) = ok i

  -- `updateRectangle`
  unfoldable pub update_rectangle_image :
      Rect → Bytes → PixelFormat → Display Image Mask → Result (Display Image Mask)
  unfolding painted raw_mode
  update_rectangle_image r [] f d = ok d
  update_rectangle_image r (b ∷ bytes) f d = mode_of (raw_mode f) >>>= λ mode.
      image_of (lib.frombytes r.width r.height (b ∷ bytes) mode) >>>= λ update.
      ok (paint_rect r (record d { screen = some (painted d.tool.client d.screen update r) }))

  -- `copyRectangle`
  unfoldable pub copy_rectangle_image : ℕ → ℕ → Rect → Display Image Mask → Display Image Mask
  copy_rectangle_image srcx srcy r d = elim d.screen [
    | none ↦ d
    | some screen ↦
        let region =
          lib.crop screen (record { x = srcx; y = srcy; width = r.width; height = r.height }) in
        paint_rect r (record d { screen = some (lib.paste screen region r.x r.y) })
  ]

  abbrev on_new : Option Image → Image → Image
  on_new none new_screen = new_screen
  on_new (some screen) new_screen = lib.paste new_screen screen 0 0

  -- `updateDesktopSize`
  unfoldable pub resize_desktop : ℕ → ℕ → Display Image Mask → Result (Display Image Mask)
  resize_desktop width height d =
      let resized = record d {
        screen = some (on_new d.screen (lib.black width height));
        tool = record d.tool { client = record d.tool.client { width = width; height = height } };
      } in
      if not (ltb width max_desktop_size && ltb height max_desktop_size)
      then err value_error
      else ok (if lib.has_area d.unpainted then full_screen width height resized else resized)

  -- `framebufferUpdateRequest` with its defaults.
  unfoldable pub ask_update : Bool → Display Image Mask → Result (Display Image Mask)
  unfolding framebuffer_update_request
  ask_update incremental d =
      framebuffer_update_request 0 0 none none incremental d.tool.client >>>= λ c.
      ok (record d { tool = record d.tool { client = c } })

  -- `_requestRefresh`
  unfoldable pub request_refresh : Bool → Display Image Mask → Result (Display Image Mask)
  unfolding ask_update
  request_refresh incremental d = ask_update incremental (
      if incremental
      then full_screen 0 0 d
      else full_screen d.tool.client.width d.tool.client.height d)

  -- `refreshScreen`
  unfoldable pub refresh_screen : Bool → Display Image Mask → Result (Display Image Mask)
  unfolding request_refresh
  refresh_screen incremental d = request_refresh incremental (record d { deferred = true })

  abbrev no_screen : Option Image → Bool
  no_screen none = true
  no_screen (some i) = false

  abbrev is_nil : List Rect → Bool
  is_nil [] = true
  is_nil (r ∷ rs) = false

  abbrev pub finish_refresh : Display Image Mask → Display Image Mask
  finish_refresh d = record (full_screen 0 0 d) { deferred = false; refreshed = d.refreshed + 1 }

  -- `commitUpdate`; `retry` grants one more request.
  unfoldable pub commit : List Rect → Display Image Mask → Result (Display Image Mask)
  unfolding ask_update
  commit rectangles d =
      if not d.deferred
      then ok d
      else if is_nil rectangles || no_screen d.screen
      then ask_update false d
      else if lib.is_blank d.unpainted
      then ok (finish_refresh d)
      else if ltb d.retries 1
      then ask_update false (record d { retries = d.retries + 1 })
      else ok (finish_refresh d)
