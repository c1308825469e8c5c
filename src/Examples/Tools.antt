-- ===== src/Examples/Tools.antt =====
-- Keys, mouse and screen (vncdotool/client.py).
use awc_remote.Base.{
  ℕ, ◌<◌, ◌≤◌, ◌==◌, ◌≡◌, ◌⊎◌, ◌+◌, refl, none, some, Bool, true, false, [], ◌∷◌, max, arith,
}
use awc_remote.Failure.{ok}
use awc_remote.Client.{new_client, Rect}
use awc_remote.PixelFormat.{rgbx8888, has_widths, bit_length}
use awc_remote.PixelFormat.RawModes.{
  rgbx, raw_mode, layout_32, byte_positions, place_channel, position_in, position_get, mode_32,
}
use awc_remote.DoTool.{
  Tool, omit, mouse_press, decode_key, key_press, key_codes, key_code, split_dash, set_image_mode,
}
use awc_remote.DoTool.Keys.{Text, text}
use awc_remote.Base.Int.{pos}
use awc_remote.DoTool.Expect.{
  Box, box_at, on_screen, Judge, met, expect_run, expect_run-first_match,
}
use awc_remote.Proxy.Recorder.{key_name, decode_key-key_name}
use awc_remote.DoTool.Keymap.{keymap, get_key}
use awc_remote.DoTool.Chords.{chord, hold, after_strokes, key_press-chord}
use awc_remote.DoTool.Mouse.{clicked, mouse_press-clicked}
use awc_remote.DoTool.Formats.{IsReadable, Refused, set_image_mode-IsReadable}
use awc_remote.DoTool.Screen.{Pillow, Display, update_rectangle_image}
use awc_remote.DoTool.Refresh.{HasSizes, update_rectangle_image-max}

abbrev idle_tool : Tool
idle_tool = record {
  client = new_client (record {
    shared = true;
    username = none;
    password = none;
    tls_hostname = none;
    tls_allow_unverified = false;
  });
  x = 3;
  y = 4;
  buttons = 0;
  image_mode = rgbx;
  wishes = record {
    cursor_mode = omit;
    pseudodesktop = true;
    last_rect = true;
    qemu_extended_key = true;
    fence = false;
    force_caps = false;
    encodings = none;
    pixel_format = none;
    jpeg_quality = none;
    is_upper = λ t. false;
  };
}

-- Control and `c`.
control_c :
    (key_press (text "ctrl-c") idle_tool
      ≡ ok
          (record idle_tool { client = after_strokes (chord (0xFFE3 ∷ 99 ∷ [])) idle_tool.client }))
    × (hold (chord (0xFFE3 ∷ 99 ∷ [])) (7 ∷ []) ≡ some (7 ∷ []))
unfolding decode_key key_codes key_code split_dash keymap get_key
control_c =
    key_press-chord (text "ctrl-c") (0xFFE3 ∷ 99 ∷ []) (7 ∷ []) idle_tool refl
      (omega arith, (omega arith, tt))

left_click : mouse_press 1 idle_tool ≡ ok (record idle_tool { client = clicked 0 idle_tool })
left_click = mouse_press-clicked 0 idle_tool refl (omega arith) (omega arith) (omega arith)

mode_kept :
    IsReadable (set_image_mode idle_tool) ⊎ Refused none idle_tool (set_image_mode idle_tool)
mode_kept = set_image_mode-IsReadable idle_tool

-- An image is its size, and a mask is whether a part of it is unpainted.
abbrev sizes_only : Pillow (ℕ × ℕ) Bool
sizes_only = record {
  black = λ w h. (w, h);
  frombytes = λ w h b m. some (w, h);
  width = λ i. i.0;
  height = λ i. i.1;
  crop = λ i r. (r.width, r.height);
  paste = λ a b x y. a;
  full_mask = λ w h. true;
  clear_box = λ m r. m;
  is_blank = λ m. false;
  has_area = λ m. true;
}

sizes_only-HasSizes : HasSizes sizes_only
sizes_only-HasSizes = record {
  black_width = λ w h. refl;
  black_height = λ w h. refl;
  paste_width = λ a b x y. refl;
  paste_height = λ a b x y. refl;
}

abbrev small_display : Display (ℕ × ℕ) Bool
small_display = record {
  tool = idle_tool;
  screen = some (4, 4);
  unpainted = true;
  retries = 0;
  deferred = false;
  refreshed = 0;
}

abbrev corner : Rect
corner = record { x = 3; y = 1; width = 2; height = 1 }

grown :
    (e : Display (ℕ × ℕ) Bool) × (new_screen : ℕ × ℕ) × (update_rectangle_image sizes_only corner
        (1 ∷ [])
        rgbx8888
        small_display
      ≡ ok e)
    × (e.screen ≡ some new_screen)
    × (new_screen.0 ≡ max (3 + 2) 4)
    × (new_screen.1 ≡ max (1 + 1) 4)
unfolding raw_mode layout_32 byte_positions place_channel position_in position_get mode_32
    has_widths bit_length
grown =
    update_rectangle_image-max sizes_only sizes_only-HasSizes corner 1 [] rgbx8888 small_display
      rgbx (2, 1) (4, 4) refl refl refl

control_recorded :
    (0xFFE3 < 1114112
      → (name : Text) × (key_name 0xFFE3 ≡ some name)
        × (decode_key idle_tool.wishes name ≡ ok (0xFFE3 ∷ [])))
    × (1114112 ≤ 0xFFE3 → key_name 0xFFE3 ≡ none)
control_recorded = decode_key-key_name idle_tool.wishes 0xFFE3 refl

-- Frames of ten by ten, of which the one numbered 7 matches.
abbrev seven : Judge ℕ
seven = record { matches = λ f. f == 7; frame_width = λ f. 10; frame_height = λ f. 10 }

abbrev corner_box : Box
corner_box = box_at (pos 0) (pos 0) 4 4

seventh_met : expect_run seven corner_box 10 10 none (3 ∷ 7 ∷ 3 ∷ []) ≡ (false ∷ true ∷ [], met)
unfolding on_screen
seventh_met =
    expect_run-first_match seven corner_box 10 10 (3 ∷ []) 7 (3 ∷ []) refl (refl, refl, tt) refl
      refl
