-- ===== src/DoTool/Formats.antt =====
-- The raw mode that `setImageMode` of vncdotool/client.py keeps beside the pixel format.
use awc_remote.Base.{Option-cases, ◌≡◌, ◌⊎◌, inl, inr, refl, Option, none, some}
use awc_remote.PixelFormat.{PixelFormat, rgbx8888, has_widths, bit_length}
use awc_remote.PixelFormat.RawModes.{
  RawMode, raw_mode, layout_32, byte_positions, place_channel, position_in, position_get, mode_32,
}
use awc_remote.Client.{vnc_protocol_error, lose_connection, emit}
use awc_remote.Outgoing.{set_pixel_format}
use awc_remote.DoTool.{Tool, ask_format, set_mode_for, set_image_mode}

-- The mode is that of the format in force.
abbrev pub IsReadable : Tool → Type 0
IsReadable t = raw_mode t.client.pixel_format ≡ some t.image_mode

abbrev pub given_up : Tool → Tool
given_up t = record t { client = emit lose_connection (emit vnc_protocol_error t.client) }

asked :
    (f : PixelFormat) (t : Tool)
    → IsReadable (ask_format f t) ⊎ ((raw_mode f ≡ none) × (ask_format f t ≡ given_up t))
unfolding ask_format set_pixel_format
asked f t = elim (Option-cases (raw_mode f)) [
  | inl e ↦ inr (e, rw (ask_format, e))
  | inr (mode, e) ↦ inl (rw (ask_format, e) e)
]

-- The client's own choice has a raw mode.
rgbx_mode : raw_mode rgbx8888 ≡ none → ⊥
unfolding raw_mode layout_32 byte_positions place_channel position_in position_get mode_32
    has_widths bit_length
rgbx_mode e = cc

unasked :
    (t : Tool) (o : Option RawMode)
    → raw_mode t.client.pixel_format ≡ o
    → IsReadable (set_mode_for none t)
unfolding set_mode_for
unasked t (some mode) e = rw (set_mode_for, e) e
unasked t none e =
    rw (set_mode_for, e)
      (elim (asked rgbx8888 t) [
        | inl readable ↦ readable
        | inr (bad, given) ↦ absurd (rgbx_mode bad)
      ])

-- A format that was asked for, and cannot be read.
abbrev pub Refused : Option PixelFormat → Tool → Tool → Type 0
Refused asked t u = (f : PixelFormat) × (asked ≡ some f) × (raw_mode f ≡ none) × (u ≡ given_up t)

wished :
    (o : Option PixelFormat) (t : Tool)
    → IsReadable (set_mode_for o t) ⊎ Refused o t (set_mode_for o t)
unfolding set_mode_for
wished none t = inl (unasked t (raw_mode t.client.pixel_format) refl)
wished (some f) t = elim (asked f t) [
  | inl readable ↦ inl readable
  | inr (bad, given) ↦ inr (f, refl, bad, given)
]

-- After `setImageMode` the raw mode is that of the pixel format in force, unless the user asked for a format that has no
-- raw mode: then the client reports an error and drops the connection, and changes nothing else.
pub set_image_mode-IsReadable :
    (t : Tool) → IsReadable (set_image_mode t) ⊎ Refused t.wishes.pixel_format t (set_image_mode t)
unfolding set_image_mode
set_image_mode-IsReadable t = wished t.wishes.pixel_format t
