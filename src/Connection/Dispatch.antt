-- ===== src/Connection/Dispatch.antt =====
-- The messages of a running connection, the rectangles, and the handler of a complete block.
use awc_remote.Base.{
  ℕ, ◌-◌, ◌*◌, ◌^◌, Bool, not, Bytes, Option, none, some, [], ◌∷◌, ◌++◌, length, byte_at, u16_at,
  u32_at, ltb, ◌==◌, if◌then◌else◌,
}
use awc_remote.PixelFormat.{PixelFormat, bypp}
use awc_remote.Client.{Client, Library, Rect, begin_update, commit_update, update_rectangle, emit}
use awc_remote.Generator.{Gen}
use awc_remote.Generator.Resume.{returned, failed, parked, resume}
use awc_remote.Messages.{message_handler, implemented, not_implemented}
use awc_remote.Decoders.Base.{Outcome}
use awc_remote.Decoders.Simple.{
  raw_decode, copy_rect_decode, cursor_decode, desktop_size_decode, pointer_pos_decode,
  qemu_extended_key_decode,
}
use awc_remote.Decoders.Rre.{rre_decode, corre_decode}
use awc_remote.Decoders.Hextile.{hextile_decode}
use awc_remote.Decoders.Tight.{tight_decode}
use awc_remote.Decoders.Zrle.{zrle_decode}
use awc_remote.Connection.{
  Conn, Handler, number_security_types, security_types, auth, conn_failed, conn_message,
  server_init, server_name, connection, framebuffer_update, rectangle, pump_security, pump_message,
  pump_rectangle, expect, abort, crash, is_decode_error,
}
use awc_remote.Connection.Handshake.{
  handle_number_security_types, handle_security_types, handle_auth, handle_conn_failed,
  handle_server_init, handle_server_name, pump_security_gen,
}

abbrev pub Decoder : Type 0
Decoder = Rect → PixelFormat → Gen Client Outcome

-- The wire's encoding-type as an unsigned number: a pseudo-encoding -n is 2 ^ 32 - n.
abbrev pub pseudo : ℕ → ℕ
pseudo n = 2 ^ 32 - n

-- `DECODERS`
unfoldable pub decoder_for : Library → ℕ → Option Decoder
decoder_for lib encoding =
    if encoding == 0
    then some raw_decode
    else if encoding == 1
    then some copy_rect_decode
    else if encoding == 2
    then some rre_decode
    else if encoding == 4
    then some corre_decode
    else if encoding == 5
    then some hextile_decode
    else if encoding == 16
    then some (zrle_decode lib)
    else if encoding == 7
    then some (tight_decode lib)
    else if encoding == pseudo 239
    then some cursor_decode
    else if encoding == pseudo 223
    then some desktop_size_decode
    else if encoding == pseudo 232
    then some pointer_pos_decode
    else if encoding == pseudo 258
    then some qemu_extended_key_decode
    else none

unfoldable pub pump_message_gen : Gen Client (Unit {0}) → Conn → Conn
unfolding expect abort crash
pump_message_gen g c = elim (resume g c.client (ltb 0 (length c.packet))) [
  | returned u client ↦ expect connection 1 (record c { client = client })
  | failed e client ↦
      if is_decode_error e
      then abort (record c { client = client })
      else crash (record c { client = client })
  | parked n k client ↦ expect (pump_message k) n (record c { client = client })
]

-- `_doConnection`
unfoldable pub do_connection : Conn → Conn
unfolding expect
do_connection c =
    if c.rectangles == 0
    then expect connection 1 (record c { client = emit (commit_update c.rectangle_pos) c.client })
    else expect rectangle 12 c

abbrev pub record_change : Bool → Rect → Conn → Conn
record_change changed rect c =
    if changed then record c { rectangle_pos = c.rectangle_pos ++ rect ∷ [] } else c

-- `_finishRectangle`
unfoldable pub finish_rectangle : Rect → Outcome → Conn → Conn
unfolding do_connection abort
finish_rectangle rect outcome c = elim outcome.paste [
  | none ↦ do_connection (record_change outcome.changed rect c)
  | some paste ↦
      if not (length paste.pixels == rect.width * rect.height * bypp paste.pixel_format)
      then abort c
      else do_connection (
          record_change outcome.changed rect (record c {
            client = emit (update_rectangle rect paste.pixels paste.pixel_format) c.client;
          }))
]

unfoldable pub pump_rectangle_gen : Rect → Gen Client Outcome → Conn → Conn
unfolding finish_rectangle expect abort crash
pump_rectangle_gen rect g c = elim (resume g c.client (ltb 0 (length c.packet))) [
  | returned outcome client ↦ finish_rectangle rect outcome (record c { client = client })
  | failed e client ↦
      if is_decode_error e
      then abort (record c { client = client })
      else crash (record c { client = client })
  | parked n k client ↦ expect (pump_rectangle rect k) n (record c { client = client })
]

unfoldable pub handle_connection : Bytes → Conn → Conn
unfolding expect pump_message_gen abort
handle_connection block c =
    let msgid = byte_at block 0 in
    if msgid == 0 then expect framebuffer_update 3 c else elim (message_handler msgid) [
      | implemented g ↦ pump_message_gen g c
      | not_implemented ↦ abort c
    ]

unfoldable pub handle_framebuffer_update : Bytes → Conn → Conn
unfolding do_connection
handle_framebuffer_update block c = do_connection (record c {
  rectangles = u16_at block 1;
  rectangle_pos = [];
  client = emit begin_update c.client;
})

abbrev pub rect_at : Bytes → Rect
rect_at block = record {
  x = u16_at block 0;
  y = u16_at block 2;
  width = u16_at block 4;
  height = u16_at block 6;
}

-- `_handleRectangle`; PSEUDO_LAST_RECT is -224.
unfoldable pub handle_rectangle : Library → Bytes → Conn → Conn
unfolding do_connection pump_rectangle_gen abort
handle_rectangle lib block c =
    let encoding = u32_at block 8 in
    let left = (if encoding == pseudo 224 then 0 else c.rectangles) in
    if left == 0
    then do_connection (record c { rectangles = 0 })
    else elim (decoder_for lib encoding) [
      | none ↦ abort (record c { rectangles = left - 1 })
      | some decode ↦
          pump_rectangle_gen (rect_at block) (decode (rect_at block) c.client.pixel_format)
            (record c { rectangles = left - 1 })
    ]

-- The call of the parked handler on a block of the length that it asked for.
unfoldable pub dispatch : Library → Handler → Bytes → Conn → Conn
unfolding abort
dispatch lib number_security_types block c = handle_number_security_types block c
dispatch lib security_types block c = handle_security_types lib block c
dispatch lib auth block c = handle_auth lib block c
dispatch lib conn_failed block c = handle_conn_failed block c
dispatch lib conn_message block c = abort c
dispatch lib server_init block c = handle_server_init block c
dispatch lib server_name block c = handle_server_name block c
dispatch lib connection block c = handle_connection block c
dispatch lib framebuffer_update block c = handle_framebuffer_update block c
dispatch lib rectangle block c = handle_rectangle lib block c
dispatch lib (pump_security k) block c = pump_security_gen (k block) c
dispatch lib (pump_message k) block c = pump_message_gen (k block) c
dispatch lib (pump_rectangle rect k) block c = pump_rectangle_gen rect (k block) c
