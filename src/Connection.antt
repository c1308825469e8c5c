-- ===== src/Connection.antt =====
-- vncdotool/rfb.py: the parser of `RFBClient`, from the bytes of the transport to the handlers.
pub mod Handshake
pub mod Dispatch
pub mod Loop
use awc_remote.Base.{
  ℕ, ◌+◌, ◌*◌, ◌^◌, Bool, true, false, not, ◌&&◌, ◌||◌, Bytes, Option, none, some, List, [], ◌∷◌,
  ◌++◌, length, take, drop, byte_at, u16_at, u32_at, ltb, leb, ◌==◌, if◌then◌else◌,
}
use awc_remote.Failure.{
  Exn, decode_error, security_error, zlib_error, struct_error, value_error, out_of_fuel,
}
use awc_remote.Generator.{Gen}
use awc_remote.Client.{
  Client, Rect, Factory, new_client, Event, vnc_protocol_error, lose_connection, emit,
}
use awc_remote.Decoders.Base.{Outcome}

-- The handler that `expect` parks, with its arguments. A pump's handler is the generator's rest.
pub data Handler : Type 0 where
  number_security_types security_types auth conn_failed conn_message : Handler
  server_init server_name connection framebuffer_update rectangle : Handler
  pump_security : (Bytes → Gen Client Bool) → Handler
  pump_message : (Bytes → Gen Client (Unit {0})) → Handler
  pump_rectangle : Rect → (Bytes → Gen Client Outcome) → Handler

-- `starting` while `_handler` is `_handleInitial`. `crashed` once an exception that no `except` of
-- the parser names has left `dataReceived`: Twisted then drops the connection.
pub record Conn : Type 0 where
  pub client : Client
  pub packet : Bytes
  pub starting : Bool
  pub handler : Handler
  pub expected_len : ℕ
  pub aborted : Bool
  pub crashed : Bool
  pub version_server : ℕ × ℕ
  pub rectangles : ℕ
  pub rectangle_pos : List Rect

-- `RFBClient.__init__`
abbrev pub new_connection : Factory → Conn
new_connection factory = record {
  client = new_client factory;
  packet = [];
  starting = true;
  handler = connection;
  expected_len = 12;
  aborted = false;
  crashed = false;
  version_server = (0, 0);
  rectangles = 0;
  rectangle_pos = [];
}

-- `expect`: in the loop it only parks the handler.
unfoldable pub expect : Handler → ℕ → Conn → Conn
expect handler size c = record c { handler = handler; expected_len = size }

unfoldable pub abort : Conn → Conn
abort c = record c {
  aborted = true;
  packet = [];
  client = emit lose_connection (emit vnc_protocol_error c.client);
}

unfoldable pub crash : Conn → Conn
crash c = record c { crashed = true }

-- `_DECODE_ERRORS` and `_SECURITY_ERRORS`.
abbrev pub is_decode_error : Exn → Bool
is_decode_error decode_error = true
is_decode_error struct_error = true
is_decode_error zlib_error = true
is_decode_error security_error = false
is_decode_error value_error = false
is_decode_error out_of_fuel = false

abbrev pub is_security_error : Exn → Bool
is_security_error security_error = true
is_security_error struct_error = true
is_security_error decode_error = false
is_security_error zlib_error = false
is_security_error value_error = false
is_security_error out_of_fuel = false
