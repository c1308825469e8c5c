-- ===== src/Client.antt =====
-- The state of an `RFBClient` (vncdotool/rfb.py) that decoders, message handlers and security
-- handlers read and change, the calls that leave it, and the libraries that it stands on.
use awc_remote.Base.{ℕ, ◌^◌, Bool, false, Bytes, Option, none, List, [], ◌∷◌, ◌++◌}
use awc_remote.PixelFormat.{PixelFormat, default_format}

-- A `zlib.decompressobj`, which only its calls determine: the blocks and output limits so far, 0
-- for no limit.
abbrev pub Stream : Type 0
Stream = List (Bytes × ℕ)

-- `output` and `unconsumed_tail` after a call of `decompress`.
pub record Inflated : Type 0 where
  pub output : Bytes
  pub unconsumed_tail : Bytes

-- What Pillow makes of a JPEG: its size and its RGB bytes.
pub record Picture : Type 0 where
  pub width : ℕ
  pub height : ℕ
  pub rgb : Bytes

-- The third-party code that is called. `none` is the exception that the call may raise.
pub record Library : Type 0 where
  pub decompress : Stream → Bytes → ℕ → Option Inflated
  pub open_jpeg : Bytes → Option Picture
  pub triple_des : Bytes → Bytes → Bytes
  pub urandom : ℕ → Bytes
  -- the AES and Diffie-Hellman part of `_encrypt`, from the credentials and the server's numbers
  pub ard_response : Bytes → ℕ → ℕ → Bytes → Bytes → Bytes
  -- whether the trust roots for a verified connection to a host can be loaded
  pub certificates_load : List ℕ → Bool
  -- what the user types at the two prompts
  pub typed_username : List ℕ
  pub typed_password : List ℕ

-- The rectangle (x, y, width, height) of a FramebufferUpdate.
pub record Rect : Type 0 where
  pub x : ℕ
  pub y : ℕ
  pub width : ℕ
  pub height : ℕ

-- What an observer of the client sees, in order: bytes written, the end of the connection, and the
-- methods that a subclass overrides.
pub data Event : Type 0 where
  write : Bytes → Event
  lose_connection start_tls bell begin_update vnc_connection_made : Event
  vnc_request_password ard_request_credentials : Event
  vnc_auth_failed vnc_protocol_error : Event
  copy_rectangle : ℕ → ℕ → Rect → Event
  update_rectangle : Rect → Bytes → PixelFormat → Event
  update_cursor : Rect → Bytes → Bytes → Event
  update_desktop_size update_pointer_pos : ℕ → ℕ → Event
  set_color_map : ℕ → List (ℕ × ℕ × ℕ) → Event
  copy_text : Bytes → Event
  commit_update : List Rect → Event

-- `TightDecoder`: the four streams, and whether a JPEG quality was offered.
pub record TightState : Type 0 where
  pub stream0 : Option Stream
  pub stream1 : Option Stream
  pub stream2 : Option Stream
  pub stream3 : Option Stream
  pub jpeg_offered : Bool

-- The attributes of the factory that the handshake reads; a text is a list of code points.
pub record Factory : Type 0 where
  pub shared : Bool
  pub username : Option (List ℕ)
  pub password : Option (List ℕ)
  pub tls_hostname : Option (List ℕ)
  pub tls_allow_unverified : Bool

pub record Client : Type 0 where
  pub width : ℕ
  pub height : ℕ
  pub pixel_format : PixelFormat
  pub version : ℕ × ℕ
  pub rect_backing : Bytes
  pub zlib_stream : Stream
  pub tight : TightState
  pub extended_key : Bool
  pub challenge : Bytes
  pub vencrypt_subtype : ℕ
  pub tls_handshake_pending : Bool
  pub name : Bytes
  pub factory : Factory
  pub events : List Event

abbrev pub no_streams : TightState
no_streams = record {
  stream0 = none;
  stream1 = none;
  stream2 = none;
  stream3 = none;
  jpeg_offered = false;
}

-- `RFBClient.__init__`, for what the handlers see; the parser's own fields are in Connection.
abbrev pub new_client : Factory → Client
new_client factory = record {
  width = 0;
  height = 0;
  pixel_format = default_format;
  version = (0, 0);
  rect_backing = [];
  zlib_stream = [];
  tight = no_streams;
  extended_key = false;
  challenge = [];
  vencrypt_subtype = 256;
  tls_handshake_pending = false;
  name = [];
  factory = factory;
  events = [];
}

abbrev pub emit : Event → Client → Client
emit e c = record c { events = c.events ++ e ∷ [] }

-- `MAX_DESKTOP_SIZE` and `MAX_MESSAGE_PAYLOAD`.
abbrev pub max_desktop_size : ℕ
max_desktop_size = 0x10000

abbrev pub max_message_payload : ℕ
max_message_payload = 2 ^ 20
