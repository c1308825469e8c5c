-- ===== src/Lib.antt =====
-- awc_remote: a verification library for the VNC client vncdotool.
--
-- The client is a Twisted protocol, `RFBClient` of vncdotool/rfb.py. The transport hands it bytes
-- in chunks of any size. It gathers them in a packet, and calls a parked handler each time that
-- the packet holds as many bytes as the handler awaits. Decoders (vncdotool/decoders/), message
-- handlers (vncdotool/messages/) and security handlers (vncdotool/security/) are Python generators
-- that yield the number of bytes they want next. The pump in rfb.py sends them blocks of that size
-- until they return or raise.
--
-- How the files correspond to the code:
--   Base           the lists, bytes, big-endian integers and Boolean tests that all files share
--   Failure        the exceptions of decoders/errors.py and security/errors.py; a raise is a value
--   PixelFormat    pixelformat.py: the wire structure, CPIXEL and TPIXEL; RawModes holds `raw_mode`
--   RectBuffer     decoders/buffer.py: `init`, `blit`, `fill`, `clear` (`_clear`), `materialize`
--                  (`_materialize`), `tobytes`; children Rows, Bounds, Reached, Shown, Pixels, Fills hold the proofs
--   Generator      a Python generator: `ask` is a yield, `raise` a raise, `look` and `change` read
--                  and write the client; Resume is `send`, Ensures holds postconditions
--   Client         the attributes of RFBClient that handlers use, and the calls that leave it as
--                  a list of events
--   Decoders       decoders/: Base (base.py and what the pump offers a decoder), Simple (raw.py,
--                  copyrect.py, cursor.py, control.py), Rre, Hextile, Tight, Zrle; Sizes follows
--                  the length of what they return
--   Text           UTF-8, ASCII, `reverse_bits`, `_vnc_des` and `des_encrypt` of rfb.py
--   Messages       messages/: cut text, colour maps, fences, the bell
--   Security       security/: None, VNC, Diffie-Hellman and VeNCrypt; its child Vencrypt is
--                  vencrypt.py
--   Connection     rfb.py: `expect` and `abortConnection`; Handshake (`_handleInitial` to
--                  `_handleServerName`), Dispatch (`_handleConnection` to `_finishRectangle`), Loop
--                  (`_handleExpected`, `dataReceived`)
--   Outgoing       rfb.py: `setPixelFormat` to `clientCutText`, and `connectionLost`; Written is what
--                  they put on the wire
--   Proxy          loggingproxy.py: `RFBServer`; Spoken is what a client says, RoundTrip, Session,
--                  Progress, Ends, Desync and Relay hold the proofs. Links has `VNCLoggingServerProxy`
--                  with its factory, over any number of connections (Claims, OneShot, Archived), and Recorder
--                  what it writes down of keys and pointer
--   Capture        capture.py: `HandshakeScrubber` and the records of `CaptureWriter`; Handshake is the
--                  grammar `_run`; Chunks, Held, Verbatim, Secrets, Exchange, Session and Cuts hold the
--                  proofs
--   DoTool         client.py: `VNCDoToolClient`; Keys and Keymap are keys.py, Screen the image and the
--                  refresh, Stable is `_StableWatch`, Expect `_expectCompare`; Chords, Mouse, Formats and Refresh hold the proofs
--   Replay         replay.py: `client_message_length` and `saw_update_request` (Measured, Search); Sent is what a
--                  viewer sends, Player is `ReplayProtocol` over the scrubber of Capture; Rounds, Pacing, Serving, Playback,
--                  Holding, Split, Parts and Waiting hold the proofs
--   Command        command.py: what `build_command_list` makes of words; Build is its loop, Servers is
--                  `parse_server` with websocket.py's URLs, Status how vncdo ends, Options what it
--                  settles; Script, Contents and Spelled are
--                  command lines, texts and addresses as a user writes them, Spoken and Ends hold proofs
--   Examples       runs at concrete inputs
--
-- Numbers are the native naturals: a field off the wire is at most 32 bits wide, and Python's
-- integers do not overflow. The signed encoding-type is its unsigned 32-bit form. A bit test
-- is a quotient and a remainder, and `|=` of disjoint bits is a sum.
--
-- Third-party code is the record `Client.Library`: zlib, as a function of all calls that a stream
-- has had, Pillow's JPEG reader, triple DES, the Diffie-Hellman and AES response, random bytes,
-- whether certificates load, and what the user types. One result assumes of it that a picture in
-- RGB takes three bytes to a pixel (`HasRgb` of Decoders/Sizes/Streams), and one that zlib leaves
-- input over only where it has filled the output (`HasLimits` of Decoders/Tight/Ends).
--
-- Fuel: `Tight.inflate` runs at most two rounds, since a call of zlib that leaves input over has
-- filled its output (Tight/Ends). `Zrle.run_tail` takes a byte in each round, so the data bounds it, and
-- `Zrle.rle_pixels` adds a pixel in each round, so the tile bounds it (Zrle/Ends). `Loop.drain` runs as many
-- rounds as it is told, since the loop that it models need not end. `Proxy.serve` takes at most two
-- rounds for each byte of the buffer (Proxy/Ends). The loop of `advance` takes a round for each block that
-- the handshake's grammar asks for, at most 14 of them, and one more (Replay/Rounds, Replay/Serving).
-- `Command.Build.build` takes a round for each word, but a file of commands adds words, and one that names
-- itself has no end (Command/Ends).
--
-- What Python and the operating system answer to the command line (`int`, `float`, `shlex`, files, addresses,
-- `urlsplit`) are the records `Command.Platform` and `Command.Servers.Resolver`. Twisted's part is the order of
-- events: which calls come, and when a timer goes off.
--
-- Not modelled: the texts of log lines and errors, memory exhaustion, argparse's options but those that
-- Command/Options names, the threads of api.py, the WebSocket transport, the comparison of images, the zip archives
-- and the files of recorded sessions, and the stall timer of the replay, which only logs. The observers of the logging proxy are
-- kept apart from its forwarding, since their failures are only logged. The pixels of client.py's image
-- are Pillow's: the model has the calls and their sizes (`HasSizes` of DoTool/Refresh). The callback that
-- ends a refresh is a count, so a method that it calls is a later step. An exception that no handler of
-- the parser names sets `crashed`, as Twisted drops the connection then.
pub mod Base
pub mod PixelFormat
pub mod Failure
pub mod RectBuffer
pub mod Generator
pub mod Client
pub mod Decoders
pub mod Text
pub mod Messages
pub mod Security
pub mod Connection
pub mod Capture
pub mod Outgoing
pub mod Proxy
pub mod DoTool
pub mod Replay
pub mod Command
pub mod Examples
