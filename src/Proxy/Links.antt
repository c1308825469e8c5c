-- ===== src/Proxy/Links.antt =====
-- The connections of a proxy, of vncdotool/loggingproxy.py: `VNCLoggingServerProxy` and the `dataReceived` of
-- `VNCLoggingClientProxy`, with what they share in `VNCLoggingServerFactory`. The observers, whose failures are only
-- logged, have no part here.
use awc_remote.Base.{
  ℕ, zero, suc, Bool, true, false, not, ◌&&◌, ◌||◌, Bytes, Option, none, some, List, [], ◌∷◌, ◌++◌,
  length, ltb, if◌then◌else◌,
}
use awc_remote.Capture.{Tap, s2c, c2s, notes_of, CaptureWriter, feed_capture, flush}
use awc_remote.Capture.Handshake.{new_capture}

-- A connection of a client. `live` says that `connectionLost` has not come yet, `dropped` that the transport was told to
-- close, and the forwarded bytes are those to the server and to the client.
pub record Link : Type 0 where
  pub live : Bool
  pub refused : Bool
  pub took_session : Bool
  pub saw_bytes : Bool
  pub dropped : Bool
  pub capture : Option CaptureWriter
  pub to_server : Bytes
  pub to_client : Bytes

-- The factory, with the archives that were written, and whether `sessionFinished` was called.
pub record ProxyFactory : Type 0 where
  pub one_shot : Bool
  pub capturing : Bool
  pub preserves : Bool
  pub session_taken : Bool
  pub capture_failed : Bool
  pub session_finished : Bool
  pub archives : List CaptureWriter

abbrev pub refused_link : Link
refused_link = record {
  live = true;
  refused = true;
  took_session = false;
  saw_bytes = false;
  dropped = true;
  capture = none;
  to_server = [];
  to_client = [];
}

abbrev pub served_link : ProxyFactory → Link
served_link f = record {
  live = true;
  refused = false;
  took_session = f.one_shot;
  saw_bytes = false;
  dropped = false;
  capture = (if f.capturing then some (new_capture f.preserves) else none);
  to_server = [];
  to_client = [];
}

-- `connectionMade`
unfoldable pub accept : ProxyFactory → ProxyFactory × Link
accept f =
    if f.one_shot && f.session_taken
    then (f, refused_link)
    else (record f { session_taken = f.session_taken || f.one_shot }, served_link f)

abbrev pub gave_up : CaptureWriter → Bool
gave_up w = (notes_of w.scrubber.step).abort_reason

-- `super().dataReceived(data)`, which forwards the bytes.
abbrev pub forward : Tap → Bytes → Link → Link
forward c2s bytes l = record l { to_server = l.to_server ++ bytes }
forward s2c bytes l = record l { to_client = l.to_client ++ bytes }

-- `_abortCapture`
abbrev pub abort_capture : ProxyFactory → Link → ProxyFactory × Link
abort_capture f l =
    (record f { capture_failed = true }, record l { capture = none; dropped = true })

abbrev pub after_capture : ProxyFactory → Tap → Bytes → Link → CaptureWriter → ProxyFactory × Link
after_capture f tap bytes l w =
    if gave_up w
    then abort_capture f (record l { capture = some w })
    else (f, forward tap bytes (record l { capture = some w }))

abbrev pub record_bytes :
    ProxyFactory → Tap → Bytes → Link → Option CaptureWriter → ProxyFactory × Link
record_bytes f tap bytes l none = (f, forward tap bytes l)
record_bytes f tap bytes l (some w) = after_capture f tap bytes l (feed_capture tap bytes w)

-- `dataReceived` of the connection of the client, and of that of the server. The latter exists only where the
-- former was not refused.
unfoldable pub hear_bytes : ProxyFactory → Tap → Bytes → Link → ProxyFactory × Link
hear_bytes f tap bytes l =
    if l.refused
    then (f, l)
    else record_bytes f tap bytes (record l { saw_bytes = l.saw_bytes || ltb 0 (length bytes) })
        l.capture

-- `_writeCapture`; whether the file can be written is not for the program to say.
abbrev pub write_capture : Bool → ProxyFactory → Link → Option CaptureWriter → ProxyFactory × Link
write_capture written f l none = (f, l)
write_capture true f l (some w) =
    (record f { archives = f.archives ++ flush w ∷ [] }, record l { capture = none })
write_capture false f l (some w) = (record f { capture_failed = true }, l)

abbrev pub finish_session : ProxyFactory × Link → ProxyFactory × Link
finish_session (f, l) =
    (record f { session_finished = f.session_finished || f.one_shot }, record l { live = false })

-- `connectionLost`
unfoldable pub lose_link : Bool → ProxyFactory → Link → ProxyFactory × Link
lose_link written f l =
    if l.refused
    then (f, record l { live = false })
    else if l.saw_bytes
    then finish_session (write_capture written f l l.capture)
    else (
      record f { session_taken = f.session_taken && not l.took_session },
      record l { live = false; capture = none },
    )

-- What happens to the proxy: a client connects, bytes come from the client or the server of a connection, or the
-- connection ends.
pub data ProxyEvent : Type 0 where
  connects : ProxyEvent
  sends : Tap → ℕ → Bytes → ProxyEvent
  ends : ℕ → Bool → ProxyEvent

-- An operation on the connection of a number, if it is still there.
abbrev pub on_link :
    (ProxyFactory → Link → ProxyFactory × Link)
    → ℕ
    → ProxyFactory
    → List Link
    → ProxyFactory × List Link
on_link op i f [] = (f, [])
on_link op zero f (l ∷ ls) = if l.live then ((op f l).0, (op f l).1 ∷ ls) else (f, l ∷ ls)
on_link op (suc i) f (l ∷ ls) =
    let r : ProxyFactory × List Link = on_link op i f ls in (r.0, l ∷ r.1)

unfoldable pub proxy_step : ProxyEvent → ProxyFactory × List Link → ProxyFactory × List Link
unfolding accept hear_bytes lose_link
proxy_step connects (f, ls) = ((accept f).0, (accept f).1 ∷ ls)
proxy_step (sends tap i bytes) (f, ls) = on_link (λ f l. hear_bytes f tap bytes l) i f ls
proxy_step (ends i written) (f, ls) = on_link (lose_link written) i f ls
