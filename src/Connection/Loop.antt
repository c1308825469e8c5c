-- ===== src/Connection/Loop.antt =====
-- `dataReceived` and the loop of `_handleExpected`.
pub mod Stall
use awc_remote.Base.{
  ℕ, zero, suc, Bool, true, false, not, ◌&&◌, ◌||◌, Bytes, [], ◌∷◌, ◌++◌, length, take, drop, leb,
  ltb, if◌then◌else◌,
}
use awc_remote.Client.{Library}
use awc_remote.Connection.{Conn}
use awc_remote.Connection.Handshake.{handle_initial}
use awc_remote.Connection.Dispatch.{dispatch}

-- The condition of the loop.
unfoldable pub ready : Conn → Bool
ready c = leb c.expected_len (length c.packet) && not (c.aborted || c.crashed)

-- One round: the block leaves the packet before its handler runs.
unfoldable pub round : Library → Conn → Conn
round lib c =
    dispatch lib c.handler (take c.expected_len c.packet)
      (record c { packet = drop c.expected_len c.packet })

-- `_handleExpected`, for at most `fuel` rounds.
unfoldable pub drain : ℕ → Library → Conn → Conn
drain zero lib c = c
drain (suc fuel) lib c = elim (ready c) [ true ↦ drain fuel lib (round lib c) | false ↦ c ]

-- The bytes join the packet, unless the connection has ended.
unfoldable pub extend : Bytes → Conn → Conn
extend bytes c = if c.aborted || c.crashed then c else record c {
  packet = c.packet ++ bytes;
  client = record c.client { tls_handshake_pending = false };
}

-- `dataReceived`: the handshake's header first, as long as it is awaited.
unfoldable pub data_received : ℕ → Library → Bytes → Conn → Conn
unfolding extend drain
data_received fuel lib bytes c =
    let d = extend bytes c in
    let e = (if d.starting && not (d.aborted || d.crashed) then handle_initial d else d) in
    if e.starting then e else drain fuel lib e
