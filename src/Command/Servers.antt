-- ===== src/Command/Servers.antt =====
-- `parse_server` of vncdotool/command.py, with `is_websocket_url` and `parse_url` of vncdotool/websocket.py.
use awc_remote.Base.{
  ℕ, zero, suc, ◌+◌, Bool, true, false, ◌&&◌, Option, none, some, List, [], ◌∷◌, ◌++◌, take, leb,
  ◌==◌, if◌then◌else◌,
}
use awc_remote.Base.Int.{ℤ, pos, add_ℕ}
use awc_remote.DoTool.Keys.{Text, text, eq_text}

-- `urlsplit`: `port` is `none` where reading it raises `ValueError`, and 0 where there is none; a missing host is empty.
pub record UrlParts : Type 0 where
  pub scheme : Text
  pub hostname : Text
  pub port : Option ℕ
  pub path : Text
  pub query : Text

-- What the operating system and Python's library answer: whether a path exists, whether there are Unix sockets, what
-- `ipaddress` takes for an address, `int(s)`, `str(n)`, `urlsplit`, where `none` is `ValueError`, and `urlunsplit` of a
-- scheme, a host with its port, a path and a query.
pub record Resolver : Type 0 where
  pub exists : Text → Bool
  pub has_unix : Bool
  pub is_ipv4 : Text → Bool
  pub is_ipv6 : Text → Bool
  pub read_int : Text → Option ℤ
  pub show : ℕ → Text
  pub urlsplit : Text → Option UrlParts
  pub urlunsplit : Text → Text → Text → Text → Text

pub data Family : Type 0 where
  inet inet6 unix unspec websocket : Family

-- `s.lower()` as far as the letters of a scheme can tell.
abbrev pub lower : Text → Text
lower [] = []
lower (c ∷ cs) = (if leb 65 c && leb c 90 then c + 32 else c) ∷ lower cs

-- `s.partition("://")`, without what comes after it; `none` where there is none.
unfoldable pub scheme_of : Text → Option Text
scheme_of [] = none
scheme_of (c ∷ cs) =
    let rest : Option Text = scheme_of cs in
    if eq_text (text "://") (take 3 (c ∷ cs))
    then some []
    else elim rest [ none ↦ none | some s ↦ some (c ∷ s) ]

-- `DEFAULT_PORTS`
abbrev pub default_port : Text → Option ℕ
default_port scheme =
    if eq_text scheme (text "ws")
    then some 80
    else if eq_text scheme (text "wss")
    then some 443
    else none

abbrev pub has_port : Option ℕ → Bool
has_port none = false
has_port (some p) = true

abbrev pub is_scheme : Option Text → Bool
is_scheme none = false
is_scheme (some s) = has_port (default_port (lower s))

unfoldable pub is_websocket_url : Text → Bool
unfolding scheme_of
is_websocket_url server = is_scheme (scheme_of server)

abbrev pub or_default : ℕ → ℕ → ℕ
or_default zero d = d
or_default (suc p) d = suc p

abbrev pub or_root : Text → Text
or_root [] = text "/"
or_root (c ∷ path) = c ∷ path

-- The end of `parse_url`, with the host, the default port and the port.
abbrev pub join_url : Resolver → UrlParts → Text → ℕ → Option ℕ → Option (Text × ℕ)
join_url r parts [] default none = none
join_url r parts [] default (some port) = none
join_url r parts (c ∷ host) default none = none
join_url r parts (c ∷ host) default (some given) =
    let port = or_default given default in
    let netloc = (c ∷ host) ++ text ":" ++ r.show port in
    some (r.urlunsplit (lower parts.scheme) netloc (or_root parts.path) parts.query, port)

abbrev pub split_url : Resolver → Option UrlParts → Option (Text × ℕ)
split_url r none = none
split_url r (some parts) = elim (default_port (lower parts.scheme)) [
  | none ↦ none
  | some default ↦ join_url r parts parts.hostname default parts.port
]

unfoldable pub parse_url : Resolver → Text → Option (Text × ℕ)
parse_url r server = split_url r (r.urlsplit server)

-- `server.split(":")`, as its first part and the others.
abbrev pub split_more : ℕ → Text × List Text → Text × List Text
split_more c (first, more) = if c == 58 then ([], first ∷ more) else (c ∷ first, more)

unfoldable pub split_colon : Text → Text × List Text
split_colon [] = ([], [])
split_colon (c ∷ cs) = split_more c (split_colon cs)

-- `s.partition("]")`, `none` where there is none.
abbrev pub put_before : ℕ → Option (Text × Text) → Option (Text × Text)
put_before c none = none
put_before c (some (host, rest)) = some (c ∷ host, rest)

unfoldable pub partition_bracket : Text → Option (Text × Text)
partition_bracket [] = none
partition_bracket (c ∷ cs) =
    let rest = partition_bracket cs in if c == 93 then some ([], cs) else put_before c rest

abbrev pub from_base : Option ℤ → Option ℤ
from_base none = none
from_base (some n) = some (add_ℕ n 5900)

-- The port: of the parts after the first, at most one or two.
abbrev pub port_of : Resolver → List Text → Option ℤ
port_of r [] = some (pos 5900)
port_of r (display ∷ []) = from_base (r.read_int display)
port_of r (skipped ∷ port ∷ []) = r.read_int port
port_of r (a ∷ b ∷ c ∷ more) = none

pub data Address : Type 0 where
  address : Family → Text → ℤ → Address

abbrev pub at_port : Family → Text → Option ℤ → Option Address
at_port family host none = none
at_port family host (some port) = some (address family host port)

-- `"127.0.0.1"` where the first part is empty.
abbrev pub or_localhost : Text → Text
or_localhost [] = text "127.0.0.1"
or_localhost (c ∷ host) = c ∷ host

unfoldable pub family_of : Resolver → Text → Family
family_of r host =
    if r.has_unix && r.exists host then unix else if r.is_ipv4 host then inet else unspec

-- The address in brackets, which `ipaddress.IPv6Address` has to accept.
abbrev pub bracketed : Resolver → Option (Text × Text) → Option Address
bracketed r none = none
bracketed r (some (host, rest)) =
    if r.is_ipv6 host then at_port inet6 host (port_of r (split_colon rest).1) else none

abbrev pub named_server : Resolver → Text × List Text → Option Address
named_server r (first, more) =
    at_port (family_of r (or_localhost first)) (or_localhost first) (port_of r more)

abbrev pub parse_plain : Resolver → Text → Option Address
parse_plain r [] = named_server r (split_colon [])
parse_plain r (c ∷ server) =
    if c == 91
    then bracketed r (partition_bracket server)
    else named_server r (split_colon (c ∷ server))

abbrev pub websocket_address : Option (Text × ℕ) → Option Address
websocket_address none = none
websocket_address (some (url, port)) = some (address websocket url (pos port))

-- `parse_server`; `none` is `ValueError`.
unfoldable pub parse_server : Resolver → Text → Option Address
unfolding is_websocket_url parse_url split_colon partition_bracket family_of
parse_server r server =
    if is_websocket_url server then websocket_address (parse_url r server) else parse_plain r server
