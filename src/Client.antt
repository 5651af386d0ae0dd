-- ===== src/Client.antt =====
-- The endpoint of a client, and what it sends: stt_server/client.py.
pub mod Requests
pub mod Probe
pub mod Guard
pub mod Handshake
pub mod Answered
use pipecat_local_stt_server.Prelude.{
  String, Bool, true, false, not, ◌&&◌, ◌||◌, Option, none, some, is_some, List, [], ◌∷◌, str_eq,
  str_contains, if◌then◌else◌,
}
use pipecat_local_stt_server.Prelude.Text.{strip}
use pipecat_local_stt_server.Env.{Environ}

-- What is used of Python's libraries: `str.lower`, the scheme and the host name of `urlsplit` (none where it
-- raises), whether `ip_address` takes a text, with the version and the loopback test of the address, and
-- `int` and `str` for ports.
pub record Address : Type 0 where
  pub is_v6 : Bool
  pub is_loopback : Bool

pub record SplitUri : Type 0 where
  pub scheme : String
  pub hostname : Option String

pub record Python (Port : Type 0) : Type 0 where
  pub lower : String → String
  pub urlsplit : String → Option SplitUri
  pub ip_address : String → Option Address
  pub int : String → Option Port
  pub str : Port → String

-- the keyword arguments of an endpoint
pub record Endpoint (Port : Type 0) : Type 0 where
  pub uri : Option String
  pub socket_path : Option String
  pub host : Option String
  pub port : Option Port

-- `+` of texts
abbrev pub append : String → String → String
append String.[] t = t
append (String.◌∷◌ c s) t = String.◌∷◌ c (append s t)

-- bool of a text or None
abbrev pub is_set : Option String → Bool
is_set none = false
is_set (some val) = not (str_eq val "")

unfoldable pub loopback_hosts : List String
loopback_hosts = "localhost" ∷ "127.0.0.1" ∷ "::1" ∷ []

abbrev pub is_remote_address : Option Address → Bool
is_remote_address none = true
is_remote_address (some addr) = not addr.is_loopback

abbrev pub or_text : Option String → String
or_text none = ""
or_text (some val) = val

abbrev pub is_remote_host : {Port : Type 0} → Python Port → String → Bool
is_remote_host py host =
    if str_eq host "" || str_contains loopback_hosts host
    then false
    else is_remote_address (py.ip_address host)

abbrev pub is_cleartext_split : {Port : Type 0} → Python Port → Option SplitUri → Bool
is_cleartext_split py none = false
is_cleartext_split py (some parsed) =
    if not (str_eq (py.lower parsed.scheme) "ws")
    then false
    else is_remote_host py (py.lower (or_text parsed.hostname))

unfoldable pub is_cleartext_remote : {Port : Type 0} → Python Port → String → Bool
unfolding loopback_hosts
is_cleartext_remote py uri = is_cleartext_split py (py.urlsplit uri)

-- (env.get(name) or "").strip() or None
abbrev pub unless_blank : String → Option String
unless_blank val = if str_eq val "" then none else some val

abbrev pub stripped : Option String → Option String
stripped none = none
stripped (some val) = unless_blank (strip val)

-- a lower-priority field is dropped
abbrev pub unless : {A : Type 0} → Bool → Option A → Option A
unless test o = if test then none else o

abbrev pub by_precedence :
    {Port : Type 0} → Option String → Option String → Option String → Option Port → Endpoint Port
by_precedence uri sock host port = record {
  uri = uri;
  socket_path = unless (is_some uri) sock;
  host = unless (is_some uri || is_some sock) host;
  port = unless (is_some uri || is_some sock) port;
}

-- an endpoint with a port that is read, or `none` where `int` raises
abbrev pub read_port :
    {Port : Type 0}
    → Python Port
    → Option String
    → (Option Port → Endpoint Port)
    → Option (Endpoint Port)
read_port py none k = some (k none)
read_port py (some raw) k = elim (py.int raw) [ none ↦ none | some port ↦ some (k (some port)) ]

unfoldable pub resolve_endpoint_from_env :
    {Port : Type 0} → Python Port → Environ → Option (Endpoint Port)
unfolding strip
resolve_endpoint_from_env py get = read_port py (stripped (get "STT_WS_PORT")) (
    by_precedence (stripped (get "STT_WS_URI")) (stripped (get "STT_WS_SOCKET"))
      (stripped (get "STT_WS_HOST")))

abbrev pub bracketed : String → Option Address → String
bracketed host none = host
bracketed host (some addr) = if addr.is_v6 then append "[" (append host "]") else host

unfoldable pub format_host_for_uri : {Port : Type 0} → Python Port → String → String
format_host_for_uri py host = bracketed host (py.ip_address host)

unfoldable pub tcp_uri : {Port : Type 0} → Python Port → String → Port → String
unfolding format_host_for_uri
tcp_uri py host port =
    append "ws://" (append (format_host_for_uri py host) (append ":" (append (py.str port) "/")))

-- `TranscriptionClient.__init__`: whether the endpoint is taken
unfoldable pub is_accepted : {Port : Type 0} → Endpoint Port → Bool
is_accepted e = is_some e.uri || is_some e.socket_path || (is_some e.host && is_some e.port)

-- Where `connect` goes: a URI, the URI made of a host and a port, or a socket. `nowhere` stands for the URI
-- that a missing host or port would give.
pub data Target : Type 0 where
  web : String → Target
  unix : String → Target
  nowhere : Target

abbrev pub tcp_target : {Port : Type 0} → Python Port → Option String → Option Port → Target
tcp_target py (some host) (some port) = web (tcp_uri py host port)
tcp_target py _ _ = nowhere

-- `expanduser` is `os.path.expanduser`
abbrev pub below_uri : {Port : Type 0} → Python Port → (String → String) → Endpoint Port → Target
below_uri py expanduser e =
    if is_set e.socket_path
    then unix (expanduser (or_text e.socket_path))
    else tcp_target py e.host e.port

unfoldable pub target : {Port : Type 0} → Python Port → (String → String) → Endpoint Port → Target
unfolding tcp_uri
target py expanduser e = if is_set e.uri then web (or_text e.uri) else below_uri py expanduser e
