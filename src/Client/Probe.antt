-- ===== src/Client/Probe.antt =====
-- The endpoint of the status probe and its warning: `_resolve_probe_endpoint` and `_probe_status` of
-- stt_server/__main__.py.
use pipecat_local_stt_server.Prelude.{
  String, Bool, not, ◌&&◌, ◌||◌, Option, none, some, is_some, if◌then◌else◌,
}
use pipecat_local_stt_server.Env.{Environ}
use pipecat_local_stt_server.Client.{
  Python, Endpoint, is_set, unless, resolve_endpoint_from_env, tcp_uri, is_cleartext_remote,
  is_accepted, Target, target,
}

-- the flags give the endpoint, where there is one
abbrev pub is_flagged : {Port : Type 0} → Endpoint Port → Bool
is_flagged args =
    is_set args.uri || is_set args.socket_path || is_set args.host || is_some args.port

abbrev pub from_flags : {Port : Type 0} → Endpoint Port → Endpoint Port
from_flags args =
    let sock = unless (is_set args.uri) args.socket_path in
    record {
      uri = args.uri;
      socket_path = sock;
      host = unless (is_set args.uri || is_set sock) args.host;
      port = unless (is_set args.uri || is_set sock) args.port;
    }

abbrev pub or_default_socket : {Port : Type 0} → Option String → Endpoint Port → Endpoint Port
or_default_socket default_sock e =
    if not (is_set e.uri || is_set e.socket_path || is_set e.host) && is_set default_sock
    then record { uri = e.uri; socket_path = default_sock; host = e.host; port = e.port }
    else e

abbrev pub from_environment :
    {Port : Type 0} → Option String → Option (Endpoint Port) → Option (Endpoint Port)
from_environment default_sock none = none
from_environment default_sock (some e) = some (or_default_socket default_sock e)

-- `_resolve_probe_endpoint`: `none` where the port of the environment is no number
unfoldable pub resolve_probe_endpoint :
    {Port : Type 0} → Python Port → Environ → Endpoint Port → Option (Endpoint Port)
unfolding resolve_endpoint_from_env
resolve_probe_endpoint py get args =
    if is_flagged args
    then some (from_flags args)
    else from_environment (get "STT_WS_DEFAULT_SOCKET") (resolve_endpoint_from_env py get)

-- the URI that the guard looks at, if any
abbrev pub host_uri :
    {Port : Type 0} → Python Port → Option String → Option String → Option Port → Option String
host_uri py uri (some host) (some port) =
    if is_set (some host) then some (tcp_uri py host port) else uri
host_uri py uri _ _ = uri

unfoldable pub effective_uri : {Port : Type 0} → Python Port → Endpoint Port → Option String
unfolding tcp_uri
effective_uri py e =
    if is_set e.uri
    then e.uri
    else if is_set e.socket_path
    then e.uri
    else host_uri py e.uri e.host e.port

-- The start of `_probe_status`: its warning, if one is printed, with the URI, and the client's target, if the
-- endpoint is taken.
pub record Probe : Type 0 where
  pub warning : Option String
  pub goes_to : Option Target

abbrev pub warning_of :
    {Port : Type 0} → Python Port → Option String → Option String → Option String
warning_of py token none = none
warning_of py token (some uri) =
    if is_set token && (is_set (some uri) && is_cleartext_remote py uri) then some uri else none

unfoldable pub probe_start :
    {Port : Type 0} → Python Port → (String → String) → Option String → Endpoint Port → Probe
unfolding effective_uri is_cleartext_remote is_accepted target
probe_start py expanduser token e = record {
  warning = warning_of py token (effective_uri py e);
  goes_to = if is_accepted e then some (target py expanduser e) else none;
}
