-- ===== src/Client/Guard.antt =====
-- The probe's warning and where its token goes: `_probe_status` of stt_server/__main__.py beside
-- `TranscriptionClient` of stt_server/client.py.
use pipecat_local_stt_server.Prelude.{
  String, Bool, true, false, not, ◌&&◌, ◌||◌, Option, none, some, is_some, ◌≡◌, ◌↔◌, refl, sym, ◌∙◌,
  ap, arith, str_eq, eq_iff, inl, inr, Bool-cases, if◌then◌else◌, false≢true,
}
use pipecat_local_stt_server.Prelude.Text.{is_nil, strip}
use pipecat_local_stt_server.Env.{Environ}
use pipecat_local_stt_server.Client.{
  Python, Endpoint, is_set, unless, or_text, stripped, by_precedence, read_port,
  resolve_endpoint_from_env, tcp_uri, is_cleartext_remote, is_accepted, Target, web, target,
}
use pipecat_local_stt_server.Client.Probe.{
  is_flagged, from_flags, or_default_socket, from_environment, resolve_probe_endpoint,
  effective_uri, warning_of, probe_start,
}

-- A text that is given is not empty.
abbrev pub IsFilled : Option String → Type 0
IsFilled none = Unit
IsFilled (some val) = str_eq val "" ≡ false

pub record HasNoEmpty {Port : Type 0} (e : Endpoint Port) : Type 0 where
  pub uri : IsFilled e.uri
  pub socket_path : IsFilled e.socket_path
  pub host : IsFilled e.host

unless-IsFilled : (test : Bool) (o : Option String) → IsFilled o → IsFilled (unless test o)
unless-IsFilled true o h = tt
unless-IsFilled false o h = h

stripped-IsFilled : (o : Option String) → IsFilled (stripped o)
stripped-IsFilled none = tt
stripped-IsFilled (some val) = elim (Bool-cases (str_eq (strip val) "")) [
  | inl empty ↦ rw empty tt
  | inr filled ↦ rw filled filled
]

from_flags-HasNoEmpty :
    {Port : Type 0} (args : Endpoint Port) → HasNoEmpty args → HasNoEmpty (from_flags args)
from_flags-HasNoEmpty args h = record {
  uri = h.uri;
  socket_path = unless-IsFilled _ args.socket_path h.socket_path;
  host = unless-IsFilled _ args.host h.host;
}

set-IsFilled : (o : Option String) → is_set o ≡ true → IsFilled o
set-IsFilled none h = tt
set-IsFilled (some val) h = ground (arith, h)

default-HasNoEmpty :
    {Port : Type 0} (sock : Option String) (e : Endpoint Port)
    → HasNoEmpty e
    → HasNoEmpty (or_default_socket sock e)
default-HasNoEmpty sock e h =
    by_test (not (is_set e.uri || is_set e.socket_path || is_set e.host)) (is_set sock) refl
  where
    by_test :
        (free given : Bool)
        → is_set sock ≡ given
        → HasNoEmpty (
            if free && given
            then record { uri = e.uri; socket_path = sock; host = e.host; port = e.port }
            else e)
    by_test true true given = record {
      uri = h.uri;
      socket_path = set-IsFilled sock given;
      host = h.host;
    }
    by_test true false given = h
    by_test false given same = h

-- a refusal, or an endpoint with no empty text
abbrev IsClean : {Port : Type 0} → Option (Endpoint Port) → Type 0
IsClean none = Unit
IsClean (some e) = HasNoEmpty e

environment-IsClean :
    {Port : Type 0} (py : Python Port) (get : Environ) → IsClean (resolve_endpoint_from_env py get)
unfolding resolve_endpoint_from_env
environment-IsClean {Port} py get = by_port (stripped (get "STT_WS_PORT"))
  where
    clean :
        (port : Option Port)
        → HasNoEmpty (
            by_precedence
              (stripped (get "STT_WS_URI"))
              (stripped (get "STT_WS_SOCKET"))
              (stripped (get "STT_WS_HOST"))
              port)
    clean port = record {
      uri = stripped-IsFilled (get "STT_WS_URI");
      socket_path = unless-IsFilled _ _ (stripped-IsFilled (get "STT_WS_SOCKET"));
      host = unless-IsFilled _ _ (stripped-IsFilled (get "STT_WS_HOST"));
    }

    by_int :
        (o : Option Port)
        → IsClean (elim o [
          | none ↦ none
          | some port ↦ some (
              by_precedence
                (stripped (get "STT_WS_URI"))
                (stripped (get "STT_WS_SOCKET"))
                (stripped (get "STT_WS_HOST"))
                (some port))
        ])
    by_int none = tt
    by_int (some port) = clean (some port)

    by_port :
        (raw : Option String)
        → IsClean (
            read_port py raw (
              by_precedence
                (stripped (get "STT_WS_URI"))
                (stripped (get "STT_WS_SOCKET"))
                (stripped (get "STT_WS_HOST"))))
    by_port none = clean none
    by_port (some raw) = by_int (py.int raw)

default-IsClean :
    {Port : Type 0} (sock : Option String) (o : Option (Endpoint Port))
    → IsClean o
    → IsClean (from_environment sock o)
default-IsClean sock none h = tt
default-IsClean sock (some e) h = default-HasNoEmpty sock e h

resolved-IsClean :
    {Port : Type 0} (py : Python Port) (get : Environ) (args : Endpoint Port)
    → HasNoEmpty args
    → IsClean (resolve_probe_endpoint py get args)
unfolding resolve_probe_endpoint
resolved-IsClean py get args h = elim (Bool-cases (is_flagged args)) [
  | inl flagged ↦ rw flagged (from_flags-HasNoEmpty args h)
  | inr free ↦
      rw free (default-IsClean (get "STT_WS_DEFAULT_SOCKET") _ (environment-IsClean py get))
]

abbrev web_of : Option Target → Option String
web_of (some (web uri)) = some uri
web_of _ = none

same_text : {x y : String} → some x ≡ some y → x ≡ y
same_text {x = x} h = ap (λ (o : Option String). or_text o) h

-- the warning names the URI that the token goes to in cleartext
abbrev pub IsExposed :
    {Port : Type 0} → Python Port → Option String → Option Target → String → Type 0
IsExposed py token goes_to uri =
    (is_set token ≡ true) × (goes_to ≡ some (web uri)) × (is_cleartext_remote py uri ≡ true)

warning-none :
    {Port : Type 0} (py : Python Port) (token : Option String) (goes_to : Option Target)
    (u : String)
    → web_of goes_to ≡ none
    → (none ≡ some u) ↔ IsExposed py token goes_to u
warning-none py token goes_to u elsewhere =
    (λ h. absurd (false≢true (ap is_some h)), λ h. sym elsewhere ∙ ap web_of (h.1))

warning-web :
    {Port : Type 0} (py : Python Port) (token : Option String) (uri u : String)
    → str_eq uri "" ≡ false
    → (warning_of py token (some uri) ≡ some u) ↔ IsExposed py token (some (web uri)) u
warning-web py token uri u filled = rw filled (forth, back)
  where
    forth :
        (if is_set token && is_cleartext_remote py uri then some uri else none) ≡ some u
        → IsExposed py token (some (web uri)) u
    forth h = elim (Bool-cases (is_set token && is_cleartext_remote py uri)) [
      | inl exposed ↦
          let same = same_text (rw exposed at h) in
          (
            ground (arith, exposed),
            ap (λ (v : String). some (web v)) same,
            ap (is_cleartext_remote py) (sym same) ∙ ground (arith, exposed),
          )
      | inr safe ↦ absurd (false≢true (ap is_some (rw safe at h)))
    ]

    back :
        IsExposed py token (some (web uri)) u
        → (if is_set token && is_cleartext_remote py uri then some uri else none) ≡ some u
    back h =
        let same = same_text (ap web_of (h.1)) in
        rw (h.0) (rw (ap (is_cleartext_remote py) same ∙ h.2) (ap some same))

tcp_uri-filled :
    {Port : Type 0} (py : Python Port) (host : String) (port : Port)
    → str_eq (tcp_uri py host port) "" ≡ false
unfolding tcp_uri
tcp_uri-filled py host port = elim (Bool-cases (str_eq (tcp_uri py host port) "")) [
  | inl empty ↦ absurd (false≢true (ap is_nil ((eq_iff (tcp_uri py host port) "").0 empty)))
  | inr filled ↦ filled
]

probe-IsExposed :
    {Port : Type 0} (py : Python Port) (expanduser : String → String) (token : Option String)
    (e : Endpoint Port)
    → HasNoEmpty e
    → (u : String)
    → ((probe_start py expanduser token e).warning ≡ some u)
      ↔ IsExposed py token (probe_start py expanduser token e).goes_to u
unfolding probe_start effective_uri is_accepted target
probe-IsExposed {Port} py expanduser token e h u =
    by_fields e.uri e.socket_path e.host e.port h.uri h.socket_path h.host
  where
    by_fields :
        (uri sock host : Option String) (port : Option Port)
        → IsFilled uri
        → IsFilled sock
        → IsFilled host
        → ((probe_start py expanduser token
              (record { uri = uri; socket_path = sock; host = host; port = port })).warning
            ≡ some u)
          ↔ IsExposed py token
              (probe_start py expanduser token
                (record { uri = uri; socket_path = sock; host = host; port = port })).goes_to
              u
    by_fields (some uri) sock host port filled _ _ = rw filled (warning-web py token uri u filled)
    by_fields none (some sock) host port _ filled _ = rw filled (warning-none py token _ u refl)
    by_fields none none (some host) (some port) _ _ filled =
        rw filled (warning-web py token (tcp_uri py host port) u (tcp_uri-filled py host port))
    by_fields none none (some host) none _ _ filled = warning-none py token none u refl
    by_fields none none none port _ _ _ = warning-none py token none u refl

abbrev pub Guarded :
    {Port : Type 0}
    → Python Port
    → (String → String)
    → Option String
    → Option (Endpoint Port)
    → Type 0
Guarded py expanduser token none = Unit
Guarded py expanduser token (some e) =
    (u : String)
    → ((probe_start py expanduser token e).warning ≡ some u)
      ↔ IsExposed py token (probe_start py expanduser token e).goes_to u

clean-Guarded :
    {Port : Type 0} (py : Python Port) (expanduser : String → String) (token : Option String)
    (o : Option (Endpoint Port))
    → IsClean o
    → Guarded py expanduser token o
clean-Guarded py expanduser token none h = tt
clean-Guarded py expanduser token (some e) h = probe-IsExposed py expanduser token e h

-- For flags without an empty text, and any environment: the probe warns of a URI exactly where it has a
-- token and its client then connects to that URI, given or made of the host and the port, and the URI
-- is cleartext to a remote host. So no token is sent in cleartext to a remote host without the warning,
-- and a socket is never warned of.
pub warning_exact :
    {Port : Type 0} (py : Python Port) (expanduser : String → String) (get : Environ)
    (token : Option String) (args : Endpoint Port)
    → HasNoEmpty args
    → Guarded py expanduser token (resolve_probe_endpoint py get args)
warning_exact py expanduser get token args h =
    clean-Guarded py expanduser token (resolve_probe_endpoint py get args)
      (resolved-IsClean py get args h)
