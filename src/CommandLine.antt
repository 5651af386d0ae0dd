-- ===== src/CommandLine.antt =====
-- What the command line takes from its arguments and the environment: stt_server/__main__.py, with
-- `read_token_file` of stt_server/auth.py.
pub mod Serving
pub mod Reports
use pipecat_local_stt_server.Prelude.{
  String, Bool, true, false, Option, none, some, List, [], ◌∷◌, ◌≡◌, refl, str_eq, if◌then◌else◌,
}
use pipecat_local_stt_server.Prelude.Text.{strip}
use pipecat_local_stt_server.Env.{Environ, env_first}
use pipecat_local_stt_server.TokenFile.{
  bad_encoding, cannot_open, Checked, passed, refused, strict_token,
}
use pipecat_local_stt_server.Backends.Registry.{BackendEntry, find, backends}

abbrev pub default_of : Option BackendEntry → Option String
default_of none = none
default_of (some e) = e.default_model

-- `_resolve_model`
unfoldable pub resolve_model : String → Option String → Option String
unfolding find backends
resolve_model backend none = default_of (find backends backend)
resolve_model backend (some model) = some model

-- `Path.read_text`: the text, an `UnicodeDecodeError` or an `OSError`
pub data Reading : Type 0 where
  reads : String → Reading
  undecodable : Reading
  unreadable : Reading

-- The token files, by their path: `load_token_file` without the path that it returns, and a plain
-- read.
pub record TokenFiles : Type 0 where
  pub load : String → Checked String
  pub read : String → Reading

-- `x or None`
abbrev pub or_none : String → Option String
or_none text = if str_eq text "" then none else some text

abbrev pub present : Checked String → Checked (Option String)
present (passed token) = passed (some token)
present (refused why) = refused why

abbrev pub lenient : Reading → Checked (Option String)
lenient (reads text) = passed (or_none (strip text))
lenient undecodable = refused bad_encoding
lenient unreadable = refused cannot_open

-- `read_token_file`
unfoldable pub read_token_file : TokenFiles → String → Bool → Checked (Option String)
unfolding strip
read_token_file files path strict =
    if strict then present (files.load path) else lenient (files.read path)

-- (get(name) or "").strip()
abbrev pub stripped_value : Option String → String
stripped_value none = ""
stripped_value (some val) = strip val

abbrev pub server_token : String → Checked (Option String)
server_token val = if str_eq val "" then passed none else present (strict_token val)

abbrev pub server_names : List String
server_names = "PIPECAT_STT_AUTH_TOKEN" ∷ "KODA_STT_AUTH_TOKEN" ∷ []

abbrev pub token_from_env : Environ → Bool → Checked (Option String)
token_from_env get true = passed (or_none (stripped_value (get "STT_WS_TOKEN")))
token_from_env get false = server_token (stripped_value (env_first get server_names none))

-- `_resolve_auth_token`
unfoldable pub resolve_auth_token :
    TokenFiles → Environ → Option String → Bool → Checked (Option String)
unfolding read_token_file strip env_first strict_token
resolve_auth_token files get none client = token_from_env get client
resolve_auth_token files get (some path) client =
    let from_file = read_token_file files path (if client then false else true) in
    let from_env = token_from_env get client in if str_eq path "" then from_env else from_file

-- the variables that hold the token of the probe, and of the server
abbrev pub token_names : Bool → List String
token_names true = "STT_WS_TOKEN" ∷ []
token_names false = server_names

abbrev pub AgreeOn : List String → Environ → Environ → Type 0
AgreeOn [] get get' = Unit
AgreeOn (name ∷ names) get get' = (get name ≡ get' name) × AgreeOn names get get'

from_env_apart :
    (client : Bool) (get get' : Environ)
    → AgreeOn (token_names client) get get'
    → token_from_env get client ≡ token_from_env get' client
unfolding env_first
from_env_apart true get get' (same, _) = rw same refl
from_env_apart false get get' (canonical, (legacy, _)) = rw (canonical, legacy) refl

-- The token of the probe depends on no environment variable but `STT_WS_TOKEN`, and so never on the
-- server's secret; the token of the server depends on its own two variables only, and so never on the
-- client's. This holds with a token file and without one.
pub secrets_apart :
    (files : TokenFiles) (token_file : Option String) (client : Bool) (get get' : Environ)
    → AgreeOn (token_names client) get get'
    → resolve_auth_token files get token_file client
      ≡ resolve_auth_token files get' token_file client
unfolding resolve_auth_token
secrets_apart files none client get get' same = from_env_apart client get get' same
secrets_apart files (some path) client get get' same = rw (from_env_apart client get get' same) refl
