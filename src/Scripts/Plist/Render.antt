-- ===== src/Scripts/Plist/Render.antt =====
-- The property list that scripts/render_stt_plist.py writes for an agent.
use Prim.Native.Char.{code}
use Prim.Native.String.{◌++◌ as str_append}
use pipecat_local_stt_server.Prelude.{
  ℕ, ◌+◌, ◌-◌, ◌*◌, String, Bool, true, false, not, ◌&&◌, ◌||◌, ◌==◌, leb, Option, none, some,
  is_some, List, [], ◌∷◌, ◌++◌, str_eq, str_contains, all, length, if◌then◌else◌,
}
use pipecat_local_stt_server.Prelude.Text.{codes, is_nil}
use pipecat_local_stt_server.Env.{Environ, env_first}
use pipecat_local_stt_server.Config.{loopback_hosts}
use pipecat_local_stt_server.Scripts.Plist.{EnvValue, text, Plist}

abbrev pub is_digit : ℕ → Bool
is_digit c = leb 48 c && leb c 57

-- [A-Za-z0-9._-]
abbrev pub is_label_char : ℕ → Bool
is_label_char c =
    is_digit c || (leb 65 c && leb c 90) || (leb 97 c && leb c 122) || c == 46 || c == 95 || c == 45

-- with `/`
abbrev pub is_model_char : ℕ → Bool
is_model_char c = is_label_char c || c == 47

-- with `+`, the blank and `@`
abbrev pub is_path_char : ℕ → Bool
is_path_char c = is_model_char c || c == 43 || c == 32 || c == 64

-- `fullmatch` of the allowlists
unfoldable pub is_abspath : String → Bool
is_abspath String.[] = false
is_abspath (String.◌∷◌ c s) = code c == 47 && not (is_nil s) && all is_path_char (codes s)

unfoldable pub is_model : String → Bool
is_model s = not (is_nil s) && all is_model_char (codes s)

unfoldable pub is_label : String → Bool
is_label s = not (is_nil s) && all is_label_char (codes s)

unfoldable pub is_port : String → Bool
is_port s = not (is_nil s) && all is_digit (codes s) && leb (length (codes s)) 5

unfoldable pub is_backend : String → Bool
is_backend s = str_contains ("echo" ∷ "mlx" ∷ "parakeet" ∷ "nemotron" ∷ "kyutai" ∷ []) s

-- label.replace(".", "-")
unfoldable pub replace_dots : String → String
replace_dots String.[] = String.[]
replace_dots (String.◌∷◌ c s) =
    let rest = replace_dots s in if code c == 46 then str_append "-" rest else String.◌∷◌ c rest

unfoldable pub log_basename : String → String
unfolding replace_dots
log_basename label =
    if str_eq label "pipecat.stt-server"
    then "pipecat-stt"
    else if str_eq label "koda.stt-server"
    then "koda-stt"
    else replace_dots label

-- What a refusal, an exit with status 2, leaves of a rendering: `none`.
abbrev pub and_then : {A B : Type 0} → Option A → (A → Option B) → Option B
and_then none next = none
and_then (some x) next = next x

abbrev pub when : {A : Type 0} → Bool → A → Option A
when test x = if test then some x else none

-- an empty value counts as unset
abbrev pub value_of : Option String → Option String
value_of none = none
value_of (some val) = if str_eq val "" then none else some val

-- `_require`
abbrev pub require : Option String → (String → Bool) → Option String
require value pattern = and_then (value_of value) λ val. when (pattern val) val

abbrev pub or_default : Option String → String → String
or_default none default = default
or_default (some val) default = val

-- int of a text of digits
unfoldable pub number_of : ℕ → List ℕ → ℕ
number_of n [] = n
number_of n (c ∷ cs) = number_of (n * 10 + (c - 48)) cs

-- `str` is Python's `str` of a number
abbrev pub tcp_args : (ℕ → String) → String → String → Option (List String)
tcp_args str host port =
    let n = number_of 0 (codes port) in
    when (leb 1 n && leb n 65535) ("--host" ∷ host ∷ "--port" ∷ str n ∷ [])

abbrev pub tcp_of : (ℕ → String) → Option String → Option String → Option (List String)
tcp_of str host port =
    and_then
      (when (str_contains loopback_hosts (or_default host "127.0.0.1"))
        (or_default host "127.0.0.1"))
      λ host. and_then (require port is_port) λ port. tcp_args str host port

abbrev pub transport_of :
    (ℕ → String) → Option String → Option String → Option String → Option (List String)
transport_of str none host port = tcp_of str host port
transport_of str (some path) host port =
    if is_some host || is_some port
    then none
    else and_then (when (is_abspath path) path) λ path. some ("--socket-path" ∷ path ∷ [])

unfoldable pub transport_args : (ℕ → String) → Environ → Option (List String)
unfolding is_abspath is_port number_of loopback_hosts
transport_args str get =
    transport_of str (value_of (get "SOCKET_PATH")) (value_of (get "HOST")) (value_of (get "PORT"))

abbrev pub token_args_of : Option String → Option (List String)
token_args_of none = some []
token_args_of (some path) = when (is_abspath path) ("--auth-token-file" ∷ path ∷ [])

unfoldable pub token_args : Environ → Option (List String)
unfolding is_abspath
token_args get = token_args_of (value_of (get "AUTH_TOKEN_FILE"))

-- a secret is refused, never written
unfoldable pub no_secrets : Environ → Option Bool
no_secrets get =
    when
      (not (
        is_some (value_of (get "PIPECAT_STT_AUTH_TOKEN"))
        || is_some (value_of (get "KODA_STT_AUTH_TOKEN"))))
      true

unfoldable pub label_of : Environ → Option String
unfolding env_first is_label
label_of get =
    let label =
      or_default (env_first get ("PIPECAT_STT_LABEL" ∷ "KODA_STT_LABEL" ∷ []) none)
        "pipecat.stt-server" in
    when (is_label label) label

-- a definition of an agent; the schedule, which is fixed, is left out
pub record Agent : Type 0 where
  pub label : String
  pub working_directory : String
  pub plist : Plist
  pub log_dir : String
  pub basename : String
  pub destination : String

abbrev pub arguments : String → List String → String → String → List String → List String
arguments python transport backend model token =
    python
    ∷ "-m"
    ∷ "stt_server"
    ∷ (transport ++ ("--backend" ∷ backend ∷ "--model" ∷ model ∷ "--log-level" ∷ "INFO" ∷ token))

abbrev pub agent_environment : String → String → Option EnvValue
agent_environment home name =
    if str_eq name "PATH"
    then some (text "/opt/homebrew/bin:/usr/local/bin:/usr/bin:/bin")
    else if str_eq name "HOME"
    then some (text home)
    else none

-- `main`, without the writing of the file
unfoldable pub render : (ℕ → String) → Environ → Option Agent
unfolding label_of is_abspath transport_args token_args no_secrets is_backend is_model log_basename
render str get = and_then (label_of get) λ label.
    and_then (require (get "PYTHON") is_abspath) λ python.
      and_then (require (get "REPO_ROOT") is_abspath) λ cwd.
        and_then (transport_args str get) λ transport. and_then (token_args get) λ token.
          and_then (no_secrets get) λ clean.
            and_then (require (get "BACKEND") is_backend) λ backend.
              and_then (require (get "MODEL") is_model) λ model.
                and_then (require (get "HOME") is_abspath) λ home.
                  and_then (require (get "LOG_DIR") is_abspath) λ log_dir.
                    and_then (require (get "PLIST_DST") is_abspath) λ plist_dst. some (record {
                      label = label;
                      working_directory = cwd;
                      plist = record {
                        program_arguments = some (arguments python transport backend model token);
                        environment = some (agent_environment home);
                      };
                      log_dir = log_dir;
                      basename = log_basename label;
                      destination = plist_dst;
                    })
