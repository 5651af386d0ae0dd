-- ===== src/Scripts/Plist/RoundTrip.antt =====
-- What scripts/render_stt_plist.py writes, read back by scripts/read_stt_plist.py and taken by the
-- server.
use pipecat_local_stt_server.Prelude.{
  ℕ, ◌≤◌, String, Bool, true, false, not, Option, none, some, is_some, List, ◌≡◌, refl, sym, ◌∙◌,
  ap, subst, inl, inr, arith, str_eq, str_contains, Bool-cases, false≢true,
}
use pipecat_local_stt_server.Env.{Environ}
use pipecat_local_stt_server.Config.{Endpoint, accepted, post_init, loopback_hosts}
use pipecat_local_stt_server.Scripts.Plist.{
  Plist, get_flag, read_argv_flags, Flags, read_flags, interpreter, read_field, env_tokens,
  any_truthy, has_auth,
}
use pipecat_local_stt_server.Scripts.Plist.Render.{
  is_abspath, and_then, when, value_of, require, or_default, transport_args, token_args, no_secrets,
  label_of, is_backend, is_model, Agent, arguments, agent_environment, render,
}
use pipecat_local_stt_server.Scripts.Plist.Words.{
  token_flags, address_flags, address_args, token_words, abspath-has_dashes, read-arguments,
}
use pipecat_local_stt_server.Scripts.Plist.Transport.{
  Ensures, Ensures-then, TransportIs, when-some, value_of-filled, transport-TransportIs, TokenIs,
  token-TokenIs,
}

-- What is used of Python's `str` and `int`.
pub record IsNumeric (str : ℕ → String) (int : String → Option ℕ) : Type 0 where
  pub back : (n : ℕ) → int (str n) ≡ some n
  pub shown : (n : ℕ) → str_eq (str n) "" ≡ false

-- the endpoint that the server takes from the flags
abbrev pub endpoint_of : (String → Option ℕ) → Flags → Endpoint
endpoint_of int flags = record {
  socket_path = value_of (some (get_flag "--socket-path" flags));
  host = value_of (some (get_flag "--host" flags));
  port = and_then (value_of (some (get_flag "--port" flags))) int;
}

-- The address is the socket that was asked for, or else the host (the loopback one, if there was none)
-- with a port between 1 and 65535.
abbrev pub IsAddress : (ℕ → String) → Option String → Option String → Flags → Type 0
IsAddress str (some path) host flags =
    (get_flag "--socket-path" flags ≡ path)
    × (get_flag "--host" flags ≡ "")
    × (get_flag "--port" flags ≡ "")
IsAddress str none host flags =
    (get_flag "--socket-path" flags ≡ "")
    × (get_flag "--host" flags ≡ or_default host "127.0.0.1")
    × ((n : ℕ) × (get_flag "--port" flags ≡ str n) × (1 ≤ n) × (n ≤ 65535))

pub record IsReadBack (get : Environ) (str : ℕ → String) (int : String → Option ℕ) (p : Plist)
    : Type 0 where
  pub python : value_of (get "PYTHON") ≡ some (read_field p interpreter)
  pub address : IsAddress str (value_of (get "SOCKET_PATH")) (value_of (get "HOST")) (read_flags p)
  pub token :
      value_of (some (get_flag "--auth-token-file" (read_flags p)))
      ≡ value_of (get "AUTH_TOKEN_FILE")
  pub auth : has_auth p ≡ is_some (value_of (get "AUTH_TOKEN_FILE"))
  pub served : post_init (endpoint_of int (read_flags p)) ≡ accepted

loopback-post_init :
    (host : String) (n : ℕ)
    → str_contains loopback_hosts host ≡ true
    → post_init (record { socket_path = none; host = some host; port = some n }) ≡ accepted
unfolding post_init
loopback-post_init host n h = rw h refl

loopback-filled :
    (host : Option String) → (str_eq (or_default (value_of host) "127.0.0.1") "") ≡ false
loopback-filled none = refl
loopback-filled (some h) = elim (Bool-cases (str_eq h "")) [
  | inl empty ↦ rw empty refl
  | inr filled ↦ rw filled filled
]

socket-post_init :
    (path : String)
    → post_init (record { socket_path = some path; host = none; port = none }) ≡ accepted
unfolding post_init
socket-post_init path = refl

require-some :
    (m : Option String) (pattern : String → Bool) (x : String)
    → and_then m (λ val. when (pattern val) val) ≡ some x
    → (m ≡ some x) × (pattern x ≡ true)
require-some none pattern x h = absurd (false≢true (ap is_some h))
require-some (some y) pattern x h =
    let (good, same) = when-some (pattern y) y x h in (ap some same, ap pattern (sym same) ∙ good)

value_of-twice : (v : Option String) → value_of (value_of v) ≡ value_of v
value_of-twice none = refl
value_of-twice (some val) = elim (Bool-cases (str_eq val "")) [
  | inl empty ↦ rw empty refl
  | inr filled ↦ rw filled (rw filled refl)
]

is_some-value : (val : String) → not (str_eq val "") ≡ is_some (value_of (some val))
is_some-value val = elim (Bool-cases (str_eq val "")) [
  | inl empty ↦ rw empty refl
  | inr filled ↦ rw filled refl
]

-- the flags that are read, for an address and a token
abbrev all_flags : (ℕ → String) → Option String → Option String → ℕ → Option String → Flags
all_flags str socket host n token =
    token_flags token (address_flags str socket (or_default host "127.0.0.1") n)

all-token :
    (str : ℕ → String) (socket host : Option String) (n : ℕ) (token : Option String)
    → value_of (some (get_flag "--auth-token-file" (all_flags str socket host n token)))
      ≡ value_of token
unfolding get_flag
all-token str none host n none = refl
all-token str none host n (some file) = refl
all-token str (some path) host n none = refl
all-token str (some path) host n (some file) = refl

all-IsAddress :
    (str : ℕ → String) (socket host : Option String) (n : ℕ) (token : Option String)
    → 1 ≤ n
    → n ≤ 65535
    → IsAddress str socket host (all_flags str socket host n token)
unfolding get_flag
all-IsAddress str none host n none low high = (refl, refl, (n, refl, low, high))
all-IsAddress str none host n (some file) low high = (refl, refl, (n, refl, low, high))
all-IsAddress str (some path) host n none low high = (refl, refl, refl)
all-IsAddress str (some path) host n (some file) low high = (refl, refl, refl)

-- an address that the server takes
abbrev IsServed : Option String → Option String → Type 0
IsServed (some path) host = str_eq path "" ≡ false
IsServed none host =
    (str_eq (or_default host "127.0.0.1") "" ≡ false)
    × (str_contains loopback_hosts (or_default host "127.0.0.1") ≡ true)

tcp-served :
    (str : ℕ → String) (int : String → Option ℕ)
    → IsNumeric str int
    → (host : String) (n : ℕ) → str_eq host "" ≡ false
    → str_contains loopback_hosts host ≡ true
    → post_init (record {
      socket_path = none;
      host = value_of (some host);
      port = and_then (value_of (some (str n))) int;
    })
      ≡ accepted
tcp-served str int numeric host n filled loopback =
    rw filled (rw (numeric.shown n) (rw (numeric.back n) (loopback-post_init host n loopback)))

all-served :
    (str : ℕ → String) (int : String → Option ℕ)
    → IsNumeric str int
    → (socket host : Option String) (n : ℕ) (token : Option String) → IsServed socket host
    → post_init (endpoint_of int (all_flags str socket host n token)) ≡ accepted
unfolding get_flag
all-served str int numeric none host n none (filled, loopback) =
    tcp-served str int numeric _ n filled loopback
all-served str int numeric none host n (some file) (filled, loopback) =
    tcp-served str int numeric _ n filled loopback
all-served str int numeric (some path) host n none filled = rw filled (socket-post_init path)
all-served str int numeric (some path) host n (some file) filled = rw filled (socket-post_init path)

-- What was asked for, with a transport and a token that are those of the flags, is read back.
flags-IsReadBack :
    (str : ℕ → String) (int : String → Option ℕ)
    → IsNumeric str int
    → (get : Environ) (p : Plist) (n : ℕ)
    → value_of (get "PYTHON") ≡ some (read_field p interpreter)
    → any_truthy p.environment env_tokens ≡ false
    → 1 ≤ n
    → n ≤ 65535
    → IsServed (value_of (get "SOCKET_PATH")) (value_of (get "HOST"))
    → read_flags p
      ≡ all_flags str
          (value_of (get "SOCKET_PATH"))
          (value_of (get "HOST"))
          n
          (value_of (get "AUTH_TOKEN_FILE"))
    → IsReadBack get str int p
unfolding has_auth
flags-IsReadBack str int numeric get p n python untrue low high served same = record {
  python = python;
  address = rw same (all-IsAddress str _ _ n _ low high);
  token = token;
  auth = rw untrue (is_some-value _ ∙ ap is_some token);
  served = rw same (all-served str int numeric _ _ n _ served);
}
  where
    token :
        value_of (some (get_flag "--auth-token-file" (read_flags p)))
        ≡ value_of (get "AUTH_TOKEN_FILE")
    token =
        rw same (
          all-token str (value_of (get "SOCKET_PATH")) (value_of (get "HOST")) n
            (value_of (get "AUTH_TOKEN_FILE")))
        ∙ value_of-twice (get "AUTH_TOKEN_FILE")

transport-shape :
    (str : ℕ → String) (socket host : Option String) (args : List String)
    → TransportIs str socket host args
    → (n : ℕ) × (args ≡ address_args str socket (or_default host "127.0.0.1") n)
      × (1 ≤ n)
      × (n ≤ 65535)
transport-shape str none host args (n, same, low, high, loopback) = (n, same, low, high)
transport-shape str (some path) host args same = (1, same, ground arith, ground arith)

transport-IsServed :
    (str : ℕ → String) (get : Environ) (args : List String)
    → TransportIs str (value_of (get "SOCKET_PATH")) (value_of (get "HOST")) args
    → IsServed (value_of (get "SOCKET_PATH")) (value_of (get "HOST"))
transport-IsServed str get args = by_socket (value_of (get "SOCKET_PATH")) refl
  where
    by_socket :
        (socket : Option String)
        → value_of (get "SOCKET_PATH") ≡ socket
        → TransportIs str socket (value_of (get "HOST")) args
        → IsServed socket (value_of (get "HOST"))
    by_socket none found (n, same, low, high, loopback) = (loopback-filled (get "HOST"), loopback)
    by_socket (some path) found same = value_of-filled (get "SOCKET_PATH") path found

token-shape : (v : Option String) (args : List String) → TokenIs v args → args ≡ token_words v
token-shape none args same = same
token-shape (some path) args same = same

-- what `render` gives, once every part is there
agent-IsReadBack :
    (str : ℕ → String) (int : String → Option ℕ)
    → IsNumeric str int
    → (get : Environ) (python backend model home : String) (transport token : List String)
    → require (get "PYTHON") is_abspath ≡ some python
    → TransportIs str (value_of (get "SOCKET_PATH")) (value_of (get "HOST")) transport
    → TokenIs (value_of (get "AUTH_TOKEN_FILE")) token
    → IsReadBack get str int (record {
      program_arguments = some (arguments python transport backend model token);
      environment = some (agent_environment home);
    })
unfolding read_field read_flags env_tokens
agent-IsReadBack str int numeric get python backend model home transport token found is_transport
      is_token =
    let (value, slash) = require-some (value_of (get "PYTHON")) is_abspath python found in
    let (n, same, low, high) = transport-shape str _ _ transport is_transport in
    flags-IsReadBack str int numeric get _ n value refl low high
      (transport-IsServed str get transport is_transport)
      (ap (λ (args : List String). read_argv_flags (arguments python args backend model token)) same
        ∙ ap
            (λ (args : List String). read_argv_flags (
              arguments python
                (address_args str (value_of (get "SOCKET_PATH"))
                  (or_default (value_of (get "HOST")) "127.0.0.1") n)
                backend model args))
            (token-shape _ token is_token)
        ∙ read-arguments str python backend model _ n _ _ (abspath-has_dashes python slash))

-- What `render` writes is read back, where Python's `str` and `int` are inverse: the reader finds the
-- interpreter, the address (the socket path, or the host and a port between 1 and 65535) and the token
-- file that were asked for, says that the agent needs a token where a token file was given, and the server
-- takes the endpoint of the flags.
pub render-IsReadBack :
    (str : ℕ → String) (int : String → Option ℕ)
    → IsNumeric str int
    → (get : Environ) → Ensures (λ a. IsReadBack get str int a.plist) (render str get)
unfolding render transport_args token_args
render-IsReadBack str int numeric get =
    let P : Agent → Type 0 = λ a. IsReadBack get str int a.plist in
    Ensures-then P (label_of get) _ λ label _.
      Ensures-then P (require (get "PYTHON") is_abspath) _ λ python found.
        Ensures-then P (require (get "REPO_ROOT") is_abspath) _ λ cwd _.
          Ensures-then P (transport_args str get) _ λ transport at_transport.
            Ensures-then P (token_args get) _ λ token at_token.
              Ensures-then P (no_secrets get) _ λ clean _.
                Ensures-then P (require (get "BACKEND") is_backend) _ λ backend _.
                  Ensures-then P (require (get "MODEL") is_model) _ λ model _.
                    Ensures-then P (require (get "HOME") is_abspath) _ λ home _.
                      Ensures-then P (require (get "LOG_DIR") is_abspath) _ λ log_dir _.
                        Ensures-then P (require (get "PLIST_DST") is_abspath) _ λ plist_dst _.
                          agent-IsReadBack str int numeric get python backend model home transport
                            token found
                            (subst
                              (Ensures (
                                TransportIs str (value_of (get "SOCKET_PATH"))
                                  (value_of (get "HOST"))))
                              at_transport
                              (transport-TransportIs str (value_of (get "SOCKET_PATH"))
                                (value_of (get "HOST")) (value_of (get "PORT"))))
                            (subst (Ensures (TokenIs (value_of (get "AUTH_TOKEN_FILE")))) at_token
                              (token-TokenIs (value_of (get "AUTH_TOKEN_FILE"))))
