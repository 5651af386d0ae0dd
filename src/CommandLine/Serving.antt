-- ===== src/CommandLine/Serving.antt =====
-- How a serving process reports its failure: `_preflight_listener`, `_cmd_serve`, `_run_serve` and
-- `_report_fatal` of stt_server/__main__.py.
use pipecat_local_stt_server.Prelude.{
  ℕ, String, Bool, true, false, not, Option, none, some, List, [], ◌∷◌, ◌++◌, if◌then◌else◌,
}
use pipecat_local_stt_server.Startup.{Code, config}

-- What a process ends by. Exceptions of Python's are numbered; a `SystemExit` has a text or a status, and a
-- cause where it was raised from an exception.
pub data ExitCode : Type 0 where
  exit_text : String → ExitCode
  exit_status : ℕ → ExitCode

pub data Raised : Type 0 where
  error : ℕ → Raised
  system_exit : ExitCode → Option ℕ → Raised
  keyboard_interrupt : Raised

-- `killed` is the hard exit of `serve`.
pub data Ending : Type 0 where
  finished : Ending
  raises : Raised → Ending
  killed : ℕ → Ending

-- a line or a traceback on stderr; an event on stdout with its code and message, and the exception's type
pub data Report : Type 0 where
  line trace : ℕ → Report
  event : Option (Code × String) → String → Report

-- What is read of exceptions: whether one is a ValueError, an OSError or an ImportError, whether it is an
-- OSError, the name of its type, and its class as `classify_startup_error` gives it.
pub record Exceptions : Type 0 where
  pub is_expected : ℕ → Bool
  pub is_os_error : ℕ → Bool
  pub type_name : ℕ → String
  pub classify : ℕ → Option (Code × String)

-- What `connect` on the socket gives: a connection, a timeout, one of the errors ECONNREFUSED and ENOENT, one
-- of EAGAIN and EWOULDBLOCK, or another OSError.
pub data Connect : Type 0 where
  connected timed_out refused would_block : Connect
  fails : ℕ → Connect

-- `busy` is the OSError with EADDRINUSE that the preflight makes. `binds` are the addresses of the host and
-- port in their order, each with the error that binding to it raises, or the error of `getaddrinfo`.
pub record Listening : Type 0 where
  pub lock_held : Bool
  pub is_socket : Bool
  pub connect : Connect
  pub busy : ℕ
  pub resolve_fails : Option ℕ
  pub binds : List (Option ℕ)

abbrev pub connect_result : ℕ → Connect → Option ℕ
connect_result busy connected = some busy
connect_result busy timed_out = some busy
connect_result busy refused = none
connect_result busy would_block = some busy
connect_result busy (fails id) = some id

abbrev pub first_error : List (Option ℕ) → Option ℕ
first_error [] = none
first_error (none ∷ rest) = first_error rest
first_error (some id ∷ rest) = some id

abbrev pub bind_result : Option ℕ → List (Option ℕ) → Option ℕ
bind_result (some id) binds = some id
bind_result none binds = first_error binds

-- `_preflight_listener`: the exception that it raises, if any. The arguments tell whether a socket path
-- is given, and a host with a port other than 0.
unfoldable pub preflight_listener : Bool → Bool → Listening → Option ℕ
preflight_listener has_path has_address at =
    if has_path
    then if at.lock_held
      then some at.busy
      else if at.is_socket
      then connect_result at.busy at.connect
      else none
    else if not has_address
    then none
    else bind_result at.resolve_fails at.binds

-- How the backend is made, and how `asyncio.run` of `serve` ends, the token being resolved on its way: it
-- returns, raises, or exits hard, after a stop or after a failure, which `on_fatal` is called for if it is an
-- `Exception`.
pub data Making : Type 0 where
  made : Making
  not_made : Raised → Making

pub data Serving : Type 0 where
  returned : Serving
  serve_raises : Raised → Serving
  stopped_hard : Serving
  failed_hard : Raised → Serving

abbrev pub error_event : Exceptions → ℕ → Report
error_event py id = event (py.classify id) (py.type_name id)

-- `_report_fatal`
unfoldable pub report_fatal : Exceptions → Bool → ℕ → List Report
report_fatal py supervised id =
    (if py.is_expected id then line id else trace id)
    ∷ (if supervised then error_event py id ∷ [] else [])

-- the `except` clause of `_run_serve`
abbrev pub after_serve : Exceptions → Raised → List Report × Ending
after_serve py (error id) =
    if py.is_expected id
    then (line id ∷ [], raises (system_exit (exit_status 1) (some id)))
    else ([], raises (error id))
after_serve py r = ([], raises r)

abbrev pub end_of_serve : Exceptions → Bool → Serving → List Report × Ending
end_of_serve py supervised returned = ([], finished)
end_of_serve py supervised (serve_raises r) = after_serve py r
end_of_serve py supervised stopped_hard = ([], killed 0)
end_of_serve py supervised (failed_hard (error id)) = (report_fatal py supervised id, killed 1)
end_of_serve py supervised (failed_hard r) = ([], killed 1)

unfoldable pub run_serve : Exceptions → Bool → Making → Serving → List Report × Ending
unfolding report_fatal
run_serve py supervised (not_made r) serving = ([], raises r)
run_serve py supervised made serving = end_of_serve py supervised serving

-- the handlers of the supervised mode
abbrev pub on_system_exit : Exceptions → ExitCode → Option ℕ → List Report
on_system_exit py code (some cause) = error_event py cause ∷ []
on_system_exit py (exit_text message) none = event (some (config, message)) "SystemExit" ∷ []
on_system_exit py (exit_status status) none = []

unfoldable pub handle_ending : Exceptions → Ending → List Report × Ending
handle_ending py (raises (system_exit code cause)) =
    (on_system_exit py code cause, raises (system_exit code cause))
handle_ending py (raises (error id)) =
    (trace id ∷ error_event py id ∷ [], raises (system_exit (exit_status 1) none))
handle_ending py ending = ([], ending)

abbrev pub handled : Exceptions → List Report × Ending → List Report × Ending
handled py (reports, ending) = let (more, last) = handle_ending py ending in (reports ++ more, last)

-- an OSError of the preflight is turned into an exit
abbrev pub after_preflight : Exceptions → Option ℕ → Making → Serving → List Report × Ending
after_preflight py none making serving = run_serve py true making serving
after_preflight py (some id) making serving =
    if py.is_os_error id
    then (line id ∷ [], raises (system_exit (exit_status 1) (some id)))
    else ([], raises (error id))

-- `_cmd_serve`
unfoldable pub cmd_serve : Exceptions → Bool → Option ℕ → Making → Serving → List Report × Ending
unfolding run_serve handle_ending
cmd_serve py supervised preflight making serving =
    if supervised
    then handled py (after_preflight py preflight making serving)
    else run_serve py false making serving
