-- ===== src/CommandLine/Reports.antt =====
-- What a supervising app is told of a serving process that fails.
use pipecat_local_stt_server.Prelude.{
  ℕ, String, Bool, true, false, Option, none, some, List, [], ◌∷◌, ◌≡◌, refl, ◌==◌, if◌then◌else◌,
}
use pipecat_local_stt_server.Startup.{Code, config}
use pipecat_local_stt_server.CommandLine.Serving.{
  exit_text, exit_status, Raised, error, system_exit, keyboard_interrupt, Ending, finished, raises,
  killed, Report, line, trace, event, Exceptions, Making, made, not_made, Serving, returned,
  serve_raises, stopped_hard, failed_hard, report_fatal, run_serve, handled, handle_ending,
  cmd_serve,
}

-- What failed: nothing, an exception, an exit with a text, or an exit or an interrupt that says nothing.
pub data Failure : Type 0 where
  nothing : Failure
  by : ℕ → Failure
  saying : String → Failure
  silent : Failure

abbrev pub failure_in : Raised → Failure
failure_in (error id) = by id
failure_in (system_exit code (some cause)) = by cause
failure_in (system_exit (exit_text message) none) = saying message
failure_in (system_exit (exit_status status) none) = silent
failure_in keyboard_interrupt = silent

-- after a hard exit, only exceptions are reported
abbrev pub failure_of_serve : Serving → Failure
failure_of_serve returned = nothing
failure_of_serve stopped_hard = nothing
failure_of_serve (serve_raises r) = failure_in r
failure_of_serve (failed_hard (error id)) = by id
failure_of_serve (failed_hard r) = silent

-- the first step that fails decides
abbrev pub failure_of : Option ℕ → Making → Serving → Failure
failure_of (some id) making serving = by id
failure_of none (not_made r) serving = failure_in r
failure_of none made serving = failure_of_serve serving

abbrev pub Event : Type 0
Event = Option (Code × String) × String

abbrev pub announced : Exceptions → Failure → List Event
announced py nothing = []
announced py (by id) = (py.classify id, py.type_name id) ∷ []
announced py (saying message) = (some (config, message), "SystemExit") ∷ []
announced py silent = []

abbrev pub events : List Report → List Event
events [] = []
events (event code name ∷ reports) = (code, name) ∷ events reports
events (line id ∷ reports) = events reports
events (trace id ∷ reports) = events reports

abbrev pub succeeds : Ending → Bool
succeeds finished = true
succeeds (raises r) = false
succeeds (killed status) = status == 0

abbrev pub is_nothing : Failure → Bool
is_nothing nothing = true
is_nothing _ = false

abbrev Tells : Exceptions → Failure → List Report × Ending → Type 0
Tells py failure (reports, ending) =
    (events reports ≡ announced py failure) × (succeeds ending ≡ is_nothing failure)

abbrev Silent : List Report × Ending → Type 0
Silent told = events told.0 ≡ []

module _ (py : Exceptions) where
  raised-Tells : (r : Raised) → Tells py (failure_in r) (handle_ending py (raises r))
  unfolding handle_ending
  raised-Tells (error id) = (refl, refl)
  raised-Tells (system_exit code (some cause)) = (refl, refl)
  raised-Tells (system_exit (exit_text message) none) = (refl, refl)
  raised-Tells (system_exit (exit_status status) none) = (refl, refl)
  raised-Tells keyboard_interrupt = (refl, refl)

  -- an exception that is turned into an exit, or is not
  turned-Tells :
      (turned : Bool) (id : ℕ)
      → Tells py (by id) (
          handled py (
            if turned
            then (line id ∷ [], raises (system_exit (exit_status 1) (some id)))
            else ([], raises (error id))))
  unfolding handle_ending
  turned-Tells true id = (refl, refl)
  turned-Tells false id = (refl, refl)

  fatal-Tells :
      (expected : Bool) (id : ℕ)
      → Tells py (by id) (
          handled py (
            (if expected then line id else trace id)
                ∷ event (py.classify id) (py.type_name id)
                ∷ [],
            killed 1,
          ))
  unfolding handle_ending
  fatal-Tells true id = (refl, refl)
  fatal-Tells false id = (refl, refl)

  serve-Tells :
      (serving : Serving)
      → Tells py (failure_of_serve serving) (handled py (run_serve py true made serving))
  unfolding run_serve report_fatal handle_ending
  serve-Tells returned = (refl, refl)
  serve-Tells stopped_hard = (refl, refl)
  serve-Tells (serve_raises (error id)) = turned-Tells (py.is_expected id) id
  serve-Tells (serve_raises (system_exit code cause)) = raised-Tells (system_exit code cause)
  serve-Tells (serve_raises keyboard_interrupt) = (refl, refl)
  serve-Tells (failed_hard (error id)) = fatal-Tells (py.is_expected id) id
  serve-Tells (failed_hard (system_exit code cause)) = (refl, refl)
  serve-Tells (failed_hard keyboard_interrupt) = (refl, refl)

  supervised-Tells :
      (preflight : Option ℕ) (making : Making) (serving : Serving)
      → Tells py (failure_of preflight making serving) (cmd_serve py true preflight making serving)
  unfolding cmd_serve run_serve handle_ending
  supervised-Tells (some id) making serving = turned-Tells (py.is_os_error id) id
  supervised-Tells none (not_made (error id)) serving = (refl, refl)
  supervised-Tells none (not_made (system_exit code cause)) serving =
      raised-Tells (system_exit code cause)
  supervised-Tells none (not_made keyboard_interrupt) serving = (refl, refl)
  supervised-Tells none made serving = serve-Tells serving

  after-Silent :
      (expected : Bool) (id : ℕ)
      → Silent (
          if expected
          then (line id ∷ [], raises (system_exit (exit_status 1) (some id)))
          else ([], raises (error id)))
  after-Silent true id = refl
  after-Silent false id = refl

  fatal-silent :
      (expected : Bool) (id : ℕ) → events ((if expected then line id else trace id) ∷ []) ≡ []
  fatal-silent true id = refl
  fatal-silent false id = refl

  unsupervised_silent :
      (preflight : Option ℕ) (making : Making) (serving : Serving)
      → events (cmd_serve py false preflight making serving).0 ≡ []
  unfolding cmd_serve run_serve report_fatal
  unsupervised_silent preflight (not_made r) serving = refl
  unsupervised_silent preflight made returned = refl
  unsupervised_silent preflight made stopped_hard = refl
  unsupervised_silent preflight made (serve_raises (error id)) = after-Silent (py.is_expected id) id
  unsupervised_silent preflight made (serve_raises (system_exit code cause)) = refl
  unsupervised_silent preflight made (serve_raises keyboard_interrupt) = refl
  unsupervised_silent preflight made (failed_hard (error id)) = fatal-silent (py.is_expected id) id
  unsupervised_silent preflight made (failed_hard (system_exit code cause)) = refl
  unsupervised_silent preflight made (failed_hard keyboard_interrupt) = refl

-- A supervised process writes an error event exactly where something failed that can be told, and one event
-- only: that of the exception of the first step that failed, be it the preflight, the making of the backend
-- or serve, and be it raised or left behind by a hard exit, with the class of that exception; or that of an
-- exit's text. It ends with success exactly where nothing failed. Without a supervisor, it writes no event.
pub failure_announced :
    (py : Exceptions) (preflight : Option ℕ) (making : Making) (serving : Serving)
    → (events (cmd_serve py true preflight making serving).0
        ≡ announced py (failure_of preflight making serving))
      × (succeeds (cmd_serve py true preflight making serving).1
          ≡ is_nothing (failure_of preflight making serving))
      × (events (cmd_serve py false preflight making serving).0 ≡ [])
failure_announced py preflight making serving =
    let (told, ended) = supervised-Tells py preflight making serving in
    (told, ended, unsupervised_silent py preflight making serving)
