-- ===== src/Serve.antt =====
-- `serve` of stt_server/server.py: from the start of the server to its exit, as the list of what it
-- does to the server and the process.
pub mod Steps
pub mod Exits
use pipecat_local_stt_server.Prelude.{
  ℕ, Bool, true, false, not, ◌&&◌, ◌||◌, Option, none, some, List, [], ◌∷◌, ◌++◌, if◌then◌else◌,
}

pub record Options : Type 0 where
  pub hard_exit_on_stop : Bool
  pub has_on_fatal : Bool
  pub has_ready : Bool
  pub has_publish : Bool

pub data Stage : Type 0 where
  startup readiness : Stage

-- How the bounded wait for a cancelled step ends: is the step done, may the server adopt it, and
-- was `serve` itself cancelled during the wait?
pub record Abandon : Type 0 where
  pub is_done : Bool
  pub can_adopt : Bool
  pub interrupted : Bool

-- How a step goes while `serve` waits for it and for a stop: it completes (and a stop is pending,
-- or not), it fails, a stop comes first, or `serve` is cancelled first.
pub data StepEnd : Type 0 where
  completes : Bool → StepEnd
  fails : StepEnd
  stop_first : Abandon → StepEnd
  serve_cancelled : Abandon → StepEnd

-- what happens to one call of `serve`
pub record Script : Type 0 where
  pub config_refused : Bool
  pub starting : StepEnd
  pub preparing : StepEnd
  pub publish_fails : Bool
  pub wait_cancelled : Bool  -- `serve` is cancelled in `await stop`
  pub shutdown_fails : Bool
  pub live_work_left : Bool

pub data Action : Type 0 where
  started tracked cancelled abandoned : Stage → Action
  published shut_down : Action
  backend_aborted aborted reported handlers_removed : Action
  exited : ℕ → Action

pub data StepResult : Type 0 where
  goes_on stops process_exit : StepResult
  raises : Option (Stage × Abandon) → StepResult

-- `_abandon_step`
abbrev pub abandon_step : Stage → Abandon → List Action
abandon_step stage a =
    cancelled stage ∷ (if a.is_done then [] else if a.can_adopt then abandoned stage ∷ [] else [])

-- the step begins, and readiness is tracked from its creation
abbrev pub begin_step : Stage → List Action
begin_step startup = started startup ∷ []
begin_step readiness = started readiness ∷ tracked readiness ∷ []

abbrev pub after_begin : Options → Stage → StepEnd → List Action × StepResult
after_begin opts stage (completes stop) = ([], if stop then stops else goes_on)
after_begin opts stage fails = ([], raises none)
after_begin opts stage (serve_cancelled a) = ([], raises (some (stage, a)))
after_begin opts stage (stop_first a) =
    if opts.hard_exit_on_stop
    then (aborted ∷ exited 0 ∷ [], process_exit)
    else (abandon_step stage a, if a.interrupted then raises none else stops)

-- `_run_until_stop`
unfoldable pub run_until_stop : Options → Stage → StepEnd → List Action × StepResult
run_until_stop opts stage end = let r = after_begin opts stage end in (begin_step stage ++ r.0, r.1)

-- goes on with `next` only if the step did not end `serve`
abbrev pub and_then : List Action × StepResult → List Action × StepResult → List Action × StepResult
and_then (done, goes_on) next = (done ++ next.0, next.1)
and_then (done, stops) next = (done, stops)
and_then (done, process_exit) next = (done, process_exit)
and_then (done, raises p) next = (done, raises p)

abbrev pub publish_and_wait : Options → Script → List Action × StepResult
publish_and_wait opts s = if opts.has_publish && s.publish_fails then ([], raises none) else (
  if opts.has_publish then published ∷ [] else [],
  if s.wait_cancelled then raises none else stops,
)

-- the `try` of `serve`
unfoldable pub serve_body : Options → Script → List Action × StepResult
unfolding run_until_stop
serve_body opts s = and_then (run_until_stop opts startup s.starting) (
    and_then (if opts.has_ready then run_until_stop opts readiness s.preparing else ([], goes_on))
      (publish_and_wait opts s))

pub data Result : Type 0 where
  returned raised : Result
  process_ended : ℕ → Result

abbrev pub settle_pending : Option (Stage × Abandon) → List Action
settle_pending none = []
settle_pending (some (stage, a)) = abandon_step stage a

-- the `finally` of `serve`, `failed` being whether its body raised
unfoldable pub finish : Options → Script → Bool → List Action × Result
finish opts s failed =
    let failure = failed || s.shutdown_fails in
    if opts.hard_exit_on_stop && s.live_work_left
    then if failure
      then (reported ∷ exited 1 ∷ [], process_ended 1)
      else (exited 0 ∷ [], process_ended 0)
    else (handlers_removed ∷ [], if failure then raised else returned)

abbrev pub close_down :
    Options → Script → Option (Stage × Abandon) → Bool → List Action → List Action × Result
close_down opts s pending failed done =
    let last = finish opts s failed in
    ((done ++ settle_pending pending) ++ shut_down ∷ last.0, last.1)

abbrev pub conclude : Options → Script → List Action × StepResult → List Action × Result
conclude opts s (done, goes_on) = close_down opts s none false done
conclude opts s (done, stops) = close_down opts s none false done
conclude opts s (done, raises pending) = close_down opts s pending true done
conclude opts s (done, process_exit) = (done, process_ended 0)

unfoldable pub serve : Options → Script → List Action × Result
unfolding serve_body finish
serve opts s =
    if (opts.has_on_fatal && not opts.hard_exit_on_stop) || s.config_refused
    then (backend_aborted ∷ [], raised)
    else conclude opts s (serve_body opts s)
