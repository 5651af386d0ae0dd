-- ===== src/Serve/Exits.antt =====
-- Every way out of `serve`.
use pipecat_local_stt_server.Prelude.{
  Bool, true, false, not, ◌&&◌, ◌||◌, List, [], ◌∷◌, ◌++◌, ◌≡◌, ◌⊎◌,
}
use pipecat_local_stt_server.Serve.{
  Options, StepEnd, completes, fails, stop_first, serve_cancelled, Script, Action, shut_down,
  aborted, reported, handlers_removed, exited, StepResult, process_exit, raises, Result, returned,
  raised, process_ended,
}
use pipecat_local_stt_server.Serve.Steps.{AllSteps, Steps}

-- what a step's end says of the rest: the next step begins, a stop came first, the step failed
abbrev pub passes : StepEnd → Bool
passes (completes stop) = not stop
passes _ = false

abbrev pub is_stopped : StepEnd → Bool
is_stopped (stop_first a) = true
is_stopped _ = false

-- A step fails by itself, with the cancel of `serve`, or with a cancel during the wait for an abandoned step.
abbrev pub is_failed : StepEnd → Bool
is_failed (completes stop) = false
is_failed fails = true
is_failed (serve_cancelled a) = true
is_failed (stop_first a) = a.interrupted

-- whether a stop came before a step of the start, or of the preparation after it, was done
abbrev pub stop_comes_first : Options → Script → Bool
stop_comes_first opts s =
    is_stopped s.starting || (passes s.starting && (opts.has_ready && is_stopped s.preparing))

-- whether anything of `serve` that is reached fails before the shutdown
abbrev pub fails_before : Options → Script → Bool
fails_before opts s =
    is_failed s.starting
    || (passes s.starting
        && ((opts.has_ready && is_failed s.preparing)
            || ((not opts.has_ready || passes s.preparing)
                && ((opts.has_publish && s.publish_fails) || s.wait_cancelled))))

abbrev body_exits : StepResult → Bool
body_exits process_exit = true
body_exits _ = false

abbrev body_fails : StepResult → Bool
body_fails (raises p) = true
body_fails _ = false

-- what a result says, of a body that exits with `early` and fails with `failed` otherwise
abbrev Says : Bool → Bool → StepResult → Type 0
Says early failed r = (body_exits r ≡ early) × (early ≡ false → body_fails r ≡ failed)

-- what `serve` does last, and how it ends
abbrev pub EndsAs : Options → Script → Bool → List Action → Result → Type 0
EndsAs opts s failed after r =
    ((opts.hard_exit_on_stop && s.live_work_left ≡ true)
      × (((failed ≡ true) × (after ≡ reported ∷ exited 1 ∷ []) × (r ≡ process_ended 1))
          ⊎ ((failed ≡ false) × (after ≡ exited 0 ∷ []) × (r ≡ process_ended 0))))
    ⊎ ((opts.hard_exit_on_stop && s.live_work_left ≡ false)
        × (after ≡ handlers_removed ∷ [])
        × (((failed ≡ true) × (r ≡ raised)) ⊎ ((failed ≡ false) × (r ≡ returned))))

-- A run of `serve` that gets to its shutdown: steps only, then one shutdown, then its last acts.
abbrev pub ShutsDown : Options → Script → List Action × Result → Type 0
ShutsDown opts s out =
    (before : List Action) × (after : List Action) × AllSteps before
    × (out.0 ≡ before ++ shut_down ∷ after)
    × EndsAs opts s (fails_before opts s || s.shutdown_fails) after out.1

-- A run that exits before its shutdown, with 0: steps only, then the clean-up.
abbrev pub ExitsEarly : List Action × Result → Type 0
ExitsEarly out =
    ((before : List Action) × AllSteps before × (out.0 ≡ before ++ aborted ∷ exited 0 ∷ []))
    × (out.1 ≡ process_ended 0)

-- A process of its own exits early exactly where a stop came before a step was done.
abbrev pub EndsRight : Options → Script → List Action × Result → Type 0
EndsRight opts s out =
    ((opts.hard_exit_on_stop && stop_comes_first opts s ≡ true) × ExitsEarly out)
    ⊎ ((opts.hard_exit_on_stop && stop_comes_first opts s ≡ false) × ShutsDown opts s out)
