-- ===== src/Lifecycle/Examples.antt =====
-- The theorems of the server's lifecycle at a concrete run.
use pipecat_local_stt_server.Prelude.{
  Bool, true, false, none, List, [], ◌∷◌, ◌≡◌, refl, sym, ◌∙◌, ap, false≢true,
}
use pipecat_local_stt_server.Lifecycle.Server.{
  initial, go, transition, allowed, enter, reset_attempt, is_live, is_unlocked,
}
use pipecat_local_stt_server.Lifecycle.Start.{
  acquired, call_start, call_start_in, begin_start, take_lock, at_start, backend_up,
}
use pipecat_local_stt_server.Lifecycle.Events.{
  Event, start_called, backend_returns, bind_done, bind_resumes, shutdown_called, task_created,
  adopts, run, drain_waited, next, call_shutdown, backend_returns_of, bind_done_of, bind_resume_of,
}
use pipecat_local_stt_server.Lifecycle.Invariant.{IsConsistent}
use pipecat_local_stt_server.Lifecycle.Always.{run-IsConsistent}
use pipecat_local_stt_server.Lifecycle.Ledger.{has}
use pipecat_local_stt_server.Lifecycle.Spec.{is_started, is_over}
use pipecat_local_stt_server.Lifecycle.Moved.{Refines}
use pipecat_local_stt_server.Lifecycle.Refinement.{run-Refines}
use pipecat_local_stt_server.Lifecycle.SingleUse.{lock_outlives_work, shutdown_is_final}

-- a start with the lock, a connection, and a shutdown whose wait for it times out
abbrev serving : List Event
serving =
    start_called acquired
    ∷ backend_returns true
    ∷ bind_done true
    ∷ bind_resumes
    ∷ task_created
    ∷ adopts none false "readiness"
    ∷ shutdown_called
    ∷ drain_waited true
    ∷ []

run-IsConsistent_example : IsConsistent (run serving initial)
run-IsConsistent_example = run-IsConsistent serving

run-Refines_example : Refines initial (run serving initial)
run-Refines_example = run-Refines serving initial

abbrev is_empty {ℓ} : {A : Type ℓ} → List A → Bool
is_empty [] = true
is_empty (_ ∷ _) = false

-- a start with the lock, up to its end, and a task of a connection
abbrev starting_up : List Event
starting_up = start_called acquired ∷ backend_returns true ∷ bind_done true ∷ bind_resumes ∷ []

abbrev connecting : List Event
connecting = task_created ∷ []

starting_up-is_started : is_started (run starting_up initial).state ≡ true
unfolding run next call_start call_start_in begin_start take_lock go transition allowed enter
    reset_attempt initial at_start is_live is_unlocked backend_returns_of backend_up bind_done_of
    bind_resume_of has
starting_up-is_started = refl

starting_up-locked : (run starting_up initial).locked ≡ true
unfolding run next call_start call_start_in begin_start take_lock go transition allowed enter
    reset_attempt initial at_start is_live is_unlocked backend_returns_of backend_up bind_done_of
    bind_resume_of has
starting_up-locked = refl

connecting-busy : is_empty (run connecting (run starting_up initial)).work ≡ false
unfolding run next call_start call_start_in begin_start take_lock go transition allowed enter
    reset_attempt initial at_start is_live is_unlocked backend_returns_of backend_up bind_done_of
    bind_resume_of has
connecting-busy = refl

lock_outlives_work_example : (run connecting (run starting_up initial)).locked ≡ true
lock_outlives_work_example =
    lock_outlives_work starting_up connecting starting_up-is_started starting_up-locked
      (λ none_left. false≢true (sym connecting-busy ∙ ap is_empty none_left))

shutdown_is_final_example :
    let s = call_shutdown (run starting_up initial) in
    (is_over s.state ≡ true)
    × (is_over (run serving s).state ≡ true)
    × (is_unlocked s.state ≡ true → is_unlocked (run serving s).state ≡ true)
shutdown_is_final_example = shutdown_is_final starting_up serving
