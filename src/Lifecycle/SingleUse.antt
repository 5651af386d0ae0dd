-- ===== src/Lifecycle/SingleUse.antt =====
-- A server is started once, and its lock outlives its work.
use pipecat_local_stt_server.Prelude.{
  true, false, List, [], ◌≡◌, ◌≢◌, refl, some, arith, Bool-cases, inl, inr,
}
use pipecat_local_stt_server.Lifecycle.Server.{
  State, new, starting, running, stopping, stopped, allowed, is_unlocked, Server, initial,
  transition, enter, go, spawn,
}
use pipecat_local_stt_server.Lifecycle.Ledger.{step}
use pipecat_local_stt_server.Lifecycle.Drain.{begin_drain}
use pipecat_local_stt_server.Lifecycle.Events.{Event, shutdown_in, call_shutdown, run}
use pipecat_local_stt_server.Lifecycle.Anchored.{is_live-work}
use pipecat_local_stt_server.Lifecycle.Invariant.{IsConsistent}
use pipecat_local_stt_server.Lifecycle.Runs.{requested-IsConsistent}
use pipecat_local_stt_server.Lifecycle.Always.{run-IsConsistent, run_from-IsConsistent}
use pipecat_local_stt_server.Lifecycle.Spec.{is_started, is_over, Moves-KeepsStarted}
use pipecat_local_stt_server.Lifecycle.Moved.{view, begin_drain_moves}
use pipecat_local_stt_server.Lifecycle.Refinement.{run-Refines}

working-held : (t : Server) → IsConsistent t → t.work ≢ [] → is_unlocked t.state ≡ false
working-held t c busy = elim (Bool-cases (is_unlocked t.state)) [
  | inl free ↦ absurd (busy (c.settled.no_work free))
  | inr held ↦ held
]

-- From a started server that holds the socket lock, whatever happens: while any work is live, the
-- lock is held.
pub lock_outlives_work :
    (before after : List Event)
    → is_started (run before initial).state ≡ true
    → (run before initial).locked ≡ true
    → (run after (run before initial)).work ≢ []
    → (run after (run before initial)).locked ≡ true
lock_outlives_work before after started locked busy =
    let s = run before initial in
    let t = run after s in
    let kept = Moves-KeepsStarted (view s) (view t) (run-Refines after s) started in
    kept.lock locked (working-held t (run_from-IsConsistent after s (run-IsConsistent before)) busy)

over-started : (a : State) → is_over a ≡ true → is_started a ≡ true
over-started a h = ground arith

to_stopped : (s : Server) → s.state ≡ new → s.work ≡ [] → is_over (go stopped s).state ≡ true
unfolding go transition enter is_unlocked allowed
to_stopped s e gone = ground (arith, is_live-work s)

to_stopping :
    (s : Server)
    → is_over s.state ≡ false
    → is_unlocked s.state ≡ false
    → is_over (go stopping s).state ≡ true
unfolding go transition enter is_unlocked allowed
to_stopping s e held = ground arith

shutdown_over :
    (st : State) (s : Server)
    → s.state ≡ st
    → IsConsistent s
    → is_over (shutdown_in st s).state ≡ true
unfolding shutdown_in is_unlocked spawn
shutdown_over new s e c = to_stopped s e (c.settled.no_work (rw e refl))
shutdown_over starting s e c = to_stopping s (rw e refl) (rw e refl)
shutdown_over running s e c =
    let drained : Server = record (spawn step false (go stopping s)) { stop_task = some s.fresh } in
    let over = to_stopping s (rw e refl) (rw e refl) in
    (Moves-KeepsStarted (view drained) (view (begin_drain true drained))
        (begin_drain_moves true drained) (over-started _ over)).over
      over
shutdown_over stopping s e c = rw e refl
shutdown_over stopped s e c = rw e refl

-- A call of `shutdown()`, after whatever happened, leaves the server stopping or stopped, and
-- whatever happens then it is never starting or running again. A stopped one stays stopped.
pub shutdown_is_final :
    (before after : List Event)
    → let s = call_shutdown (run before initial) in
      (is_over s.state ≡ true)
      × (is_over (run after s).state ≡ true)
      × (is_unlocked s.state ≡ true → is_unlocked (run after s).state ≡ true)
unfolding call_shutdown
shutdown_is_final before after =
    let r = run before initial in
    let s : Server = call_shutdown r in
    let over : is_over s.state ≡ true =
      shutdown_over r.state (record r { shutdown_requested = true }) refl
        (requested-IsConsistent r (run-IsConsistent before)) in
    let kept =
      Moves-KeepsStarted (view s) (view (run after s)) (run-Refines after s)
        (over-started s.state over) in
    (over, kept.over over, kept.final)
