-- ===== src/Lifecycle/Refinement.antt =====
-- Every event of the server is a run of the specification: its state and its lock move as `Spec` says.
use pipecat_local_stt_server.Prelude.{
  ℕ, suc, String, Bool, true, false, not, Option, none, some, List, [], ◌∷◌, ◌≡◌, refl, sym, subst,
  arith, if_rule, if◌then◌else◌,
}
use pipecat_local_stt_server.Prelude.Text.{is_blank}
use pipecat_local_stt_server.Lifecycle.Ledger.{token, task, step, find, change}
use pipecat_local_stt_server.Lifecycle.Server.{
  State, new, starting, running, stopping, stopped, allowed, is_unlocked, is_adoptable, is_live,
  StartPhase, loading, unwinding, binding, rebinding, Start, Drain, Server, enter, transition, go,
  settle, end_work, track, spawn, begin_work, cancel_sessions, live_entry, Cleanup, bind_failed,
  closes, close_raises, run_cleanup, has_orphan, retire, or_same,
}
use pipecat_local_stt_server.Lifecycle.Drain.{drain_waited_of, Idle, end_drain}
use pipecat_local_stt_server.Lifecycle.Start.{
  LockOutcome, no_socket, acquired, refused, is_starting, at_start, unwind, take_lock, begin_start,
  call_start_in, call_start, backend_up, adopt_listener, adopt_bound, finish_start, bind_resumed,
  bind_lost, set_orphan, bind_abandoned,
}
use pipecat_local_stt_server.Lifecycle.Events.{
  shutdown_in, call_shutdown, hurry_drain, adopt_future, adopt, finish_task, may_finish,
  bind_done_of, pending_bind, resume_or_lose, bind_resume_of, bind_cancel_of, backend_returns_of,
  after_drain, drain_ends_of, is_finished, Event, start_called, backend_returns, bind_done,
  bind_resumes, bind_cancelled, drain_waited, drain_ends, shutdown_called, shutdown_cancelled,
  task_created, task_finished, task_retired, adopts, next, run,
}
use pipecat_local_stt_server.Lifecycle.Moved.{
  view, Refines, go_moves, settle_moves, end_work_moves, begin_listener_close_moves,
  begin_drain_moves, drain_waited_moves, end_drain_moves,
}
use pipecat_local_stt_server.Lifecycle.Spec.{acquires, Moves, rests, moves, chains}

unwind_moves : (st : Start) (s : Server) → Refines s (unwind st s)
unfolding unwind at_start
unwind_moves st s = begin_drain_moves st.backend_started s

adopt_bound_moves : (o : Option ℕ) (s : Server) → Refines s (adopt_bound o s)
unfolding adopt_listener
adopt_bound_moves none s = rests
adopt_bound_moves (some l) s = rests

finish_start_moves : (st : Start) (s : Server) → Refines s (finish_start st s)
unfolding finish_start
finish_start_moves st s =
    let ended : Server = end_work (token st.step_token) (record s { starts = none }) in
    chains (end_work_moves (token st.step_token) (record s { starts = none })) (
      if_rule (λ t. Refines ended (settle t)) (is_starting ended.state) _ _
        (λ _.
          if_rule (λ t. Refines ended (settle t)) (is_live ended) _ _
            (λ _. chains (go_moves stopping ended) (settle_moves _))
            λ _. chains (go_moves new ended) (settle_moves _))
        λ _. settle_moves ended)

bind_resumed_moves : (l : ℕ) (st : Start) (s : Server) → Refines s (bind_resumed l st s)
unfolding bind_resumed adopt_listener
bind_resumed_moves l st s =
    let listening : Server = adopt_listener l (record s { bound = none }) in
    if_rule (Refines s) (is_starting s.state) _ _
      (λ _. chains (go_moves running listening) (finish_start_moves st (go running listening)))
      λ _. unwind_moves st listening

bind_lost_moves : (st : Start) (s : Server) → Refines s (bind_lost st s)
unfolding bind_lost
bind_lost_moves st s =
    chains (adopt_bound_moves s.bound (record s { bound = none }))
      (unwind_moves st (adopt_bound s.bound (record s { bound = none })))

bind_abandoned_moves : (b : ℕ) (st : Start) (s : Server) → Refines s (bind_abandoned b st s)
unfolding bind_abandoned
bind_abandoned_moves b st s =
    unwind_moves st (record s { work = change (task b) set_orphan s.work })

in_starting : (s : Server) → s.state ≡ new → (go starting s).state ≡ starting
unfolding go transition enter is_unlocked allowed
in_starting s e = ground arith

-- the lock is taken once the state is `starting`
begin_start_moves :
    (lock : LockOutcome) (s : Server) → s.state ≡ new → Refines s (begin_start lock s)
unfolding begin_start take_lock begin_work
begin_start_moves no_socket s e = go_moves starting s
begin_start_moves acquired s e =
    chains (go_moves starting s) (takes (go starting s) (in_starting s e))
  where
    takes :
        (t : Server)
        → t.state ≡ starting
        → Moves (view t) (record { state = t.state; locked = true })
    takes t e =
        subst
          (λ (x : State).
            Moves (record { state = x; locked = t.locked }) (record { state = x; locked = true }))
          (sym e) (moves acquires)
begin_start_moves refused s e =
    let st : Start = record { step_token = s.fresh; phase = loading; backend_started = false } in
    chains (go_moves starting s)
      (unwind_moves st (record (begin_work (go starting s)) { starts = some st }))

call_start_moves :
    (st : State) (lock : LockOutcome) (s : Server)
    → s.state ≡ st
    → Refines s (or_same (call_start_in st lock s) s)
unfolding call_start_in
call_start_moves new lock s e = begin_start_moves lock s e
call_start_moves starting lock s e = rests
call_start_moves running lock s e = rests
call_start_moves stopping lock s e = rests
call_start_moves stopped lock s e = rests

backend_up_moves : (st : Start) (s : Server) → Refines s (backend_up st s)
unfolding backend_up spawn
backend_up_moves st s =
    if_rule (Refines s) (is_starting s.state) _ _ (λ _. rests)
      λ _. unwind_moves (record st { backend_started = true }) s

run_cleanup_moves : (f : ℕ) (c : Cleanup) (s : Server) → Refines s (run_cleanup f c s)
unfolding run_cleanup
run_cleanup_moves f bind_failed s = end_work_moves (task f) s
run_cleanup_moves f closes s =
    chains (begin_listener_close_moves s.fresh true (record s { fresh = suc s.fresh }))
      (end_work_moves (task f) _)
run_cleanup_moves f close_raises s = rests

retire_moves : (f : ℕ) (c : Cleanup) (s : Server) → Refines s (retire f c s)
unfolding retire
retire_moves f c s =
    if_rule (Refines s) (has_orphan (find (task f) s.work)) _ _ (λ _. run_cleanup_moves f c _)
      λ _. end_work_moves (task f) s

shutdown_moves : (st : State) (s : Server) → Refines s (shutdown_in st s)
unfolding shutdown_in spawn
shutdown_moves new s = go_moves stopped s
shutdown_moves starting s = go_moves stopping s
shutdown_moves running s = chains (go_moves stopping s) (
    begin_drain_moves true (record (spawn step false (go stopping s)) { stop_task = some s.fresh }))
shutdown_moves stopping s = rests
shutdown_moves stopped s = rests

adopt_moves :
    (o : Option ℕ) (b : Bool) (l : String) (s : Server) → Refines s (or_same (adopt o b l s) s)
unfolding adopt adopt_future track
adopt_moves o b l s =
    if_rule (λ r. Refines s (or_same r s)) (is_blank l) _ _ (λ _. rests)
      λ _.
        if_rule (λ r. Refines s (or_same r s)) (not (is_adoptable s.state)) _ _ (λ _. rests)
          λ _. future o
  where
    future : (o : Option ℕ) → Refines s (adopt_future o b l s)
    future none = rests
    future (some f) =
        if_rule (Refines s) (live_entry (find (task f) s.work)) _ _ (λ _. rests) λ _. rests

next_of_start :
    (o : Option Start) (s : Server)
    → ((b : Bool) → Refines s (backend_returns_of o b s))
      × ((b : Bool) → Refines s (bind_done_of o b s))
      × Refines s (bind_resume_of o s)
      × Refines s (bind_cancel_of o s)
      × Refines s (after_drain o s)
unfolding backend_returns_of bind_done_of bind_resume_of bind_cancel_of after_drain finish_task
    at_start
next_of_start none s = (λ b. rests, λ b. rests, rests, rests, rests)
next_of_start (some st) s =
    (returned st.phase, done st.phase, resumed st.phase, cut st.phase, drained st.phase)
  where
    returned :
        (p : StartPhase) (b : Bool)
        → Refines s (elim p [ loading ↦ if b then backend_up st s else unwind st s | _ ↦ s ])
    returned loading b =
        if_rule (Refines s) b _ _ (λ _. backend_up_moves st s) λ _. unwind_moves st s
    returned unwinding b = rests
    returned (binding t) b = rests
    returned (rebinding t) b = rests

    finished :
        (t : ℕ) (b : Bool)
        → Refines s (
            if b
            then record (finish_task t s) { bound = some s.fresh; fresh = suc s.fresh }
            else finish_task t s)
    finished t b = if_rule (Refines s) b _ _ (λ _. rests) λ _. rests

    done :
        (p : StartPhase) (b : Bool)
        → Refines s (elim p [
          | binding t ↦
              if b
              then record (finish_task t s) { bound = some s.fresh; fresh = suc s.fresh }
              else finish_task t s
          | rebinding t ↦
              if b
              then record (finish_task t s) { bound = some s.fresh; fresh = suc s.fresh }
              else finish_task t s
          | _ ↦ s
        ])
    done loading b = rests
    done unwinding b = rests
    done (binding t) b = finished t b
    done (rebinding t) b = finished t b

    lost_or : (o : Option ℕ) → Refines s (resume_or_lose o st s)
    lost_or none = bind_lost_moves st s
    lost_or (some l) = bind_resumed_moves l st s

    resumed :
        (p : StartPhase)
        → Refines s (elim p [
          | binding t ↦ if pending_bind t s then s else resume_or_lose s.bound st s
          | rebinding t ↦ if pending_bind t s then s else bind_lost st s
          | _ ↦ s
        ])
    resumed loading = rests
    resumed unwinding = rests
    resumed (binding t) =
        if_rule (Refines s) (pending_bind t s) _ _ (λ _. rests) λ _. lost_or s.bound
    resumed (rebinding t) =
        if_rule (Refines s) (pending_bind t s) _ _ (λ _. rests) λ _. bind_lost_moves st s

    cut :
        (p : StartPhase)
        → Refines s (elim p [
          | binding t ↦ if pending_bind t s then at_start st (rebinding t) s else bind_lost st s
          | rebinding t ↦ if pending_bind t s then bind_abandoned t st s else bind_lost st s
          | _ ↦ s
        ])
    cut loading = rests
    cut unwinding = rests
    cut (binding t) =
        if_rule (Refines s) (pending_bind t s) _ _ (λ _. rests) λ _. bind_lost_moves st s
    cut (rebinding t) =
        if_rule (Refines s) (pending_bind t s) _ _ (λ _. bind_abandoned_moves t st s)
          λ _. bind_lost_moves st s

    drained : (p : StartPhase) → Refines s (elim p [ unwinding ↦ finish_start st s | _ ↦ s ])
    drained unwinding = finish_start_moves st s
    drained loading = rests
    drained (binding t) = rests
    drained (rebinding t) = rests

next_of_drain :
    (o : Option Drain) (s : Server)
    → ((b : Bool) → Refines s (drain_waited_of o b s))
      × ((i : Idle) → Refines s (drain_ends_of o i s))
unfolding drain_waited_of drain_ends_of
next_of_drain none s = (λ b. rests, λ i. rests)
next_of_drain (some d) s = (
  λ b. drain_waited_moves d.phase b d s,
  λ i. chains (end_drain_moves i d s) (next_of_start (end_drain i d s).starts (end_drain i d s)).4,
)

next_moves : (e : Event) (s : Server) → Refines s (next e s)
unfolding next call_start call_shutdown hurry_drain cancel_sessions spawn finish_task
next_moves (start_called lock) s = call_start_moves s.state lock s refl
next_moves (backend_returns b) s = (next_of_start s.starts s).0 b
next_moves (bind_done b) s = (next_of_start s.starts s).1 b
next_moves bind_resumes s = (next_of_start s.starts s).2
next_moves bind_cancelled s = (next_of_start s.starts s).3
next_moves (drain_waited b) s = (next_of_drain s.drains s).0 b
next_moves (drain_ends i) s = (next_of_drain s.drains s).1 i
next_moves shutdown_called s = shutdown_moves s.state (record s { shutdown_requested = true })
next_moves shutdown_cancelled s = rests
next_moves task_created s = if_rule (Refines s) (is_adoptable s.state) _ _ (λ _. rests) λ _. rests
next_moves (task_finished f) s = if_rule (Refines s) (may_finish f s) _ _ (λ _. rests) λ _. rests
next_moves (task_retired f c) s =
    if_rule (Refines s) (is_finished (find (task f) s.work)) _ _ (λ _. retire_moves f c s)
      λ _. rests
next_moves (adopts o b l) s = adopt_moves o b l s

-- Whatever happens, the server's state and lock move as the specification says: along the legal
-- transitions only, with the lock taken in `starting` and given back on entering `new` or
-- `stopped`, and at no other time.
pub run-Refines : (es : List Event) (s : Server) → Refines s (run es s)
unfolding run
run-Refines [] s = rests
run-Refines (e ∷ es) s = chains (next_moves e s) (run-Refines es (next e s))
