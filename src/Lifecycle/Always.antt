-- ===== src/Lifecycle/Always.antt =====
-- Every run of the server: it is consistent between any two turns of its event loop.
use pipecat_local_stt_server.Prelude.{false, List, [], ◌∷◌, ◌≡◌, refl, arith, if_rule}
use pipecat_local_stt_server.Lifecycle.Ledger.{task, session, find, Work, mark_kind}
use pipecat_local_stt_server.Lifecycle.Server.{
  State, new, starting, running, stopping, stopped, is_unlocked, is_adoptable, Server, initial,
  or_same, cancel_sessions, is_live,
}
use pipecat_local_stt_server.Lifecycle.Start.{LockOutcome, call_start_in, call_start}
use pipecat_local_stt_server.Lifecycle.Events.{
  hurry_drain, finish_task, set_finished, may_finish, is_finished, Event, start_called,
  backend_returns, bind_done, bind_resumes, bind_cancelled, drain_waited, drain_ends,
  shutdown_called, shutdown_cancelled, task_created, task_finished, task_retired, adopts, next, run,
}
use pipecat_local_stt_server.Lifecycle.Mild.{cancel_sessions-Mild}
use pipecat_local_stt_server.Lifecycle.Invariant.{IsConsistent, Mild-IsConsistent}
use pipecat_local_stt_server.Lifecycle.EventSteps.{
  drain_waited_of-IsConsistent, drain_ends_of-IsConsistent,
}
use pipecat_local_stt_server.Lifecycle.BindSteps.{
  backend_returns_of-IsConsistent, bind_done_of-IsConsistent, bind_resume_of-IsConsistent,
  bind_cancel_of-IsConsistent,
}
use pipecat_local_stt_server.Lifecycle.Consistency.{
  changed-IsConsistent, with_ledger-IsSettled, is_empty-mark_kind, spawn-IsConsistent,
  adoptable-held, adopts-IsConsistent,
}
use pipecat_local_stt_server.Lifecycle.Runs.{
  found_held, retire-IsConsistent, call_shutdown-IsConsistent, begin_start-IsConsistent,
}

call_start_in-IsConsistent :
    (st : State) (lock : LockOutcome) (s : Server)
    → s.state ≡ st
    → IsConsistent s
    → IsConsistent (or_same (call_start_in st lock s) s)
unfolding call_start_in
call_start_in-IsConsistent new lock s e c = begin_start-IsConsistent lock s e c
call_start_in-IsConsistent starting lock s e c = c
call_start_in-IsConsistent running lock s e c = c
call_start_in-IsConsistent stopping lock s e c = c
call_start_in-IsConsistent stopped lock s e c = c

mark_kind-nil : (ws : List Work) → ws ≡ [] → mark_kind session ws ≡ []
unfolding mark_kind
mark_kind-nil ws e = rw e refl

hurry_drain-IsConsistent : (s : Server) → IsConsistent s → IsConsistent (hurry_drain s)
unfolding hurry_drain cancel_sessions
hurry_drain-IsConsistent s c =
    Mild-IsConsistent s _ (cancel_sessions-Mild s)
      (with_ledger-IsSettled (mark_kind session s.work) s (is_empty-mark_kind session s.work)
        (mark_kind-nil s.work) c.settled)
      c

next-IsConsistent : (e : Event) (s : Server) → IsConsistent s → IsConsistent (next e s)
unfolding next call_start finish_task set_finished
next-IsConsistent (start_called lock) s c = call_start_in-IsConsistent s.state lock s refl c
next-IsConsistent (backend_returns b) s c = backend_returns_of-IsConsistent s.starts b s refl c
next-IsConsistent (bind_done b) s c = bind_done_of-IsConsistent s.starts b s refl c
next-IsConsistent bind_resumes s c = bind_resume_of-IsConsistent s.starts s refl c
next-IsConsistent bind_cancelled s c = bind_cancel_of-IsConsistent s.starts s refl c
next-IsConsistent (drain_waited b) s c = drain_waited_of-IsConsistent s.drains b s refl c
next-IsConsistent (drain_ends idle) s c = drain_ends_of-IsConsistent s.drains idle s refl c
next-IsConsistent shutdown_called s c = call_shutdown-IsConsistent s c
next-IsConsistent shutdown_cancelled s c = hurry_drain-IsConsistent s c
next-IsConsistent task_created s c =
    if_rule IsConsistent (is_adoptable s.state) _ _
      (λ can. spawn-IsConsistent session false s (adoptable-held s.state can) c) λ _. c
next-IsConsistent (task_finished f) s c =
    if_rule IsConsistent (may_finish f s) _ _
      (λ _. changed-IsConsistent (task f) set_finished s (λ w. refl) c) λ _. c
next-IsConsistent (task_retired f r) s c =
    if_rule IsConsistent (is_finished (find (task f) s.work)) _ _
      (λ done. retire-IsConsistent f r s (found_held f s c done) c) λ _. c
next-IsConsistent (adopts o abandoned label) s c = adopts-IsConsistent o abandoned label s c

initial-IsConsistent : IsConsistent initial
unfolding initial is_unlocked is_live
initial-IsConsistent = record {
  settled = record {
    no_work = λ _. refl;
    no_lock = λ _. refl;
    woken = refl;
    stopping_live = ground arith;
  };
  start_live = tt;
  drain_live = tt;
  distinct = tt;
  start_in_flight = ground arith;
}

pub run_from-IsConsistent :
    (es : List Event) (s : Server) → IsConsistent s → IsConsistent (run es s)
unfolding run
run_from-IsConsistent [] s c = c
run_from-IsConsistent (e ∷ es) s c = run_from-IsConsistent es (next e s) (next-IsConsistent e s c)

-- After any events from a new server: in `new` and `stopped` nothing is live, the socket lock is
-- free and the waiters on its release are awake; in the other states they wait; `stopping` has
-- live work; in `starting` a start is in flight; and a start or a drain in flight holds a token of
-- its own in the ledger, in a state that is neither `new` nor `stopped`.
pub run-IsConsistent : (es : List Event) → IsConsistent (run es initial)
run-IsConsistent es = run_from-IsConsistent es initial initial-IsConsistent
