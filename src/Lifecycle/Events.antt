-- ===== src/Lifecycle/Events.antt =====
-- The server between two turns of its event loop: what may happen next, and what it does then.
-- `shutdown()`, `adopt()`, `_handle_connection` and the callbacks of futures are here.
use pipecat_local_stt_server.Prelude.{
  ℕ, suc, String, Bool, true, false, not, ◌&&◌, ◌||◌, Option, none, some, List, [], ◌∷◌, ◌==◌,
  if◌then◌else◌,
}
use pipecat_local_stt_server.Prelude.Text.{is_blank}
use pipecat_local_stt_server.Lifecycle.Ledger.{task, session, step, adopted, Work, change, find}
use pipecat_local_stt_server.Lifecycle.Server.{
  State, new, starting, running, stopping, stopped, is_adoptable, loading, unwinding, binding,
  rebinding, Start, Drain, Server, Result, ok, raised, bad_state, bad_label, go, or_same,
  live_entry, spawn, track, cancel_sessions, Cleanup, retire,
}
use pipecat_local_stt_server.Lifecycle.Drain.{Idle, begin_drain, drain_waited_of, end_drain}
use pipecat_local_stt_server.Lifecycle.Start.{
  LockOutcome, call_start, backend_up, unwind, at_start, bind_resumed, bind_lost, bind_abandoned,
  finish_start,
}

-- The rest of `shutdown()`, by state. The drain is a task of its own; its first turn, up to its
-- first wait, is taken together with the call that creates it.
unfoldable pub shutdown_in : State → Server → Server
unfolding go spawn begin_drain
shutdown_in new s = go stopped s
shutdown_in starting s = go stopping s
shutdown_in running s =
    let drained : Server = spawn step false (go stopping s) in
    begin_drain true (record drained { stop_task = some s.fresh })
shutdown_in _ s = s

-- `shutdown()` up to its wait
unfoldable pub call_shutdown : Server → Server
unfolding shutdown_in
call_shutdown s = shutdown_in s.state (record s { shutdown_requested = true })

-- the first caller of `shutdown()` is cancelled while it waits
unfoldable pub hurry_drain : Server → Server
unfolding cancel_sessions
hurry_drain s = cancel_sessions s

-- `adopt` of a future: a new one, or one that the server may know
unfoldable pub adopt_future : Option ℕ → Bool → String → Server → Server
unfolding track spawn find
adopt_future none abandoned label s = record (track s.fresh adopted abandoned (some label) s) {
  fresh = suc s.fresh;
}
adopt_future (some f) abandoned label s =
    if live_entry (find (task f) s.work) then track f adopted abandoned (some label) s else s

unfoldable pub adopt : Option ℕ → Bool → String → Server → Result Server
unfolding adopt_future is_blank is_adoptable
adopt f abandoned label s =
    if is_blank label
    then raised bad_label
    else if not (is_adoptable s.state)
    then raised bad_state
    else ok (adopt_future f abandoned label s)

unfoldable pub set_finished : Work → Work
set_finished w = record w { finished = true }

unfoldable pub finish_task : ℕ → Server → Server
unfolding change set_finished
finish_task f s = record s { work = change (task f) set_finished s.work }

abbrev pub is_task : Option ℕ → ℕ → Bool
is_task none f = false
is_task (some g) f = f == g

abbrev pub binds : Option Start → ℕ → Bool
binds none f = false
binds (some st) f = elim st.phase [ binding b ↦ f == b | rebinding b ↦ f == b | _ ↦ false ]

abbrev pub has_drain : Option Drain → Bool
has_drain none = false
has_drain (some d) = true

-- The task of a drain ends with the drain, and a bind that `start()` waits for by `bind_done`.
unfoldable pub may_finish : ℕ → Server → Bool
may_finish f s = not ((is_task s.stop_task f && has_drain s.drains) || binds s.starts f)

-- the bind that `start()` waits for ends, with a listener or without
unfoldable pub bind_done_of : Option Start → Bool → Server → Server
unfolding finish_task
bind_done_of none success s = s
bind_done_of (some st) success s = elim st.phase [
  | binding b ↦
      if success
      then record (finish_task b s) { bound = some s.fresh; fresh = suc s.fresh }
      else finish_task b s
  | rebinding b ↦
      if success
      then record (finish_task b s) { bound = some s.fresh; fresh = suc s.fresh }
      else finish_task b s
  | _ ↦ s
]

abbrev pub pending_bind : ℕ → Server → Bool
pending_bind b s = live_entry (find (task b) s.work)

abbrev pub resume_or_lose : Option ℕ → Start → Server → Server
resume_or_lose none st s = bind_lost st s
resume_or_lose (some l) st s = bind_resumed l st s

-- `start()` resumes once its bind is done
unfoldable pub bind_resume_of : Option Start → Server → Server
unfolding bind_resumed bind_lost find
bind_resume_of none s = s
bind_resume_of (some st) s = elim st.phase [
  | binding b ↦ if pending_bind b s then s else resume_or_lose s.bound st s
  | rebinding b ↦ if pending_bind b s then s else bind_lost st s
  | _ ↦ s
]

-- a cancel lands in `start()`'s wait for its bind
unfoldable pub bind_cancel_of : Option Start → Server → Server
unfolding at_start bind_abandoned bind_lost find
bind_cancel_of none s = s
bind_cancel_of (some st) s = elim st.phase [
  | binding b ↦ if pending_bind b s then at_start st (rebinding b) s else bind_lost st s
  | rebinding b ↦ if pending_bind b s then bind_abandoned b st s else bind_lost st s
  | _ ↦ s
]

-- `backend.start()` returns, or it raises or is cancelled
unfoldable pub backend_returns_of : Option Start → Bool → Server → Server
unfolding backend_up unwind
backend_returns_of none success s = s
backend_returns_of (some st) success s = elim st.phase [
  | loading ↦ if success then backend_up st s else unwind st s
  | _ ↦ s
]

-- after a drain: `start()` goes on to its `finally` if the drain undid it
unfoldable pub after_drain : Option Start → Server → Server
unfolding finish_start
after_drain none s = s
after_drain (some st) s = elim st.phase [ unwinding ↦ finish_start st s | _ ↦ s ]

unfoldable pub drain_ends_of : Option Drain → Idle → Server → Server
unfolding end_drain after_drain
drain_ends_of none idle s = s
drain_ends_of (some d) idle s = let t = end_drain idle d s in after_drain t.starts t

abbrev pub is_finished : Option Work → Bool
is_finished none = false
is_finished (some w) = w.finished

pub data Event : Type 0 where
  start_called : LockOutcome → Event
  backend_returns : Bool → Event
  bind_done : Bool → Event
  bind_resumes bind_cancelled : Event
  drain_waited : Bool → Event
  drain_ends : Idle → Event
  shutdown_called shutdown_cancelled : Event
  -- a connection's handler or a decode task, tracked as "session"; the code tracks it in every
  -- state, and the model takes it that no task begins where there is no listener
  task_created : Event
  task_finished : ℕ → Event
  task_retired : ℕ → Cleanup → Event
  adopts : Option ℕ → Bool → String → Event

unfoldable pub next : Event → Server → Server
unfolding call_start backend_returns_of bind_done_of bind_resume_of bind_cancel_of drain_waited_of
    drain_ends_of call_shutdown hurry_drain spawn finish_task may_finish retire adopt find
next (start_called lock) s = or_same (call_start lock s) s
next (backend_returns success) s = backend_returns_of s.starts success s
next (bind_done success) s = bind_done_of s.starts success s
next bind_resumes s = bind_resume_of s.starts s
next bind_cancelled s = bind_cancel_of s.starts s
next (drain_waited timed_out) s = drain_waited_of s.drains timed_out s
next (drain_ends idle) s = drain_ends_of s.drains idle s
next shutdown_called s = call_shutdown s
next shutdown_cancelled s = hurry_drain s
next task_created s = if is_adoptable s.state then spawn session false s else s
next (task_finished f) s = if may_finish f s then finish_task f s else s
next (task_retired f c) s = if is_finished (find (task f) s.work) then retire f c s else s
next (adopts f abandoned label) s = or_same (adopt f abandoned label s) s

unfoldable pub run : List Event → Server → Server
unfolding next
run [] s = s
run (e ∷ es) s = run es (next e s)
