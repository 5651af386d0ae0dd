-- ===== src/Lifecycle/Start.antt =====
-- `start()`, `_lock_for_start`, `_bind` and `_unwind_failed_start`, cut where they wait.
use pipecat_local_stt_server.Prelude.{ℕ, Bool, true, false, Option, none, some, if◌then◌else◌}
use pipecat_local_stt_server.Lifecycle.Ledger.{
  token, listening, task, bind, listener, Work, change, add_default,
}
use pipecat_local_stt_server.Lifecycle.Server.{
  State, new, starting, running, stopping, StartPhase, loading, unwinding, binding, Start, Server,
  Result, ok, raised, already_starting, single_use, go, settle, is_live, begin_work, spawn,
  end_work, entry,
}
use pipecat_local_stt_server.Lifecycle.Drain.{begin_drain}

-- What `_lock_for_start` comes to: no Unix socket; the lock is taken; the directory or the lock is
-- refused.
pub data LockOutcome : Type 0 where
  no_socket acquired refused : LockOutcome

abbrev pub is_starting : State → Bool
is_starting starting = true
is_starting _ = false

unfoldable pub at_start : Start → StartPhase → Server → Server
at_start st p s = record s { starts = some (record st { phase = p }) }

-- `_unwind_failed_start` begins its drain
unfoldable pub unwind : Start → Server → Server
unfolding at_start begin_drain
unwind st s = at_start st unwinding (begin_drain st.backend_started s)

unfoldable pub take_lock : LockOutcome → Start → Server → Server
unfolding unwind
take_lock no_socket st s = s
take_lock acquired st s = record s { locked = true }
take_lock refused st s = unwind st s

-- `start()` from `NEW`, up to `backend.start()`
unfoldable pub begin_start : LockOutcome → Server → Server
unfolding go begin_work take_lock
begin_start lock s =
    let st : Start = record { step_token = s.fresh; phase = loading; backend_started = false } in
    take_lock lock st (record (begin_work (go starting s)) { starts = some st })

-- what a call of `start()` does at once, by state
unfoldable pub call_start_in : State → LockOutcome → Server → Result Server
unfolding begin_start
call_start_in running lock s = ok s
call_start_in starting lock s = raised already_starting
call_start_in new lock s = ok (begin_start lock s)
call_start_in _ lock s = raised single_use

unfoldable pub call_start : LockOutcome → Server → Result Server
unfolding call_start_in
call_start lock s = call_start_in s.state lock s

-- `backend.start()` returned: the checkpoint, then the bind as a task of its own
unfoldable pub backend_up : Start → Server → Server
unfolding unwind spawn at_start
backend_up st s =
    let up : Start = record st { backend_started = true } in
    if is_starting s.state
    then record (spawn bind false s) { starts = some (record up { phase = binding s.fresh }) }
    else unwind up s

-- `_adopt_listener`
unfoldable pub adopt_listener : ℕ → Server → Server
unfolding add_default
adopt_listener l s = record s {
  server = some l;
  work = add_default (entry (listening l) listener false none) s.work;
}

abbrev pub adopt_bound : Option ℕ → Server → Server
adopt_bound none s = s
adopt_bound (some l) s = adopt_listener l s

-- the `finally` of `start()`
unfoldable pub finish_start : Start → Server → Server
unfolding end_work go is_live settle
finish_start st s =
    let ended : Server = end_work (token st.step_token) (record s { starts = none }) in
    settle (
      if is_starting ended.state
      then if is_live ended then go stopping ended else go new ended
      else ended)

-- `start()` resumes after its bind returned a listener: checkpoint, `RUNNING`, `finally`
unfoldable pub bind_resumed : ℕ → Start → Server → Server
unfolding adopt_listener finish_start go unwind
bind_resumed l st s =
    let listening : Server = adopt_listener l (record s { bound = none }) in
    if is_starting s.state then finish_start st (go running listening) else unwind st listening

-- `start()` resumes after its bind failed, or after a cancel that waited for the bind
unfoldable pub bind_lost : Start → Server → Server
unfolding adopt_listener unwind
bind_lost st s = unwind st (adopt_bound s.bound (record s { bound = none }))

unfoldable pub set_orphan : Work → Work
set_orphan w = record w { orphan = true; stuck = true }

-- A second cancel while the bind is still pending: the bind is left to its own cleanup.
unfoldable pub bind_abandoned : ℕ → Start → Server → Server
unfolding change set_orphan unwind
bind_abandoned b st s = unwind st (record s { work = change (task b) set_orphan s.work })
