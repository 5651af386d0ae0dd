-- ===== src/Lifecycle/Server.antt =====
-- The server's state, `_transition`, and the primitives of the ledger.
use pipecat_local_stt_server.Prelude.{
  ℕ, suc, String, Bool, true, false, not, ◌&&◌, ◌||◌, Option, none, some, [], is_empty,
  if◌then◌else◌,
}
use pipecat_local_stt_server.Lifecycle.Ledger.{
  Key, token, listening, task, Kind, session, step, listener_close, Work, Ledger, drop, change,
  find, add_default, mark_kind, live_reasons,
}

pub data State : Type 0 where
  new starting running stopping stopped : State

-- `_TRANSITIONS`
unfoldable pub allowed : State → State → Bool
allowed new starting = true
allowed new stopped = true
allowed starting running = true
allowed starting new = true
allowed starting stopping = true
allowed running stopping = true
allowed stopping stopped = true
allowed _ _ = false

-- `_UNLOCKED_STATES` and `_ADOPTABLE_STATES`
unfoldable pub is_unlocked : State → Bool
is_unlocked new = true
is_unlocked stopped = true
is_unlocked _ = false

unfoldable pub is_adoptable : State → Bool
is_adoptable starting = true
is_adoptable running = true
is_adoptable stopping = true
is_adoptable _ = false

-- Where an in-flight `start()` waits: for the backend; for its bind; for the bind once more, after
-- a cancel; or for the drain that undoes it.
pub data StartPhase : Type 0 where
  loading unwinding : StartPhase
  binding rebinding : ℕ → StartPhase

pub record Start : Type 0 where
  pub step_token : ℕ
  pub phase : StartPhase
  pub backend_started : Bool

-- Where a drain waits: for the sessions, for the listener's close, for the backend's.
pub data DrainPhase : Type 0 where
  sessions_wait listener_wait close_wait : DrainPhase

pub record Drain : Type 0 where
  pub step_token : ℕ
  pub phase : DrainPhase
  pub close_backend : Bool
  pub closer : Option ℕ

-- `fresh` supplies identities to futures, tokens and listeners. `starts` and `drains` are the
-- coroutines in flight.
pub record Server : Type 0 where
  pub state : State
  pub locked : Bool
  pub work : Ledger
  pub shutdown_requested : Bool
  pub shutdown_event : Bool
  pub unlocked : Bool
  pub server : Option ℕ
  pub close_task : Option ℕ
  pub stop_task : Option ℕ
  pub bound : Option ℕ  -- the listener that a finished bind returned, until `start()` resumes
  pub starts : Option Start
  pub drains : Option Drain
  pub fresh : ℕ

unfoldable pub initial : Server
initial = record {
  state = new;
  locked = false;
  work = [];
  shutdown_requested = false;
  shutdown_event = false;
  unlocked = true;
  server = none;
  close_task = none;
  stop_task = none;
  bound = none;
  starts = none;
  drains = none;
  fresh = 0;
}

-- `_reset_attempt`
unfoldable pub reset_attempt : Server → Server
reset_attempt s = record s {
  server = none;
  close_task = none;
  stop_task = none;
  shutdown_event = false;
}

-- the end of `_transition`
unfoldable pub enter : State → Server → Server
unfolding reset_attempt
enter new s = record (reset_attempt s) { state = new; locked = false; unlocked = true }
enter stopped s = record s { state = stopped; locked = false; unlocked = true }
enter starting s = record s { state = starting; unlocked = false }
enter running s = record s { state = running; unlocked = false }
enter stopping s = record s { state = stopping; unlocked = false }

pub data Refusal : Type 0 where
  illegal_transition live_work_remains already_starting single_use bad_state bad_label : Refusal

pub data Result {ℓ} (A : Type ℓ) : Type ℓ where
  ok : A → Result A
  raised : Refusal → Result A

unfoldable pub is_live : Server → Bool
is_live s = not (is_empty (live_reasons s.work))

-- `_transition`
unfoldable pub transition : State → Server → Result Server
unfolding is_live allowed is_unlocked enter
transition to s =
    if not (allowed s.state to)
    then raised illegal_transition
    else if is_unlocked to && is_live s
    then raised live_work_remains
    else ok (enter to s)

-- A transition that its caller has made sure of; were it refused, nothing would change.
abbrev pub or_same : Result Server → Server → Server
or_same (ok t) s = t
or_same (raised e) s = s

unfoldable pub go : State → Server → Server
unfolding transition
go to s = or_same (transition to s) s

abbrev pub is_stopping : State → Bool
is_stopping stopping = true
is_stopping _ = false

-- `_settle`
unfoldable pub settle : Server → Server
unfolding go is_live
settle s = if is_stopping s.state && not (is_live s) then go stopped s else s

-- `_end_work`
unfoldable pub end_work : Key → Server → Server
unfolding settle drop
end_work k s = settle (record s { work = drop k s.work })

abbrev pub entry : Key → Kind → Bool → Option String → Work
entry k kind stuck label = record {
  key = k;
  kind = kind;
  stuck = stuck;
  finished = false;
  orphan = false;
  label = label;
}

unfoldable pub mark_stuck : Bool → Work → Work
mark_stuck b w = record w { stuck = w.stuck || b }

-- `_track` of a future that is not done: a new entry, or the stuck mark on its old one
unfoldable pub track : ℕ → Kind → Bool → Option String → Server → Server
unfolding add_default change mark_stuck
track f kind stuck label s = record s {
  work = change (task f) (mark_stuck stuck) (add_default (entry (task f) kind false label) s.work);
}

abbrev pub live_entry : Option Work → Bool
live_entry none = false
live_entry (some w) = not w.finished

-- `_linger` of a future that was tracked: once done, nothing
unfoldable pub linger : ℕ → Server → Server
unfolding find change mark_stuck
linger f s =
    if live_entry (find (task f) s.work)
    then record s { work = change (task f) (mark_stuck true) s.work }
    else s

-- `_begin_work`: a token of our own
unfoldable pub begin_work : Server → Server
begin_work s = record s {
  work = add_default (entry (token s.fresh) step false none) s.work;
  fresh = suc s.fresh;
}

-- a task of ours: created and tracked
unfoldable pub spawn : Kind → Bool → Server → Server
unfolding track
spawn kind stuck s = record (track s.fresh kind stuck none s) { fresh = suc s.fresh }

-- `_begin_listener_close`: the close is registered, then the listener's entry ends
unfoldable pub begin_listener_close : ℕ → Bool → Server → Server
unfolding spawn end_work
begin_listener_close l stuck s = end_work (listening l) (spawn listener_close stuck s)

-- `_cancel_sessions`: every session or decode task that is not done lingers
unfoldable pub cancel_sessions : Server → Server
unfolding mark_kind
cancel_sessions s = record s { work = mark_kind session s.work }

-- How the cleanup of an abandoned bind ends: the bind failed; its listener is being closed; the
-- close raised.
pub data Cleanup : Type 0 where
  bind_failed closes close_raises : Cleanup

unfoldable pub clear_orphan : Work → Work
clear_orphan w = record w { orphan = false }

abbrev pub has_orphan : Option Work → Bool
has_orphan none = false
has_orphan (some w) = w.orphan

-- `_close_orphan_listener`, then the end of `_retire`. The code retires a task once and keeps an
-- entry whose listener could not be closed; a model run may retire it again, which drops the entry.
unfoldable pub run_cleanup : ℕ → Cleanup → Server → Server
unfolding begin_listener_close end_work change mark_stuck
run_cleanup f bind_failed s = end_work (task f) s
run_cleanup f closes s =
    end_work (task f) (begin_listener_close s.fresh true (record s { fresh = suc s.fresh }))
run_cleanup f close_raises s = record s { work = change (task f) (mark_stuck true) s.work }

-- `_retire`
unfoldable pub retire : ℕ → Cleanup → Server → Server
unfolding find clear_orphan run_cleanup end_work
retire f c s =
    if has_orphan (find (task f) s.work)
    then run_cleanup f c (record s { work = change (task f) clear_orphan s.work })
    else end_work (task f) s
