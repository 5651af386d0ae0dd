-- ===== src/Lifecycle/Drain.antt =====
-- `_drain`, `_drain_and_close`, `_close_backend` and `_keep_lock_for_leftover_work`, cut where they
-- wait.
use pipecat_local_stt_server.Prelude.{ℕ, Bool, true, false, Option, none, some, if◌then◌else◌}
use pipecat_local_stt_server.Lifecycle.Ledger.{token, close, thread}
use pipecat_local_stt_server.Lifecycle.Server.{
  DrainPhase, sessions_wait, listener_wait, close_wait, Drain, Server, begin_work, spawn, linger,
  begin_listener_close, cancel_sessions, end_work,
}

-- `_close_listener`: what the drain will wait for
unfoldable pub closer_of : Option ℕ → ℕ → Option ℕ
closer_of none fresh = none
closer_of (some l) fresh = some fresh

unfoldable pub close_listener : Option ℕ → Server → Server
unfolding begin_listener_close
close_listener none s = s
close_listener (some l) s = begin_listener_close l false s

-- The start of a drain, up to its first wait: the flag, the token, the listener's close.
unfoldable pub begin_drain : Bool → Server → Server
unfolding begin_work close_listener closer_of
begin_drain close_backend s =
    let counted : Server = begin_work (record s { shutdown_event = true }) in
    record (close_listener s.server counted) {
      drains = some (record {
        step_token = s.fresh;
        phase = sessions_wait;
        close_backend = close_backend;
        closer = closer_of s.server counted.fresh;
      });
    }

unfoldable pub at_phase : DrainPhase → Drain → Server → Server
at_phase p d s = record s { drains = some (record d { phase = p }) }

abbrev pub linger_if : Bool → Option ℕ → Server → Server
linger_if true (some f) s = linger f s
linger_if _ _ s = s

-- the one backend close of this attempt, tracked
unfoldable pub spawn_close : Bool → Server → Server
unfolding spawn
spawn_close stuck s = record (spawn close stuck s) { close_task = some s.fresh }

abbrev pub absent : Option ℕ → Bool
absent none = true
absent (some f) = false

-- `_close_backend` up to its wait
unfoldable pub begin_close : Bool → Server → Server
unfolding spawn_close
begin_close wanted s = if wanted then if absent s.close_task then spawn_close false s else s else s

-- One wait of the drain ends, by completion or by its timeout.
unfoldable pub drain_waited_at : DrainPhase → Bool → Drain → Server → Server
unfolding at_phase linger begin_close
drain_waited_at sessions_wait timed_out d s = at_phase listener_wait d s
drain_waited_at listener_wait timed_out d s =
    at_phase close_wait d (begin_close d.close_backend (linger_if timed_out d.closer s))
drain_waited_at close_wait timed_out d s = linger_if timed_out s.close_task s

unfoldable pub drain_waited_of : Option Drain → Bool → Server → Server
unfolding drain_waited_at
drain_waited_of none timed_out s = s
drain_waited_of (some d) timed_out s = drain_waited_at d.phase timed_out d s

-- What `backend.idle()` tells: no such hook or nothing in flight, a thread still decoding, or a
-- failure.
pub data Idle : Type 0 where
  quiet decoding raises : Idle

unfoldable pub watch_threads : Idle → Server → Server
unfolding spawn
watch_threads quiet s = s
watch_threads decoding s = spawn thread true s
watch_threads raises s = s

-- `_keep_lock_for_leftover_work`
unfoldable pub keep_close : Bool → Server → Server
unfolding spawn_close linger
keep_close wanted s =
    if wanted
    then if absent s.close_task then spawn_close true s else linger_if true s.close_task s
    else linger_if true s.close_task s

unfoldable pub keep_lock_for_leftover_work : Bool → Idle → Server → Server
unfolding cancel_sessions keep_close watch_threads
keep_lock_for_leftover_work close_backend idle s =
    watch_threads idle (keep_close close_backend (cancel_sessions s))

-- The `finally` of `_drain`: after its last wait, or wherever it is cut short.
unfoldable pub end_drain : Idle → Drain → Server → Server
unfolding keep_lock_for_leftover_work end_work
end_drain idle d s =
    end_work (token d.step_token)
      (record (keep_lock_for_leftover_work d.close_backend idle s) { drains = none })
