-- ===== src/Lifecycle/Moved.antt =====
-- The operations of the server as runs of the specification: its state and its lock move as
-- `Spec` says.
use pipecat_local_stt_server.Prelude.{
  ℕ, Bool, true, false, not, ◌&&◌, Option, none, some, ◌≡◌, refl, arith, if_rule,
}
use pipecat_local_stt_server.Lifecycle.Ledger.{
  Key, token, task, listening, listener_close, drop, find,
}
use pipecat_local_stt_server.Lifecycle.Server.{
  State, new, starting, running, stopping, stopped, allowed, is_unlocked, is_live, is_stopping,
  DrainPhase, sessions_wait, listener_wait, close_wait, Drain, Server, enter, transition, go,
  settle, end_work, linger, spawn, begin_work, begin_listener_close, cancel_sessions, live_entry,
  or_same,
}
use pipecat_local_stt_server.Lifecycle.Drain.{
  close_listener, begin_drain, at_phase, linger_if, spawn_close, absent, begin_close,
  drain_waited_at, Idle, quiet, decoding, raises, watch_threads, keep_close,
  keep_lock_for_leftover_work, end_drain,
}
use pipecat_local_stt_server.Lifecycle.Spec.{View, keeps, releases, Moves, rests, moves, chains}

abbrev pub view : Server → View
view s = record { state = s.state; locked = s.locked }

abbrev pub Refines : Server → Server → Type 0
Refines s t = Moves (view s) (view t)

pub enter_moves : (to : State) (s : Server) → allowed s.state to ≡ true → Refines s (enter to s)
unfolding enter is_unlocked
enter_moves new s can = moves (releases can refl)
enter_moves starting s can = moves (keeps can refl)
enter_moves running s can = moves (keeps can refl)
enter_moves stopping s can = moves (keeps can refl)
enter_moves stopped s can = moves (releases can refl)

pub not-false : (b : Bool) → not b ≡ false → b ≡ true
not-false b h = ground arith

pub go_moves : (to : State) (s : Server) → Refines s (go to s)
unfolding go transition
go_moves to s =
    if_rule (λ r. Refines s (or_same r s)) (not (allowed s.state to)) _ _ (λ _. rests)
      λ can.
        if_rule (λ r. Refines s (or_same r s)) (is_unlocked to && is_live s) _ _ (λ _. rests)
          λ _. enter_moves to s (not-false _ can)

pub settle_moves : (s : Server) → Refines s (settle s)
unfolding settle
settle_moves s =
    if_rule (Refines s) (is_stopping s.state && not (is_live s)) _ _ (λ _. go_moves stopped s)
      λ _. rests

pub end_work_moves : (k : Key) (s : Server) → Refines s (end_work k s)
unfolding end_work
end_work_moves k s = settle_moves (record s { work = drop k s.work })

pub linger_moves : (f : ℕ) (s : Server) → Refines s (linger f s)
unfolding linger
linger_moves f s =
    if_rule (Refines s) (live_entry (find (task f) s.work)) _ _ (λ _. rests) λ _. rests

pub begin_listener_close_moves :
    (l : ℕ) (b : Bool) (s : Server) → Refines s (begin_listener_close l b s)
unfolding begin_listener_close spawn
begin_listener_close_moves l b s = end_work_moves (listening l) (spawn listener_close b s)

pub close_listener_moves : (o : Option ℕ) (s : Server) → Refines s (close_listener o s)
unfolding close_listener
close_listener_moves none s = rests
close_listener_moves (some l) s = begin_listener_close_moves l false s

pub begin_drain_moves : (b : Bool) (s : Server) → Refines s (begin_drain b s)
unfolding begin_drain begin_work
begin_drain_moves b s =
    close_listener_moves s.server (begin_work (record s { shutdown_event = true }))

pub linger_if_moves : (b : Bool) (o : Option ℕ) (s : Server) → Refines s (linger_if b o s)
linger_if_moves true (some f) s = linger_moves f s
linger_if_moves true none s = rests
linger_if_moves false o s = rests

pub begin_close_moves : (b : Bool) (s : Server) → Refines s (begin_close b s)
unfolding begin_close spawn_close spawn
begin_close_moves b s =
    if_rule (Refines s) b _ _
      (λ _. if_rule (Refines s) (absent s.close_task) _ _ (λ _. rests) λ _. rests) λ _. rests

pub drain_waited_moves :
    (p : DrainPhase) (b : Bool) (d : Drain) (s : Server) → Refines s (drain_waited_at p b d s)
unfolding drain_waited_at at_phase
drain_waited_moves sessions_wait b d s = rests
drain_waited_moves listener_wait b d s =
    chains (linger_if_moves b d.closer s) (begin_close_moves d.close_backend _)
drain_waited_moves close_wait b d s = linger_if_moves b s.close_task s

pub keep_close_moves : (b : Bool) (s : Server) → Refines s (keep_close b s)
unfolding keep_close spawn_close spawn
keep_close_moves b s =
    if_rule (Refines s) b _ _
      (λ _.
        if_rule (Refines s) (absent s.close_task) _ _ (λ _. rests)
          λ _. linger_if_moves true s.close_task s)
      λ _. linger_if_moves true s.close_task s

pub watch_threads_moves : (i : Idle) (s : Server) → Refines s (watch_threads i s)
unfolding watch_threads spawn
watch_threads_moves quiet s = rests
watch_threads_moves decoding s = rests
watch_threads_moves raises s = rests

pub end_drain_moves : (i : Idle) (d : Drain) (s : Server) → Refines s (end_drain i d s)
unfolding end_drain keep_lock_for_leftover_work cancel_sessions
end_drain_moves i d s =
    chains
      (chains (keep_close_moves d.close_backend (cancel_sessions s))
        (watch_threads_moves i (keep_close d.close_backend (cancel_sessions s))))
      (end_work_moves (token d.step_token)
        (record (keep_lock_for_leftover_work d.close_backend i s) { drains = none }))
