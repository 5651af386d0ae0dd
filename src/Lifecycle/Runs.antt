-- ===== src/Lifecycle/Runs.antt =====
-- Callbacks, `shutdown()` and the first turn of `start()` leave the server consistent.
use pipecat_local_stt_server.Prelude.{
  ℕ, suc, Bool, true, false, Option, none, some, ◌≡◌, refl, ◌∙◌, sym, subst, arith, if_rule,
  false≢true, is_some, Bool-cases, inl, inr,
}
use pipecat_local_stt_server.Lifecycle.Ledger.{
  Key, listening, task, step, listener_close, drop, find,
}
use pipecat_local_stt_server.Lifecycle.Server.{
  State, new, starting, running, stopping, stopped, is_unlocked, loading, Start, Server, go, settle,
  end_work, begin_work, spawn, track, transition, enter, allowed, begin_listener_close, mark_stuck,
  clear_orphan, Cleanup, bind_failed, closes, close_raises, run_cleanup, retire, has_orphan,
}
use pipecat_local_stt_server.Lifecycle.Start.{
  LockOutcome, no_socket, acquired, refused, take_lock, begin_start,
}
use pipecat_local_stt_server.Lifecycle.Events.{shutdown_in, call_shutdown, is_finished}
use pipecat_local_stt_server.Lifecycle.Anchored.{IsAnchored, is_live-work, begun-IsAnchored}
use pipecat_local_stt_server.Lifecycle.Mild.{
  start_token, drain_token, Mild, Mild-trans, go-Mild, spawn-Mild, end_task-Mild,
  begin_listener_close-Mild,
}
use pipecat_local_stt_server.Lifecycle.Invariant.{
  IsSettled, HasAnchor, IsConsistent, SameCore-IsConsistent, anchored-IsSettled, end_work-IsSettled,
  Mild-IsConsistent,
}
use pipecat_local_stt_server.Lifecycle.Steps.{begin_drain-IsConsistent}
use pipecat_local_stt_server.Lifecycle.StartSteps.{unwind-IsConsistent}
use pipecat_local_stt_server.Lifecycle.Consistency.{
  changed-IsConsistent, spawn-IsConsistent, filled-IsSettled, track-has,
}

-- nothing is found in the ledger of an unlocked state
pub found_held :
    (f : ℕ) (s : Server)
    → IsConsistent s
    → is_finished (find (task f) s.work) ≡ true
    → is_unlocked s.state ≡ false
unfolding find
found_held f s c h = elim (Bool-cases (is_unlocked s.state)) [
  | inl free ↦ let gone = c.settled.no_work free in ground arith
  | inr held ↦ held
]

-- The end of an entry keeps a settled state settled.
end-IsSettled : (j : Key) (s : Server) → IsSettled s → IsSettled (end_work j s)
unfolding end_work settle drop is_unlocked
end-IsSettled j s h = elim (Bool-cases (is_unlocked s.state)) [
  | inl free ↦
      let gone = h.no_work free in
      record {
        no_work = ground (arith, h.no_work);
        no_lock = ground (arith, h.no_lock);
        woken = ground (arith, h.woken);
        stopping_live = ground (arith, h.stopping_live);
      }
  | inr held ↦ end_work-IsSettled j s held (h.woken ∙ held)
]

begin_listener_close-IsConsistent :
    (l : ℕ) (b : Bool) (s : Server)
    → is_unlocked s.state ≡ false
    → IsConsistent s
    → IsConsistent (begin_listener_close l b s)
unfolding begin_listener_close
begin_listener_close-IsConsistent l b s held c =
    Mild-IsConsistent s _ (begin_listener_close-Mild l b s)
      (end-IsSettled (listening l) _ (spawn-IsConsistent listener_close b s held c).settled) c

end_task-IsConsistent : (f : ℕ) (s : Server) → IsConsistent s → IsConsistent (end_work (task f) s)
end_task-IsConsistent f s c =
    Mild-IsConsistent s _ (end_task-Mild f s) (end-IsSettled (task f) s c.settled) c

run_cleanup-IsConsistent :
    (f : ℕ) (r : Cleanup) (s : Server)
    → is_unlocked s.state ≡ false
    → IsConsistent s
    → IsConsistent (run_cleanup f r s)
unfolding run_cleanup mark_stuck
run_cleanup-IsConsistent f bind_failed s held c = end_task-IsConsistent f s c
run_cleanup-IsConsistent f closes s held c = end_task-IsConsistent f _ (
    begin_listener_close-IsConsistent s.fresh true (record s { fresh = suc s.fresh }) held
      (SameCore-IsConsistent
        (record {
          state = refl;
          locked = refl;
          work = refl;
          unlocked = refl;
          fresh = omega arith;
          starts = refl;
          drains = refl;
        })
        c))
run_cleanup-IsConsistent f close_raises s held c =
    changed-IsConsistent (task f) (mark_stuck true) s (λ w. refl) c

pub retire-IsConsistent :
    (f : ℕ) (r : Cleanup) (s : Server)
    → is_unlocked s.state ≡ false
    → IsConsistent s
    → IsConsistent (retire f r s)
unfolding retire clear_orphan
retire-IsConsistent f r s held c =
    if_rule IsConsistent (has_orphan (find (task f) s.work)) _ _
      (λ _.
        run_cleanup-IsConsistent f r _ held
          (changed-IsConsistent (task f) clear_orphan s (λ w. refl) c))
      λ _. end_task-IsConsistent f s c

-- `go` to `stopped` from a settled `new`
stop_new-IsSettled : (s : Server) → s.state ≡ new → IsSettled s → IsSettled (go stopped s)
unfolding go transition enter is_unlocked allowed
stop_new-IsSettled s e h =
    let gone = h.no_work (rw e refl) in
    record {
      no_work = ground (arith, is_live-work s);
      no_lock = ground (arith, is_live-work s, h.no_lock);
      woken = ground (arith, is_live-work s, h.woken);
      stopping_live = ground (arith, is_live-work s);
    }

go_stopping :
    (s : Server)
    → s.state ≡ running
    → go stopping s ≡ record s { state = stopping; unlocked = false }
unfolding go transition enter is_unlocked allowed
go_stopping s e = ground arith

go_starting :
    (s : Server) → s.state ≡ new → go starting s ≡ record s { state = starting; unlocked = false }
unfolding go transition enter is_unlocked allowed
go_starting s e = ground arith

-- the task of the drain, created in `stopping`
drained : Server → Server
drained s = record (spawn step false (go stopping s)) { stop_task = some s.fresh }

drained-IsConsistent : (s : Server) → s.state ≡ running → IsConsistent s → IsConsistent (drained s)
unfolding drained spawn track is_unlocked
drained-IsConsistent s e c =
    let still : Server = record s { state = stopping; unlocked = false } in
    let m : Mild s (spawn step false (go stopping s)) =
      Mild-trans (go-Mild s stopping refl) (spawn-Mild (go stopping s) step false) in
    SameCore-IsConsistent
      (record {
        state = refl;
        locked = refl;
        work = refl;
        unlocked = refl;
        fresh = omega arith;
        starts = refl;
        drains = refl;
      })
      (Mild-IsConsistent s _ m
        (subst (λ (t : Server). IsSettled (spawn step false t)) (sym (go_stopping s e))
          (filled-IsSettled (task still.fresh) (spawn step false still)
            (track-has still.fresh step false none still) refl refl))
        c)

drained_held : (s : Server) → s.state ≡ running → is_unlocked (drained s).state ≡ false
unfolding drained spawn track is_unlocked
drained_held s e = rw (go_stopping s e) refl

some_anchored :
    (o : Option ℕ) (s t : Server) → is_some o ≡ true → HasAnchor o s → Mild s t → IsSettled t
some_anchored none s t h a m = absurd (false≢true h)
some_anchored (some k) s t h a m = anchored-IsSettled t (m.anchors k a)

shutdown_in-IsConsistent :
    (st : State) (s : Server) → s.state ≡ st → IsConsistent s → IsConsistent (shutdown_in st s)
unfolding shutdown_in drained
shutdown_in-IsConsistent new s e c =
    Mild-IsConsistent s _ (go-Mild s stopped refl) (stop_new-IsSettled s e c.settled) c
shutdown_in-IsConsistent starting s e c =
    Mild-IsConsistent s _ (go-Mild s stopping refl)
      (some_anchored (start_token s.starts) s _ (c.start_in_flight (rw e refl)) c.start_live
        (go-Mild s stopping refl))
      c
shutdown_in-IsConsistent running s e c =
    let kept = drained-IsConsistent s e c in
    begin_drain-IsConsistent true (drained s) (drained_held s e) kept
shutdown_in-IsConsistent stopping s e c = c
shutdown_in-IsConsistent stopped s e c = c

pub requested-IsConsistent :
    (s : Server) → IsConsistent s → IsConsistent (record s { shutdown_requested = true })
requested-IsConsistent s = SameCore-IsConsistent (record {
  state = refl;
  locked = refl;
  work = refl;
  unlocked = refl;
  fresh = omega arith;
  starts = refl;
  drains = refl;
})

pub call_shutdown-IsConsistent : (s : Server) → IsConsistent s → IsConsistent (call_shutdown s)
unfolding call_shutdown
call_shutdown-IsConsistent s c =
    shutdown_in-IsConsistent s.state (record s { shutdown_requested = true }) refl
      (requested-IsConsistent s c)

free_token : (o : Option ℕ) (s : Server) → is_unlocked s.state ≡ true → HasAnchor o s → o ≡ none
free_token none s free h = refl
free_token (some k) s free h = absurd (false≢true (sym h.held ∙ free))

-- a start in flight from `new`, with the lock or without
begun_start : Bool → Server → Server
begun_start lock s = record (begin_work (record s { state = starting; unlocked = false })) {
  starts = some (record { step_token = s.fresh; phase = loading; backend_started = false });
  locked = lock;
}

begun_start-IsConsistent :
    (lock : Bool) (s : Server) → s.state ≡ new → IsConsistent s → IsConsistent (begun_start lock s)
unfolding begun_start begin_work is_unlocked
begun_start-IsConsistent lock s e c =
    let opened : Server = record s { state = starting; unlocked = false } in
    let anchor = begun-IsAnchored opened refl refl in
    let here : IsAnchored s.fresh (begun_start lock s) = record {
      present = anchor.present;
      held = refl;
      waiting = refl;
      old = anchor.old;
    } in
    let no_drain : drain_token s.drains ≡ none =
      free_token (drain_token s.drains) s (rw e refl) c.drain_live in
    record {
      settled = anchored-IsSettled _ here;
      start_live = here;
      drain_live = rw no_drain tt;
      distinct = rw no_drain tt;
      start_in_flight = λ _. refl;
    }

pub begin_start-IsConsistent :
    (lock : LockOutcome) (s : Server)
    → s.state ≡ new
    → IsConsistent s
    → IsConsistent (begin_start lock s)
unfolding begin_start take_lock begun_start begin_work
begin_start-IsConsistent no_socket s e c =
    rw (go_starting s e) (begun_start-IsConsistent s.locked s e c)
begin_start-IsConsistent acquired s e c = rw (go_starting s e) (begun_start-IsConsistent true s e c)
begin_start-IsConsistent refused s e c =
    let st : Start = record { step_token = s.fresh; phase = loading; backend_started = false } in
    rw (go_starting s e) (
      unwind-IsConsistent st st (begun_start s.locked s) refl refl
        (begun_start-IsConsistent s.locked s e c))
