-- ===== src/Lifecycle/EventSteps.antt =====
-- Every event keeps the invariant of the server.
use pipecat_local_stt_server.Prelude.{
  ℕ, Bool, Option, none, some, ◌≡◌, refl, ◌∙◌, sym, ap, subst, arith,
}
use pipecat_local_stt_server.Lifecycle.Ledger.{token}
use pipecat_local_stt_server.Lifecycle.Server.{
  StartPhase, loading, unwinding, binding, rebinding, Start, DrainPhase, sessions_wait,
  listener_wait, close_wait, Drain, Server, end_work,
}
use pipecat_local_stt_server.Lifecycle.Drain.{
  at_phase, linger_if, begin_close, drain_waited_at, drain_waited_of, Idle,
  keep_lock_for_leftover_work, end_drain,
}
use pipecat_local_stt_server.Lifecycle.Start.{finish_start}
use pipecat_local_stt_server.Lifecycle.Events.{after_drain, drain_ends_of}
use pipecat_local_stt_server.Lifecycle.Mild.{
  start_token, drain_token, Mild, Mild-trans, linger_if-Mild, begin_close-Mild,
  keep_lock_for_leftover_work-Mild,
}
use pipecat_local_stt_server.Lifecycle.Invariant.{
  HasAnchor, Distinct, IsConsistent, SameCore-IsConsistent, end_work-IsSettled, anchored-Mild,
}
use pipecat_local_stt_server.Lifecycle.Steps.{drain-IsAnchored}
use pipecat_local_stt_server.Lifecycle.StartSteps.{
  finish_start-IsConsistent, ended_anchor, end_work_steps, Mild-anchor,
}

at_phase-IsConsistent :
    (p : DrainPhase) (d : Drain) (s : Server)
    → drain_token s.drains ≡ some d.step_token
    → IsConsistent s
    → IsConsistent (at_phase p d s)
unfolding at_phase
at_phase-IsConsistent p d s e = SameCore-IsConsistent (record {
  state = refl;
  locked = refl;
  work = refl;
  unlocked = refl;
  fresh = omega arith;
  starts = refl;
  drains = sym e;
})

drain_waited_at-IsConsistent :
    (p : DrainPhase) (timed_out : Bool) (d : Drain) (s : Server)
    → s.drains ≡ some d
    → IsConsistent s
    → IsConsistent (drain_waited_at p timed_out d s)
unfolding drain_waited_at
drain_waited_at-IsConsistent sessions_wait timed_out d s e c =
    at_phase-IsConsistent listener_wait d s (ap drain_token e) c
drain_waited_at-IsConsistent listener_wait timed_out d s e c =
    let lingered : Server = linger_if timed_out d.closer s in
    let m : Mild s (begin_close d.close_backend lingered) =
      Mild-trans (linger_if-Mild timed_out d.closer s)
        (begin_close-Mild d.close_backend lingered) in
    at_phase-IsConsistent close_wait d _ (m.drains ∙ ap drain_token e)
      (anchored-Mild s _ (drain-IsAnchored d s e c) m c)
drain_waited_at-IsConsistent close_wait timed_out d s e c =
    anchored-Mild s _ (drain-IsAnchored d s e c) (linger_if-Mild timed_out s.close_task s) c

pub drain_waited_of-IsConsistent :
    (o : Option Drain) (timed_out : Bool) (s : Server)
    → s.drains ≡ o
    → IsConsistent s
    → IsConsistent (drain_waited_of o timed_out s)
unfolding drain_waited_of
drain_waited_of-IsConsistent none timed_out s e c = c
drain_waited_of-IsConsistent (some d) timed_out s e c =
    drain_waited_at-IsConsistent d.phase timed_out d s e c

without_drain :
    (o : Option ℕ) (s : Server) → HasAnchor o s → HasAnchor o (record s { drains = none })
without_drain none s h = tt
without_drain (some k) s h = record {
  present = h.present;
  held = h.held;
  waiting = h.waiting;
  old = h.old;
}

Distinct-sym : (o : Option ℕ) (k : ℕ) → Distinct o (some k) → Distinct (some k) o
Distinct-sym none k h = tt
Distinct-sym (some j) k h = λ e. h (sym e)

no_drain-Distinct : (o : Option ℕ) → Distinct o none
no_drain-Distinct none = tt
no_drain-Distinct (some k) = tt

-- The end of a drain, its leftovers kept.
end_drain-IsConsistent :
    (idle : Idle) (d : Drain) (s : Server)
    → s.drains ≡ some d
    → IsConsistent s
    → IsConsistent (end_drain idle d s)
unfolding end_drain
end_drain-IsConsistent idle d s e c =
    let kept : Server = keep_lock_for_leftover_work d.close_backend idle s in
    let m : Mild s kept = keep_lock_for_leftover_work-Mild d.close_backend idle s in
    let anchor = m.anchors d.step_token (drain-IsAnchored d s e c) in
    let alone : Server = record kept { drains = none } in
    let steps = end_work_steps (token d.step_token) alone in
    let apart : Distinct (some d.step_token) (start_token s.starts) =
      Distinct-sym (start_token s.starts) d.step_token (
        subst (λ (o : Option Drain). Distinct (start_token s.starts) (drain_token o)) e
          c.distinct) in
    record {
      settled = end_work-IsSettled (token d.step_token) alone anchor.held anchor.waiting;
      start_live =
          subst (λ (o : Option ℕ). HasAnchor o (end_work (token d.step_token) alone))
            (sym (ap start_token steps.0 ∙ m.starts))
            (ended_anchor d.step_token (start_token s.starts) alone apart (
              without_drain (start_token s.starts) kept (
                Mild-anchor (start_token s.starts) (start_token s.starts) s kept m refl
                  c.start_live)));
      drain_live = rw steps.1 tt;
      distinct = rw steps.1 (no_drain-Distinct _);
      start_in_flight = λ h. rw steps.0 (rw m.starts (c.start_in_flight (m.no_start (steps.2 h))));
    }

after_drain-IsConsistent :
    (o : Option Start) (s : Server) → s.starts ≡ o → IsConsistent s → IsConsistent (after_drain o s)
unfolding after_drain
after_drain-IsConsistent none s e c = c
after_drain-IsConsistent (some st) s e c = phase_case st.phase
  where
    phase_case : (p : StartPhase) → IsConsistent (elim p [ unwinding ↦ finish_start st s | _ ↦ s ])
    phase_case unwinding = finish_start-IsConsistent st s e c
    phase_case loading = c
    phase_case (binding b) = c
    phase_case (rebinding b) = c

pub drain_ends_of-IsConsistent :
    (o : Option Drain) (idle : Idle) (s : Server)
    → s.drains ≡ o
    → IsConsistent s
    → IsConsistent (drain_ends_of o idle s)
unfolding drain_ends_of
drain_ends_of-IsConsistent none idle s e c = c
drain_ends_of-IsConsistent (some d) idle s e c =
    after_drain-IsConsistent (end_drain idle d s).starts (end_drain idle d s) refl
      (end_drain-IsConsistent idle d s e c)
