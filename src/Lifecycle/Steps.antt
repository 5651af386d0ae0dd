-- ===== src/Lifecycle/Steps.antt =====
-- The steps of `start()` and of a drain keep the invariant of the server.
use pipecat_local_stt_server.Prelude.{
  ℕ, Bool, true, false, Option, none, some, ◌≡◌, refl, ◌∙◌, sym, ap, subst, arith,
}
use pipecat_local_stt_server.Lifecycle.Server.{
  is_unlocked, Start, Drain, Server, track, begin_listener_close, go, settle, end_work, begin_work,
  spawn, transition, enter,
}
use pipecat_local_stt_server.Lifecycle.Drain.{close_listener, begin_drain}
use pipecat_local_stt_server.Lifecycle.Anchored.{IsAnchored, begun-IsAnchored}
use pipecat_local_stt_server.Lifecycle.Mild.{
  start_token, drain_token, Mild, Mild-trans, begin_work-Mild, close_listener-Mild,
}
use pipecat_local_stt_server.Lifecycle.Invariant.{
  HasAnchor, Distinct, IsConsistent, SameCore-IsConsistent, anchored-IsSettled,
}

-- the counted state from which a drain closes the listener
counted : Server → Server
counted s = begin_work (record s { shutdown_event = true })

-- A drain begun in a state that holds the lock is in flight, under a token of its own.
pub begin_drain-IsConsistent :
    (b : Bool) (s : Server)
    → is_unlocked s.state ≡ false
    → IsConsistent s
    → IsConsistent (begin_drain b s)
unfolding begin_drain counted
begin_drain-IsConsistent b s held c =
    let flagged : Server = record s { shutdown_event = true } in
    let anchor : IsAnchored s.fresh (counted s) =
      begun-IsAnchored flagged held (c.settled.woken ∙ held) in
    let m : Mild (counted s) (close_listener s.server (counted s)) =
      close_listener-Mild s.server (counted s) in
    let kept = m.anchors s.fresh anchor in
    let settled = anchored-IsSettled _ kept in
    let before : Mild flagged (counted s) = begin_work-Mild flagged in
    let all = Mild-trans before m in
    record {
      settled = record {
        no_work = settled.no_work;
        no_lock = settled.no_lock;
        woken = settled.woken;
        stopping_live = settled.stopping_live;
      };
      start_live =
          started (start_token s.starts) _ all.starts
            (λ k h.
              let a =
                all.anchors k (record {
                  present = h.present;
                  held = h.held;
                  waiting = h.waiting;
                  old = h.old;
                }) in
              record { present = a.present; held = a.held; waiting = a.waiting; old = a.old })
            c.start_live;
      drain_live = record {
        present = kept.present;
        held = kept.held;
        waiting = kept.waiting;
        old = kept.old;
      };
      distinct = rw all.starts (older (start_token s.starts) c.start_live);
      start_in_flight = λ h. rw all.starts (c.start_in_flight (all.no_start h));
    }
  where
    started :
        {t : Server} (o p : Option ℕ)
        → p ≡ o
        → ((k : ℕ) → IsAnchored k s → IsAnchored k t)
        → HasAnchor o s
        → HasAnchor p t
    started none p e keeps h = rw e tt
    started (some k) p e keeps h = rw e (keeps k h)

    older : (o : Option ℕ) → HasAnchor o s → Distinct o (some s.fresh)
    older none h = tt
    older (some k) h = omega (arith, h.old)

-- Only the phase and the flag of a start in flight change.
pub at_start-IsConsistent :
    (st st' : Start) (s : Server)
    → s.starts ≡ some st
    → st'.step_token ≡ st.step_token
    → IsConsistent s
    → IsConsistent (record s { starts = some st' })
at_start-IsConsistent st st' s e same = SameCore-IsConsistent (record {
  state = refl;
  locked = refl;
  work = refl;
  unlocked = refl;
  fresh = omega arith;
  starts = ap some same ∙ sym (ap start_token e);
  drains = refl;
})

-- the anchor of a start in flight
pub start-IsAnchored :
    (st : Start) (s : Server) → s.starts ≡ some st → IsConsistent s → IsAnchored st.step_token s
start-IsAnchored st s e c = subst (λ (o : Option Start). HasAnchor (start_token o) s) e c.start_live

pub drain-IsAnchored :
    (d : Drain) (s : Server) → s.drains ≡ some d → IsConsistent s → IsAnchored d.step_token s
drain-IsAnchored d s e c = subst (λ (o : Option Drain). HasAnchor (drain_token o) s) e c.drain_live

pub begin_drain-starts : (b : Bool) (s : Server) → (begin_drain b s).starts ≡ s.starts
unfolding begin_drain close_listener begin_listener_close spawn end_work settle go transition enter
    begin_work track
begin_drain-starts b s = ground arith
