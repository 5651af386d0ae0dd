-- ===== src/Lifecycle/Anchored.antt =====
-- While the token of a step is in the ledger, the server keeps its lock: no operation but the end of
-- that step enters an unlocked state or takes the token away.
use pipecat_local_stt_server.Prelude.{
  ℕ, ◌<◌, String, Bool, true, false, not, Option, none, ◌≡◌, refl, ◌∙◌, ap, arith, is_empty,
  if_rule,
}
use pipecat_local_stt_server.Lifecycle.Ledger.{
  Key, token, listening, task, same_key, Kind, session, step, listener_close, Work, Ledger, has,
  drop, change, find,
}
use pipecat_local_stt_server.Lifecycle.Server.{
  State, new, starting, running, stopping, stopped, allowed, is_unlocked, Server, enter, transition,
  go, is_live, settle, end_work, entry, mark_stuck, track, linger, live_entry, begin_work, spawn,
  begin_listener_close, cancel_sessions,
}
use pipecat_local_stt_server.Lifecycle.LedgerLaws.{
  has-add_default, has-add_default_self, has-change, has-mark_kind, has-drop, is_empty-live_reasons,
  has-filled,
}

-- The token `k` is live, the state is one that holds the lock, and `k` was handed out.
pub record IsAnchored (k : ℕ) (s : Server) : Type 0 where
  pub present : has (token k) s.work ≡ true
  pub held : is_unlocked s.state ≡ false
  pub waiting : s.unlocked ≡ false
  pub old : k < s.fresh

pub is_live-work : (s : Server) → is_live s ≡ not (is_empty s.work)
unfolding is_live
is_live-work s = ap not (is_empty-live_reasons s.work)

module _ {k : ℕ} (s : Server) (h : IsAnchored k s) where
  pub anchored-live : is_live s ≡ true
  anchored-live = is_live-work s ∙ ap not (has-filled (token k) s.work h.present)

  -- another ledger that still has the token
  pub with_work : (ws : Ledger) → has (token k) ws ≡ true → IsAnchored k (record s { work = ws })
  with_work ws there = record { present = there; held = h.held; waiting = h.waiting; old = h.old }

  pub go-IsAnchored : (to : State) → IsAnchored k (go to s)
  unfolding go transition enter is_unlocked allowed
  go-IsAnchored new = ground (arith, anchored-live)
  go-IsAnchored stopped = ground (arith, anchored-live)
  go-IsAnchored starting = ground arith
  go-IsAnchored running = ground arith
  go-IsAnchored stopping = ground arith

  pub settle-IsAnchored : IsAnchored k (settle s)
  unfolding settle
  settle-IsAnchored = if_rule (IsAnchored k) _ (go stopped s) s (λ _. go-IsAnchored stopped) λ _. h

  pub track-IsAnchored :
      (f : ℕ) (c : Kind) (b : Bool) (l : Option String) → IsAnchored k (track f c b l s)
  unfolding track mark_stuck
  track-IsAnchored f c b l = with_work _ (
      has-change (token k) (task f) (mark_stuck b) _ (λ w. refl)
      ∙ has-add_default (token k) (entry (task f) c false l) s.work h.present)

  pub changed-IsAnchored :
      (j : Key) (f : Work → Work)
      → ((w : Work) → (f w).key ≡ w.key)
      → IsAnchored k (record s { work = change j f s.work })
  changed-IsAnchored j f keeps = with_work _ (has-change (token k) j f s.work keeps ∙ h.present)

  pub linger-IsAnchored : (f : ℕ) → IsAnchored k (linger f s)
  unfolding linger mark_stuck
  linger-IsAnchored f =
      if_rule (IsAnchored k) (live_entry (find (task f) s.work)) _ _
        (λ _. changed-IsAnchored (task f) (mark_stuck true) (λ w. refl)) λ _. h

  pub begin_work-IsAnchored : IsAnchored k (begin_work s)
  unfolding begin_work
  begin_work-IsAnchored = record {
    present = has-add_default (token k) _ s.work h.present;
    held = h.held;
    waiting = h.waiting;
    old = omega (arith, h.old);
  }

  pub cancel_sessions-IsAnchored : IsAnchored k (cancel_sessions s)
  unfolding cancel_sessions
  cancel_sessions-IsAnchored = with_work _ (has-mark_kind (token k) session s.work ∙ h.present)

module _ {k : ℕ} (s : Server) (h : IsAnchored k s) where
  pub end_work-IsAnchored : (j : Key) → same_key (token k) j ≡ false → IsAnchored k (end_work j s)
  unfolding end_work
  end_work-IsAnchored j other =
      settle-IsAnchored (record s { work = drop j s.work })
        (with_work s h _ (has-drop (token k) j s.work other h.present))

  pub spawn-IsAnchored : (c : Kind) (b : Bool) → IsAnchored k (spawn c b s)
  unfolding spawn
  spawn-IsAnchored c b =
      let tracked = track-IsAnchored s h s.fresh c b none in
      record {
        present = tracked.present;
        held = tracked.held;
        waiting = tracked.waiting;
        old = omega (arith, h.old);
      }

-- A token that is begun in a state that holds the lock is an anchor.
pub begun-IsAnchored :
    (s : Server)
    → is_unlocked s.state ≡ false
    → s.unlocked ≡ false
    → IsAnchored s.fresh (begin_work s)
unfolding begin_work
begun-IsAnchored s held waiting = record {
  present = has-add_default_self (entry (token s.fresh) step false none) s.work;
  held = held;
  waiting = waiting;
  old = omega arith;
}

pub begin_listener_close-IsAnchored :
    {k : ℕ} (l : ℕ) (b : Bool) (s : Server)
    → IsAnchored k s
    → IsAnchored k (begin_listener_close l b s)
unfolding begin_listener_close same_key
begin_listener_close-IsAnchored l b s h =
    end_work-IsAnchored _ (spawn-IsAnchored s h listener_close b) (listening l) refl
