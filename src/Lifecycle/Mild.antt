-- ===== src/Lifecycle/Mild.antt =====
-- The operations that leave the steps in flight alone: they keep every token in the ledger, end no
-- start and no drain, and begin none.
use pipecat_local_stt_server.Prelude.{
  ℕ, String, Bool, true, false, Option, none, some, ◌≡◌, refl, ◌∙◌, arith, if_rule,
}
use pipecat_local_stt_server.Lifecycle.Ledger.{
  Key, token, listening, task, same_key, Kind, listener_close, close, thread, Work, Ledger, drop,
  change, find,
}
use pipecat_local_stt_server.Lifecycle.Server.{
  State, stopped, Start, Drain, Server, enter, transition, go, settle, end_work, mark_stuck, track,
  linger, live_entry, begin_work, spawn, begin_listener_close, cancel_sessions,
}
use pipecat_local_stt_server.Lifecycle.Drain.{
  close_listener, linger_if, absent, spawn_close, begin_close, keep_close, Idle, quiet, decoding,
  raises, watch_threads, keep_lock_for_leftover_work,
}
use pipecat_local_stt_server.Lifecycle.Start.{is_starting, adopt_listener}
use pipecat_local_stt_server.Lifecycle.LedgerLaws.{has-add_default}
use pipecat_local_stt_server.Lifecycle.Anchored.{
  IsAnchored, go-IsAnchored, track-IsAnchored, changed-IsAnchored, begin_work-IsAnchored,
  cancel_sessions-IsAnchored, end_work-IsAnchored, spawn-IsAnchored,
}

abbrev pub start_token : Option Start → Option ℕ
start_token none = none
start_token (some st) = some st.step_token

abbrev pub drain_token : Option Drain → Option ℕ
drain_token none = none
drain_token (some d) = some d.step_token

-- `t` has the same steps in flight as `s`, did not begin to start, and keeps each anchor of `s`.
pub record Mild (s t : Server) : Type 0 where
  pub starts : start_token t.starts ≡ start_token s.starts
  pub drains : drain_token t.drains ≡ drain_token s.drains
  pub no_start : is_starting t.state ≡ true → is_starting s.state ≡ true
  pub anchors : (k : ℕ) → IsAnchored k s → IsAnchored k t

pub Mild-trans : {s t u : Server} → Mild s t → Mild t u → Mild s u
Mild-trans a b = record {
  starts = b.starts ∙ a.starts;
  drains = b.drains ∙ a.drains;
  no_start = λ h. a.no_start (b.no_start h);
  anchors = λ k h. b.anchors k (a.anchors k h);
}

pub Mild-refl : (s : Server) → Mild s s
Mild-refl s = record { starts = refl; drains = refl; no_start = λ h. h; anchors = λ k h. h }

module _ (s : Server) where
  -- another ledger that keeps the tokens
  pub with_work-Mild :
      (ws : Ledger)
      → ((k : ℕ) → IsAnchored k s → IsAnchored k (record s { work = ws }))
      → Mild s (record s { work = ws })
  with_work-Mild ws keeps = record {
    starts = refl;
    drains = refl;
    no_start = λ h. h;
    anchors = keeps;
  }

  pub go-Mild : (to : State) → is_starting to ≡ false → Mild s (go to s)
  unfolding go transition enter
  go-Mild to late = record {
    starts = ground arith;
    drains = ground arith;
    no_start = ground arith;
    anchors = λ k h. go-IsAnchored s h to;
  }

  pub settle-Mild : Mild s (settle s)
  unfolding settle
  settle-Mild = if_rule (Mild s) _ (go stopped s) s (λ _. go-Mild stopped refl) λ _. Mild-refl s

  pub change-Mild :
      (j : Key) (f : Work → Work)
      → ((w : Work) → (f w).key ≡ w.key)
      → Mild s (record s { work = change j f s.work })
  change-Mild j f keeps = with_work-Mild _ (λ k h. changed-IsAnchored s h j f keeps)

  pub track-Mild : (f : ℕ) (c : Kind) (b : Bool) (l : Option String) → Mild s (track f c b l s)
  unfolding track
  track-Mild f c b l = with_work-Mild _ (λ k h. track-IsAnchored s h f c b l)

  pub linger-Mild : (f : ℕ) → Mild s (linger f s)
  unfolding linger mark_stuck
  linger-Mild f =
      if_rule (Mild s) (live_entry (find (task f) s.work)) _ _
        (λ _. change-Mild (task f) (mark_stuck true) (λ w. refl)) λ _. Mild-refl s

  pub cancel_sessions-Mild : Mild s (cancel_sessions s)
  unfolding cancel_sessions
  cancel_sessions-Mild = with_work-Mild _ (λ k h. cancel_sessions-IsAnchored s h)

  pub spawn-Mild : (c : Kind) (b : Bool) → Mild s (spawn c b s)
  unfolding spawn track
  spawn-Mild c b = record {
    starts = refl;
    drains = refl;
    no_start = λ h. h;
    anchors = λ k h. spawn-IsAnchored s h c b;
  }

  pub begin_work-Mild : Mild s (begin_work s)
  unfolding begin_work
  begin_work-Mild = record {
    starts = refl;
    drains = refl;
    no_start = λ h. h;
    anchors = λ k h. begin_work-IsAnchored s h;
  }

-- the end of an entry that is none of the tokens in flight
pub end_other-Mild :
    (j : Key) (s : Server)
    → ((k : ℕ) → IsAnchored k s → same_key (token k) j ≡ false)
    → Mild s (end_work j s)
unfolding end_work
end_other-Mild j s other =
    let settled = settle-Mild (record s { work = drop j s.work }) in
    record {
      starts = settled.starts;
      drains = settled.drains;
      no_start = settled.no_start;
      anchors = λ k h. end_work-IsAnchored s h j (other k h);
    }

pub end_task-Mild : (f : ℕ) (s : Server) → Mild s (end_work (task f) s)
unfolding same_key
end_task-Mild f s = end_other-Mild (task f) s (λ k h. refl)

pub begin_listener_close-Mild :
    (l : ℕ) (b : Bool) (s : Server) → Mild s (begin_listener_close l b s)
unfolding begin_listener_close same_key
begin_listener_close-Mild l b s =
    Mild-trans (spawn-Mild s listener_close b) (end_other-Mild (listening l) _ (λ k h. refl))

pub close_listener-Mild : (o : Option ℕ) (s : Server) → Mild s (close_listener o s)
unfolding close_listener
close_listener-Mild none s = Mild-refl s
close_listener-Mild (some l) s = begin_listener_close-Mild l false s

pub linger_if-Mild : (b : Bool) (o : Option ℕ) (s : Server) → Mild s (linger_if b o s)
linger_if-Mild true (some f) s = linger-Mild s f
linger_if-Mild true none s = Mild-refl s
linger_if-Mild false o s = Mild-refl s

spawn_close-Mild : (b : Bool) (s : Server) → Mild s (spawn_close b s)
unfolding spawn_close
spawn_close-Mild b s =
    let m = spawn-Mild s close b in
    record {
      starts = m.starts;
      drains = m.drains;
      no_start = m.no_start;
      anchors = λ k h.
          let a = m.anchors k h in
          record { present = a.present; held = a.held; waiting = a.waiting; old = a.old };
    }

pub begin_close-Mild : (b : Bool) (s : Server) → Mild s (begin_close b s)
unfolding begin_close
begin_close-Mild b s =
    if_rule (Mild s) b _ _
      (λ _.
        if_rule (Mild s) (absent s.close_task) _ _ (λ _. spawn_close-Mild false s) λ _. Mild-refl s)
      λ _. Mild-refl s

keep_close-Mild : (b : Bool) (s : Server) → Mild s (keep_close b s)
unfolding keep_close
keep_close-Mild b s =
    if_rule (Mild s) b _ _
      (λ _.
        if_rule (Mild s) (absent s.close_task) _ _ (λ _. spawn_close-Mild true s)
          λ _. linger_if-Mild true s.close_task s)
      λ _. linger_if-Mild true s.close_task s

watch_threads-Mild : (i : Idle) (s : Server) → Mild s (watch_threads i s)
unfolding watch_threads
watch_threads-Mild quiet s = Mild-refl s
watch_threads-Mild decoding s = spawn-Mild s thread true
watch_threads-Mild raises s = Mild-refl s

pub keep_lock_for_leftover_work-Mild :
    (b : Bool) (i : Idle) (s : Server) → Mild s (keep_lock_for_leftover_work b i s)
unfolding keep_lock_for_leftover_work
keep_lock_for_leftover_work-Mild b i s =
    Mild-trans (cancel_sessions-Mild s)
      (Mild-trans (keep_close-Mild b (cancel_sessions s)) (watch_threads-Mild i _))

pub adopt_listener-Mild : (l : ℕ) (s : Server) → Mild s (adopt_listener l s)
unfolding adopt_listener
adopt_listener-Mild l s = record {
  starts = refl;
  drains = refl;
  no_start = λ h. h;
  anchors = λ k h. record {
    present = has-add_default (token k) _ s.work h.present;
    held = h.held;
    waiting = h.waiting;
    old = h.old;
  };
}
