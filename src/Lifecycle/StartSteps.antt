-- ===== src/Lifecycle/StartSteps.antt =====
-- Each step of `start()` and each end of a drain keeps the invariant of the server.
use pipecat_local_stt_server.Prelude.{
  ℕ, true, false, Option, none, some, ◌≡◌, refl, ◌∙◌, sym, ap, subst, arith, ◌≢◌, if_rule,
  false≢true, Bool-cases, inl, inr, if◌then◌else◌,
}
use pipecat_local_stt_server.Lifecycle.Ledger.{Key, token, task, same_key, bind}
use pipecat_local_stt_server.Lifecycle.Server.{
  State, new, running, stopping, is_unlocked, unwinding, binding, Start, Server, go, is_live,
  settle, end_work, spawn, track, transition, enter, allowed,
}
use pipecat_local_stt_server.Lifecycle.Drain.{begin_drain}
use pipecat_local_stt_server.Lifecycle.Start.{
  is_starting, at_start, unwind, backend_up, adopt_listener, adopt_bound, finish_start,
  bind_resumed, bind_lost, set_orphan, bind_abandoned,
}
use pipecat_local_stt_server.Lifecycle.Anchored.{end_work-IsAnchored}
use pipecat_local_stt_server.Lifecycle.Mild.{
  start_token, drain_token, Mild, Mild-refl, go-Mild, spawn-Mild, adopt_listener-Mild, change-Mild,
}
use pipecat_local_stt_server.Lifecycle.Invariant.{
  IsSettled, HasAnchor, Distinct, IsConsistent, SameCore-IsConsistent, not_live-nil,
  end_work-IsSettled, settle_settled, anchored-Mild,
}
use pipecat_local_stt_server.Lifecycle.Steps.{
  begin_drain-IsConsistent, begin_drain-starts, at_start-IsConsistent, start-IsAnchored,
}

-- A start in flight begins to unwind.
pub unwind-IsConsistent :
    (st st' : Start) (s : Server)
    → s.starts ≡ some st
    → st'.step_token ≡ st.step_token
    → IsConsistent s
    → IsConsistent (unwind st' s)
unfolding unwind at_start
unwind-IsConsistent st st' s e same c =
    at_start-IsConsistent st (record st' { phase = unwinding }) (begin_drain st'.backend_started s)
      (begin_drain-starts st'.backend_started s ∙ e) same
      (begin_drain-IsConsistent st'.backend_started s (start-IsAnchored st s e c).held c)

pub backend_up-IsConsistent :
    (st : Start) (s : Server) → s.starts ≡ some st → IsConsistent s → IsConsistent (backend_up st s)
unfolding backend_up spawn track
backend_up-IsConsistent st s e c =
    if_rule IsConsistent (is_starting s.state) _ _
      (λ _.
        at_start-IsConsistent st
          (record { step_token = st.step_token; phase = binding s.fresh; backend_started = true })
          (spawn bind false s) e refl
          (anchored-Mild s _ (start-IsAnchored st s e c) (spawn-Mild s bind false) c))
      λ _. unwind-IsConsistent st (record st { backend_started = true }) s e refl c

-- a field that is bookkeeping
cleared-IsConsistent : (s : Server) → IsConsistent s → IsConsistent (record s { bound = none })
cleared-IsConsistent s = SameCore-IsConsistent (record {
  state = refl;
  locked = refl;
  work = refl;
  unlocked = refl;
  fresh = omega arith;
  starts = refl;
  drains = refl;
})

adopted-IsConsistent :
    (l : ℕ) (st : Start) (s : Server)
    → s.starts ≡ some st
    → IsConsistent s
    → IsConsistent (adopt_listener l s)
adopted-IsConsistent l st s e c =
    anchored-Mild s _ (start-IsAnchored st s e c) (adopt_listener-Mild l s) c

adopt_bound-IsConsistent :
    (o : Option ℕ) (st : Start) (s : Server)
    → s.starts ≡ some st
    → IsConsistent s
    → IsConsistent (adopt_bound o s) × ((adopt_bound o s).starts ≡ s.starts)
unfolding adopt_listener
adopt_bound-IsConsistent none st s e c = (c, refl)
adopt_bound-IsConsistent (some l) st s e c = (adopted-IsConsistent l st s e c, refl)

pub bind_lost-IsConsistent :
    (st : Start) (s : Server) → s.starts ≡ some st → IsConsistent s → IsConsistent (bind_lost st s)
unfolding bind_lost
bind_lost-IsConsistent st s e c =
    let (kept, same) =
      adopt_bound-IsConsistent s.bound st (record s { bound = none }) e
        (cleared-IsConsistent s c) in
    unwind-IsConsistent st st _ (same ∙ e) refl kept

pub bind_abandoned-IsConsistent :
    (b : ℕ) (st : Start) (s : Server)
    → s.starts ≡ some st
    → IsConsistent s
    → IsConsistent (bind_abandoned b st s)
unfolding bind_abandoned set_orphan
bind_abandoned-IsConsistent b st s e c = unwind-IsConsistent st st _ e refl (
    anchored-Mild s _ (start-IsAnchored st s e c) (change-Mild s (task b) set_orphan (λ w. refl)) c)

-- where a start leaves its last states, with no start in flight
finished : Server → Server
finished s = if is_starting s.state then if is_live s then go stopping s else go new s else s

finished-IsSettled : (s : Server) → IsSettled s → IsSettled (finished s)
unfolding finished go transition enter is_unlocked allowed
finished-IsSettled s h = elim (Bool-cases (is_live s)) [
  | inl live ↦ record {
    no_work = ground (arith, h.no_work);
    no_lock = ground (arith, h.no_lock);
    woken = ground (arith, h.woken);
    stopping_live = ground (arith, h.stopping_live);
  }
  | inr dead ↦
      let none_left = not_live-nil s dead in
      record {
        no_work = ground (arith, h.no_work);
        no_lock = ground (arith, h.no_lock);
        woken = ground (arith, h.woken);
        stopping_live = ground (arith, h.stopping_live);
      }
]

finished-not_starting : (s : Server) → is_starting (finished s).state ≡ false
unfolding finished go transition enter is_unlocked allowed
finished-not_starting s = elim (Bool-cases (is_live s)) [
  | inl live ↦ ground arith
  | inr dead ↦ ground arith
]

finished-Mild : (s : Server) → Mild s (finished s)
unfolding finished
finished-Mild s =
    if_rule (Mild s) (is_starting s.state) _ _
      (λ _. if_rule (Mild s) (is_live s) _ _ (λ _. go-Mild s stopping refl) λ _. go-Mild s new refl)
      λ _. Mild-refl s

pub end_work_steps :
    (j : Key) (s : Server)
    → ((end_work j s).starts ≡ s.starts)
      × ((end_work j s).drains ≡ s.drains)
      × (is_starting (end_work j s).state ≡ true → is_starting s.state ≡ true)
unfolding end_work settle go transition enter
end_work_steps j s = (ground arith, ground arith, ground arith)

different : (j k : ℕ) → j ≢ k → same_key (token k) (token j) ≡ false
unfolding same_key
different j k ne = ground arith

-- The end of one token leaves the anchor of another step.
pub ended_anchor :
    (j : ℕ) (o : Option ℕ) (s : Server)
    → Distinct (some j) o
    → HasAnchor o s
    → HasAnchor o (end_work (token j) s)
ended_anchor j none s ne h = tt
ended_anchor j (some k) s ne h = end_work-IsAnchored s h (token j) (different j k ne)

pub Mild-anchor : (o p : Option ℕ) (s t : Server) → Mild s t → p ≡ o → HasAnchor o s → HasAnchor p t
Mild-anchor none p s t m e h = rw e tt
Mild-anchor (some k) p s t m e h = rw e (m.anchors k h)

-- an anchor does not hang on what is in flight
without_start :
    (o : Option ℕ) (s : Server) → HasAnchor o s → HasAnchor o (record s { starts = none })
without_start none s h = tt
without_start (some k) s h = record {
  present = h.present;
  held = h.held;
  waiting = h.waiting;
  old = h.old;
}

-- The end of a start: its token leaves the ledger, and the state is one where no start runs.
pub finish_start-IsConsistent :
    (st : Start) (s : Server)
    → s.starts ≡ some st
    → IsConsistent s
    → IsConsistent (finish_start st s)
unfolding finish_start finished
finish_start-IsConsistent st s e c =
    let anchor = start-IsAnchored st s e c in
    let alone : Server = record s { starts = none } in
    let ended : Server = end_work (token st.step_token) alone in
    let steps = end_work_steps (token st.step_token) alone in
    let ended_settled : IsSettled ended =
      end_work-IsSettled (token st.step_token) alone anchor.held anchor.waiting in
    let last_settled : IsSettled (finished ended) = finished-IsSettled ended ended_settled in
    let m : Mild ended (finished ended) = finished-Mild ended in
    let apart : Distinct (some st.step_token) (drain_token s.drains) =
      subst (λ (o : Option Start). Distinct (start_token o) (drain_token s.drains)) e c.distinct in
    let none_left : start_token (finished ended).starts ≡ none =
      m.starts ∙ ap start_token steps.0 in
    rw (settle_settled (finished ended) last_settled) (record {
      settled = last_settled;
      start_live = rw none_left tt;
      drain_live =
          Mild-anchor (drain_token s.drains) _ ended (finished ended) m
            (m.drains ∙ ap drain_token steps.1)
            (ended_anchor st.step_token (drain_token s.drains) alone apart
              (without_start (drain_token s.drains) s c.drain_live));
      distinct = rw none_left tt;
      start_in_flight = λ h. absurd (false≢true (sym (finished-not_starting ended) ∙ h));
    })

adopt_starts : (l : ℕ) (s : Server) → (adopt_listener l s).starts ≡ s.starts
unfolding adopt_listener
adopt_starts l s = refl

go_starts : (to : State) (s : Server) → (go to s).starts ≡ s.starts
unfolding go transition enter
go_starts to s = ground arith

pub bind_resumed-IsConsistent :
    (l : ℕ) (st : Start) (s : Server)
    → s.starts ≡ some st
    → IsConsistent s
    → IsConsistent (bind_resumed l st s)
unfolding bind_resumed
bind_resumed-IsConsistent l st s e c =
    let cleared : Server = record s { bound = none } in
    let listening : Server = adopt_listener l cleared in
    let kept : IsConsistent listening =
      adopted-IsConsistent l st cleared e (cleared-IsConsistent s c) in
    let same : listening.starts ≡ some st = adopt_starts l cleared ∙ e in
    if_rule IsConsistent (is_starting s.state) _ _
      (λ _.
        finish_start-IsConsistent st (go running listening) (go_starts running listening ∙ same) (
          anchored-Mild listening _ (start-IsAnchored st listening same kept)
            (go-Mild listening running refl) kept))
      λ _. unwind-IsConsistent st st listening same refl kept
