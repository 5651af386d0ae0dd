-- ===== src/Lifecycle/BindSteps.antt =====
-- The events of a start that loads its backend or binds its listener keep the invariant.
use pipecat_local_stt_server.Prelude.{
  ℕ, suc, Bool, Option, none, some, ◌≡◌, refl, arith, if_rule, if◌then◌else◌,
}
use pipecat_local_stt_server.Lifecycle.Ledger.{task}
use pipecat_local_stt_server.Lifecycle.Server.{
  StartPhase, loading, unwinding, binding, rebinding, Start, Server,
}
use pipecat_local_stt_server.Lifecycle.Start.{
  at_start, unwind, backend_up, bind_lost, bind_abandoned,
}
use pipecat_local_stt_server.Lifecycle.Events.{
  finish_task, set_finished, bind_done_of, pending_bind, resume_or_lose, bind_resume_of,
  bind_cancel_of, backend_returns_of,
}
use pipecat_local_stt_server.Lifecycle.Mild.{change-Mild}
use pipecat_local_stt_server.Lifecycle.Invariant.{
  IsConsistent, SameCore-IsConsistent, anchored-Mild,
}
use pipecat_local_stt_server.Lifecycle.Steps.{at_start-IsConsistent, start-IsAnchored}
use pipecat_local_stt_server.Lifecycle.StartSteps.{
  unwind-IsConsistent, backend_up-IsConsistent, bind_lost-IsConsistent, bind_abandoned-IsConsistent,
  bind_resumed-IsConsistent,
}

pub backend_returns_of-IsConsistent :
    (o : Option Start) (success : Bool) (s : Server)
    → s.starts ≡ o
    → IsConsistent s
    → IsConsistent (backend_returns_of o success s)
unfolding backend_returns_of
backend_returns_of-IsConsistent none success s e c = c
backend_returns_of-IsConsistent (some st) success s e c = phase_case st.phase
  where
    phase_case :
        (p : StartPhase)
        → IsConsistent
            (elim p [ loading ↦ if success then backend_up st s else unwind st s | _ ↦ s ])
    phase_case loading =
        if_rule IsConsistent success _ _ (λ _. backend_up-IsConsistent st s e c)
          λ _. unwind-IsConsistent st st s e refl c
    phase_case unwinding = c
    phase_case (binding b) = c
    phase_case (rebinding b) = c

-- a change of entries under the anchor of a start in flight
finish_under_start :
    (b : ℕ) (st : Start) (s : Server)
    → s.starts ≡ some st
    → IsConsistent s
    → IsConsistent (finish_task b s)
unfolding finish_task set_finished
finish_under_start b st s e c =
    anchored-Mild s _ (start-IsAnchored st s e c) (change-Mild s (task b) set_finished (λ w. refl))
      c

bound_at : Bool → ℕ → Server → Server
bound_at success b s =
    if success
    then record (finish_task b s) { bound = some s.fresh; fresh = suc s.fresh }
    else finish_task b s

bound_at-IsConsistent :
    (success : Bool) (b : ℕ) (st : Start) (s : Server)
    → s.starts ≡ some st
    → IsConsistent s
    → IsConsistent (bound_at success b s)
unfolding bound_at finish_task
bound_at-IsConsistent success b st s e c =
    if_rule IsConsistent success _ _
      (λ _.
        SameCore-IsConsistent
          (record {
            state = refl;
            locked = refl;
            work = refl;
            unlocked = refl;
            fresh = omega arith;
            starts = refl;
            drains = refl;
          })
          (finish_under_start b st s e c))
      λ _. finish_under_start b st s e c

pub bind_done_of-IsConsistent :
    (o : Option Start) (success : Bool) (s : Server)
    → s.starts ≡ o
    → IsConsistent s
    → IsConsistent (bind_done_of o success s)
unfolding bind_done_of bound_at
bind_done_of-IsConsistent none success s e c = c
bind_done_of-IsConsistent (some st) success s e c = phase_case st.phase
  where
    phase_case :
        (p : StartPhase)
        → IsConsistent (elim p [
          | binding b ↦ bound_at success b s
          | rebinding b ↦ bound_at success b s
          | _ ↦ s
        ])
    phase_case (binding b) = bound_at-IsConsistent success b st s e c
    phase_case (rebinding b) = bound_at-IsConsistent success b st s e c
    phase_case loading = c
    phase_case unwinding = c

resume_or_lose-IsConsistent :
    (o : Option ℕ) (st : Start) (s : Server)
    → s.starts ≡ some st
    → IsConsistent s
    → IsConsistent (resume_or_lose o st s)
resume_or_lose-IsConsistent none st s e c = bind_lost-IsConsistent st s e c
resume_or_lose-IsConsistent (some l) st s e c = bind_resumed-IsConsistent l st s e c

pub bind_resume_of-IsConsistent :
    (o : Option Start) (s : Server)
    → s.starts ≡ o
    → IsConsistent s
    → IsConsistent (bind_resume_of o s)
unfolding bind_resume_of
bind_resume_of-IsConsistent none s e c = c
bind_resume_of-IsConsistent (some st) s e c = phase_case st.phase
  where
    phase_case :
        (p : StartPhase)
        → IsConsistent (elim p [
          | binding b ↦ if pending_bind b s then s else resume_or_lose s.bound st s
          | rebinding b ↦ if pending_bind b s then s else bind_lost st s
          | _ ↦ s
        ])
    phase_case (binding b) =
        if_rule IsConsistent (pending_bind b s) _ _ (λ _. c)
          λ _. resume_or_lose-IsConsistent s.bound st s e c
    phase_case (rebinding b) =
        if_rule IsConsistent (pending_bind b s) _ _ (λ _. c) λ _. bind_lost-IsConsistent st s e c
    phase_case loading = c
    phase_case unwinding = c

pub bind_cancel_of-IsConsistent :
    (o : Option Start) (s : Server)
    → s.starts ≡ o
    → IsConsistent s
    → IsConsistent (bind_cancel_of o s)
unfolding bind_cancel_of at_start
bind_cancel_of-IsConsistent none s e c = c
bind_cancel_of-IsConsistent (some st) s e c = phase_case st.phase
  where
    phase_case :
        (p : StartPhase)
        → IsConsistent (elim p [
          | binding b ↦ if pending_bind b s then at_start st (rebinding b) s else bind_lost st s
          | rebinding b ↦ if pending_bind b s then bind_abandoned b st s else bind_lost st s
          | _ ↦ s
        ])
    phase_case (binding b) =
        if_rule IsConsistent (pending_bind b s) _ _
          (λ _. at_start-IsConsistent st (record st { phase = rebinding b }) s e refl c)
          λ _. bind_lost-IsConsistent st s e c
    phase_case (rebinding b) =
        if_rule IsConsistent (pending_bind b s) _ _ (λ _. bind_abandoned-IsConsistent b st s e c)
          λ _. bind_lost-IsConsistent st s e c
    phase_case loading = c
    phase_case unwinding = c
