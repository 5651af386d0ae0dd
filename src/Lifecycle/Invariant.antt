-- ===== src/Lifecycle/Invariant.antt =====
-- What holds of the server between two turns of the event loop.
use pipecat_local_stt_server.Prelude.{
  ℕ, suc, ◌<◌, true, false, not, Option, none, some, List, [], ◌∷◌, ◌≡◌, refl, ◌∙◌, sym, ap, arith,
  ◌≢◌, is_empty, false≢true, is_some, Bool-cases, inl, inr,
}
use pipecat_local_stt_server.Lifecycle.Ledger.{Key, Ledger, drop}
use pipecat_local_stt_server.Lifecycle.Server.{
  allowed, is_unlocked, is_stopping, Server, enter, transition, go, is_live, settle, end_work,
}
use pipecat_local_stt_server.Lifecycle.Start.{is_starting}
use pipecat_local_stt_server.Lifecycle.Anchored.{IsAnchored, is_live-work, anchored-live}
use pipecat_local_stt_server.Lifecycle.Mild.{start_token, drain_token, Mild}

-- The lock is free and nothing runs in `new` and `stopped`; `stopping` has live work.
pub record IsSettled (s : Server) : Type 0 where
  pub no_work : is_unlocked s.state ≡ true → s.work ≡ []
  pub no_lock : is_unlocked s.state ≡ true → s.locked ≡ false
  pub woken : s.unlocked ≡ is_unlocked s.state
  pub stopping_live : is_stopping s.state ≡ true → is_live s ≡ true

-- The token of a step in flight, if there is one, is an anchor.
abbrev pub HasAnchor : Option ℕ → Server → Type 0
HasAnchor none s = Unit
HasAnchor (some k) s = IsAnchored k s

abbrev pub Distinct : Option ℕ → Option ℕ → Type 0
Distinct (some j) (some k) = j ≢ k
Distinct _ _ = Unit

pub record IsConsistent (s : Server) : Type 0 where
  pub settled : IsSettled s
  pub start_live : HasAnchor (start_token s.starts) s
  pub drain_live : HasAnchor (drain_token s.drains) s
  pub distinct : Distinct (start_token s.starts) (drain_token s.drains)
  pub start_in_flight : is_starting s.state ≡ true → is_some (start_token s.starts) ≡ true

pub anchored-IsSettled : {k : ℕ} (s : Server) → IsAnchored k s → IsSettled s
anchored-IsSettled s h = record {
  no_work = λ free. absurd (false≢true (sym h.held ∙ free));
  no_lock = λ free. absurd (false≢true (sym h.held ∙ free));
  woken = h.waiting ∙ sym h.held;
  stopping_live = λ _. anchored-live s h;
}

is_empty-nil : {A : Type 0} (l : List A) → is_empty l ≡ true → l ≡ []
is_empty-nil [] h = refl
is_empty-nil (x ∷ l) h = cc

pub not_live-nil : (s : Server) → is_live s ≡ false → s.work ≡ []
not_live-nil s h = is_empty-nil s.work (ground (arith, is_live-work s))

-- Settling a state that holds the lock yields a settled one.
pub settle-IsSettled :
    (s : Server) → is_unlocked s.state ≡ false → s.unlocked ≡ false → IsSettled (settle s)
unfolding settle go transition enter is_unlocked allowed
settle-IsSettled s held waiting = elim (Bool-cases (is_live s)) [
  | inl live ↦ record {
    no_work = ground arith;
    no_lock = ground arith;
    woken = ground arith;
    stopping_live = ground arith;
  }
  | inr dead ↦
      let none_left = not_live-nil s dead in
      record {
        no_work = ground arith;
        no_lock = ground arith;
        woken = ground arith;
        stopping_live = ground arith;
      }
]

pub end_work-IsSettled :
    (j : Key) (s : Server)
    → is_unlocked s.state ≡ false
    → s.unlocked ≡ false
    → IsSettled (end_work j s)
unfolding end_work
end_work-IsSettled j s held waiting =
    settle-IsSettled (record s { work = drop j s.work }) held waiting

-- A settled state is left alone.
pub settle_settled : (s : Server) → IsSettled s → settle s ≡ s
unfolding settle
settle_settled s h = ground (arith, h.stopping_live)

moved_anchor :
    {s t : Server} (o p : Option ℕ)
    → p ≡ o
    → ((k : ℕ) → IsAnchored k s → IsAnchored k t)
    → HasAnchor o s
    → HasAnchor p t
moved_anchor none p e keeps h = rw e tt
moved_anchor (some k) p e keeps h = rw e (keeps k h)

-- A mild operation whose result is settled keeps all of it.
pub Mild-IsConsistent : (s t : Server) → Mild s t → IsSettled t → IsConsistent s → IsConsistent t
Mild-IsConsistent s t m settled c = record {
  settled = settled;
  start_live = moved_anchor (start_token s.starts) _ m.starts m.anchors c.start_live;
  drain_live = moved_anchor (drain_token s.drains) _ m.drains m.anchors c.drain_live;
  distinct = rw m.starts (rw m.drains c.distinct);
  start_in_flight = λ h. rw m.starts (c.start_in_flight (m.no_start h));
}

-- Under an anchor every mild operation keeps all of it.
pub anchored-Mild :
    {k : ℕ} (s t : Server) → IsAnchored k s → Mild s t → IsConsistent s → IsConsistent t
anchored-Mild {k} s t h m = Mild-IsConsistent s t m (anchored-IsSettled t (m.anchors k h))

-- `t` differs from `s` in bookkeeping only: not in state, lock, ledger or tokens.
pub record SameCore (s t : Server) : Type 0 where
  pub state : t.state ≡ s.state
  pub locked : t.locked ≡ s.locked
  pub work : t.work ≡ s.work
  pub unlocked : t.unlocked ≡ s.unlocked
  pub fresh : s.fresh < suc t.fresh
  pub starts : start_token t.starts ≡ start_token s.starts
  pub drains : drain_token t.drains ≡ drain_token s.drains

pub SameCore-IsAnchored : {k : ℕ} {s t : Server} → SameCore s t → IsAnchored k s → IsAnchored k t
SameCore-IsAnchored {k} e h = record {
  present = rw e.work h.present;
  held = rw e.state h.held;
  waiting = rw e.unlocked h.waiting;
  old = omega (arith, h.old, e.fresh);
}

pub SameCore-Mild : {s t : Server} → SameCore s t → Mild s t
SameCore-Mild e = record {
  starts = e.starts;
  drains = e.drains;
  no_start = λ h. rw e.state at h;
  anchors = λ k. SameCore-IsAnchored e;
}

pub SameCore-IsSettled : {s t : Server} → SameCore s t → IsSettled s → IsSettled t
SameCore-IsSettled {s} {t} e h = record {
  no_work = λ free. e.work ∙ h.no_work (rw e.state at free);
  no_lock = λ free. e.locked ∙ h.no_lock (rw e.state at free);
  woken = e.unlocked ∙ h.woken ∙ ap is_unlocked (sym e.state);
  stopping_live = λ st.
      is_live-work t
      ∙ ap (λ (l : Ledger). not (is_empty l)) e.work
      ∙ sym (is_live-work s)
      ∙ h.stopping_live (rw e.state at st);
}

pub SameCore-IsConsistent : {s t : Server} → SameCore s t → IsConsistent s → IsConsistent t
SameCore-IsConsistent {s} {t} e c =
    Mild-IsConsistent s t (SameCore-Mild e) (SameCore-IsSettled e c.settled) c
