-- ===== src/Lifecycle/Consistency.antt =====
-- New work, changed work and adopted futures keep the invariant.
use pipecat_local_stt_server.Prelude.{
  ℕ, String, Bool, true, false, not, Option, none, some, [], ◌∷◌, ◌≡◌, refl, ◌∙◌, sym, ap, arith,
  if_rule, false≢true, is_empty,
}
use pipecat_local_stt_server.Prelude.Text.{is_blank}
use pipecat_local_stt_server.Lifecycle.Ledger.{
  Key, task, Kind, adopted, Work, Ledger, has, change, find, mark_kind,
}
use pipecat_local_stt_server.Lifecycle.Server.{
  State, is_unlocked, is_adoptable, Server, spawn, track, entry, or_same, live_entry, mark_stuck,
}
use pipecat_local_stt_server.Lifecycle.Events.{adopt_future, adopt}
use pipecat_local_stt_server.Lifecycle.LedgerLaws.{has-add_default_self, has-change, has-filled}
use pipecat_local_stt_server.Lifecycle.Anchored.{is_live-work}
use pipecat_local_stt_server.Lifecycle.Mild.{spawn-Mild, change-Mild, track-Mild}
use pipecat_local_stt_server.Lifecycle.Invariant.{
  IsSettled, IsConsistent, SameCore-IsConsistent, Mild-IsConsistent,
}

-- another ledger, empty where the old one is
pub with_ledger-IsSettled :
    (ws : Ledger) (s : Server)
    → is_empty ws ≡ is_empty s.work
    → (s.work ≡ [] → ws ≡ [])
    → IsSettled s
    → IsSettled (record s { work = ws })
with_ledger-IsSettled ws s same empties h = record {
  no_work = λ free. empties (h.no_work free);
  no_lock = h.no_lock;
  woken = h.woken;
  stopping_live = λ st.
      is_live-work (record s { work = ws })
      ∙ ap not same
      ∙ sym (is_live-work s)
      ∙ h.stopping_live st;
}

is_empty-change : (j : Key) (f : Work → Work) (ws : Ledger) → is_empty (change j f ws) ≡ is_empty ws
unfolding change
is_empty-change j f [] = refl
is_empty-change j f (w ∷ ws) = refl

pub is_empty-mark_kind : (k : Kind) (ws : Ledger) → is_empty (mark_kind k ws) ≡ is_empty ws
unfolding mark_kind
is_empty-mark_kind k [] = refl
is_empty-mark_kind k (w ∷ ws) = refl

pub changed-IsConsistent :
    (j : Key) (f : Work → Work) (s : Server)
    → ((w : Work) → (f w).key ≡ w.key)
    → IsConsistent s
    → IsConsistent (record s { work = change j f s.work })
unfolding change
changed-IsConsistent j f s keeps c =
    Mild-IsConsistent s _ (change-Mild s j f keeps)
      (with_ledger-IsSettled _ s (is_empty-change j f s.work) (λ e. rw e refl) c.settled) c

-- the states that hold the lock
pub holding : (s : Server) → IsConsistent s → is_unlocked s.state ≡ false → s.unlocked ≡ false
holding s c held = c.settled.woken ∙ held

-- new work where the lock is held
pub filled-IsSettled :
    (k : Key) (s : Server)
    → has k s.work ≡ true
    → is_unlocked s.state ≡ false
    → s.unlocked ≡ false
    → IsSettled s
filled-IsSettled k s there held waiting = record {
  no_work = λ free. absurd (false≢true (sym held ∙ free));
  no_lock = λ free. absurd (false≢true (sym held ∙ free));
  woken = waiting ∙ sym held;
  stopping_live = λ _. is_live-work s ∙ ap not (has-filled k s.work there);
}

pub track-has :
    (f : ℕ) (c : Kind) (b : Bool) (l : Option String) (s : Server)
    → has (task f) (track f c b l s).work ≡ true
unfolding track mark_stuck
track-has f c b l s =
    has-change (task f) (task f) (mark_stuck b) _ (λ w. refl)
    ∙ has-add_default_self (entry (task f) c false l) s.work

pub spawn-IsConsistent :
    (k : Kind) (b : Bool) (s : Server)
    → is_unlocked s.state ≡ false
    → IsConsistent s
    → IsConsistent (spawn k b s)
unfolding spawn track
spawn-IsConsistent k b s held c =
    Mild-IsConsistent s _ (spawn-Mild s k b)
      (filled-IsSettled (task s.fresh) (spawn k b s) (track-has s.fresh k b none s) held
        (holding s c held))
      c

pub adoptable-held : (st : State) → is_adoptable st ≡ true → is_unlocked st ≡ false
unfolding is_adoptable is_unlocked
adoptable-held st h = ground arith

adopt_future-IsConsistent :
    (o : Option ℕ) (abandoned : Bool) (label : String) (s : Server)
    → is_unlocked s.state ≡ false
    → IsConsistent s
    → IsConsistent (adopt_future o abandoned label s)
unfolding adopt_future track
adopt_future-IsConsistent none abandoned label s held c =
    SameCore-IsConsistent
      (record {
        state = refl;
        locked = refl;
        work = refl;
        unlocked = refl;
        fresh = omega arith;
        starts = refl;
        drains = refl;
      })
      (Mild-IsConsistent s _ (track-Mild s s.fresh adopted abandoned (some label))
        (filled-IsSettled (task s.fresh) (track s.fresh adopted abandoned (some label) s)
          (track-has s.fresh adopted abandoned (some label) s) held (holding s c held))
        c)
adopt_future-IsConsistent (some f) abandoned label s held c =
    if_rule IsConsistent (live_entry (find (task f) s.work)) _ _
      (λ _.
        Mild-IsConsistent s _ (track-Mild s f adopted abandoned (some label))
          (filled-IsSettled (task f) (track f adopted abandoned (some label) s)
            (track-has f adopted abandoned (some label) s) held (holding s c held))
          c)
      λ _. c

pub adopts-IsConsistent :
    (o : Option ℕ) (abandoned : Bool) (label : String) (s : Server)
    → IsConsistent s
    → IsConsistent (or_same (adopt o abandoned label s) s)
unfolding adopt
adopts-IsConsistent o abandoned label s c =
    if_rule (λ r. IsConsistent (or_same r s)) (is_blank label) _ _ (λ _. c)
      λ _.
        if_rule (λ r. IsConsistent (or_same r s)) (not (is_adoptable s.state)) _ _ (λ _. c)
          λ can.
            adopt_future-IsConsistent o abandoned label s (adoptable-held s.state (ground arith)) c
