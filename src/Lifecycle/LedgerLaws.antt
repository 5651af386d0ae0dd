-- ===== src/Lifecycle/LedgerLaws.antt =====
-- Laws of the ledger's operations: who is there after each, and when it counts as empty.
use pipecat_local_stt_server.Prelude.{
  true, false, ◌&&◌, List, [], ◌∷◌, ◌++◌, ◌≡◌, refl, arith, is_empty, if_rule,
}
use pipecat_local_stt_server.Lifecycle.Ledger.{
  Key, token, listening, task, same_key, Kind, Work, Ledger, has, drop, change, add_default,
  mark_kind, same_kind, same_label, LiveReason, tally, tally_all, live_reasons,
}

has-append : (k : Key) (ws vs : Ledger) → has k ws ≡ true → has k (ws ++ vs) ≡ true
unfolding has
has-append k [] vs h = cc
has-append k (w ∷ ws) vs h = ground (arith, has-append k ws vs)

pub has-add_default :
    (k : Key) (w : Work) (ws : Ledger) → has k ws ≡ true → has k (add_default w ws) ≡ true
unfolding add_default
has-add_default k w ws h =
    if_rule (λ r. has k r ≡ true) (has w.key ws) _ _ (λ _. h) λ _. has-append k ws _ h

same_key_self : (k : Key) → same_key k k ≡ true
unfolding same_key
same_key_self (token n) = ground arith
same_key_self (listening n) = ground arith
same_key_self (task n) = ground arith

has-snoc_self : (w : Work) (ws : Ledger) → has w.key (ws ++ w ∷ []) ≡ true
unfolding has
has-snoc_self w [] = ground (arith, same_key_self w.key)
has-snoc_self w (v ∷ ws) = ground (arith, has-snoc_self w ws)

-- An added entry is there.
pub has-add_default_self : (w : Work) (ws : Ledger) → has w.key (add_default w ws) ≡ true
unfolding add_default
has-add_default_self w ws =
    if_rule (λ r. has w.key r ≡ true) (has w.key ws) _ _ (λ h. h) λ _. has-snoc_self w ws

-- A change that keeps keys, keeps who is there.
pub has-change :
    (k j : Key) (f : Work → Work) (ws : Ledger)
    → ((w : Work) → (f w).key ≡ w.key)
    → has k (change j f ws) ≡ has k ws
unfolding has change
has-change k j f [] keeps = refl
has-change k j f (w ∷ ws) keeps = ground (arith, keeps w, has-change k j f ws keeps)

pub has-mark_kind : (k : Key) (c : Kind) (ws : Ledger) → has k (mark_kind c ws) ≡ has k ws
unfolding has mark_kind
has-mark_kind k c [] = refl
has-mark_kind k c (w ∷ ws) = ground (arith, has-mark_kind k c ws)

same_key_other : (a j k : Key) → same_key a j ≡ true → same_key k j ≡ false → same_key a k ≡ false
unfolding same_key
same_key_other (token a) (token j) (token k) e n = ground arith
same_key_other (listening a) (listening j) (listening k) e n = ground arith
same_key_other (task a) (task j) (task k) e n = ground arith
same_key_other a j k e n = ground arith

-- Only the dropped key goes.
pub has-drop :
    (k j : Key) (ws : Ledger) → same_key k j ≡ false → has k ws ≡ true → has k (drop j ws) ≡ true
unfolding has drop
has-drop k j [] ne h = h
has-drop k j (w ∷ ws) ne h = ground (arith, has-drop k j ws ne, same_key_other w.key j k)

tally-filled : (w : Work) (rs : List LiveReason) → is_empty (tally w rs) ≡ false
unfolding tally
tally-filled w [] = refl
tally-filled w (r ∷ rs) =
    if_rule (λ (l : List LiveReason). is_empty l ≡ false)
      (same_kind r.kind w.kind && same_label r.label w.label) _ _ (λ _. refl) λ _. refl

tally_all-filled :
    (rs : List LiveReason) (ws : Ledger) → is_empty rs ≡ false → is_empty (tally_all rs ws) ≡ false
unfolding tally_all
tally_all-filled rs [] h = h
tally_all-filled rs (w ∷ ws) h = tally_all-filled (tally w rs) ws (tally-filled w rs)

-- There are reasons exactly when there is an entry.
pub is_empty-live_reasons : (ws : Ledger) → is_empty (live_reasons ws) ≡ is_empty ws
unfolding live_reasons tally_all
is_empty-live_reasons [] = refl
is_empty-live_reasons (w ∷ ws) = tally_all-filled (tally w []) ws (tally-filled w [])

pub has-filled : (k : Key) (ws : Ledger) → has k ws ≡ true → is_empty ws ≡ false
unfolding has
has-filled k [] h = cc
has-filled k (w ∷ ws) h = refl
