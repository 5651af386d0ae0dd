-- ===== src/Lifecycle/Spec.antt =====
-- What the server's lifecycle promises, without its ledger: five states and the single-server lock.
use pipecat_local_stt_server.Prelude.{
  Bool, true, false, ◌≡◌, inl, inr, sym, ◌∙◌, false≢true, Bool-cases, arith,
}
use pipecat_local_stt_server.Lifecycle.Server.{
  State, new, starting, stopping, stopped, allowed, is_unlocked,
}

pub record View : Type 0 where
  pub state : State
  pub locked : Bool

-- One move: to a state that keeps the lock as it is, to one that gives it back, or the lock is
-- taken by a start.
pub data Move : View → View → Type 0 where
  keeps :
      {a b : State} {l : Bool}
      → allowed a b ≡ true
      → is_unlocked b ≡ false
      → Move (record { state = a; locked = l }) (record { state = b; locked = l })
  releases :
      {a b : State} {l : Bool}
      → allowed a b ≡ true
      → is_unlocked b ≡ true
      → Move (record { state = a; locked = l }) (record { state = b; locked = false })
  acquires :
      {l : Bool}
      → Move (record { state = starting; locked = l }) (record { state = starting; locked = true })

pub data Moves : View → View → Type 0 where
  rests : {v : View} → Moves v v
  moves : {v w : View} → Move v w → Moves v w
  chains : {u v w : View} → Moves u v → Moves v w → Moves u w

-- Whether a server was started, and whether it is past its one use.
abbrev pub is_started : State → Bool
is_started new = false
is_started starting = false
is_started _ = true

abbrev pub is_over : State → Bool
is_over stopping = true
is_over stopped = true
is_over _ = false

-- What a started server keeps: it does not start again, a stop is never undone, `stopped` is
-- final, and before that it does not let go of the lock.
pub record KeepsStarted (v w : View) : Type 0 where
  pub started : is_started w.state ≡ true
  pub over : is_over v.state ≡ true → is_over w.state ≡ true
  pub final : is_unlocked v.state ≡ true → is_unlocked w.state ≡ true
  pub lock : v.locked ≡ true → is_unlocked w.state ≡ false → w.locked ≡ true

KeepsStarted-Move : (v w : View) → Move v w → is_started v.state ≡ true → KeepsStarted v w
unfolding allowed is_unlocked
KeepsStarted-Move v w (keeps {a} {b} can held) h = record {
  started = ground arith;
  over = ground arith;
  final = ground arith;
  lock = λ l _. l;
}
KeepsStarted-Move v w (releases {a} {b} can free) h = record {
  started = ground arith;
  over = ground arith;
  final = ground arith;
  lock = λ _ held. absurd (false≢true (sym held ∙ free));
}
KeepsStarted-Move v w acquires h = absurd (false≢true h)

pub Moves-KeepsStarted : (v w : View) → Moves v w → is_started v.state ≡ true → KeepsStarted v w
Moves-KeepsStarted v w rests h = record {
  started = h;
  over = λ o. o;
  final = λ f. f;
  lock = λ l _. l;
}
Moves-KeepsStarted v w (moves m) h = KeepsStarted-Move v w m h
Moves-KeepsStarted u w (chains {v} m n) h =
    let first = Moves-KeepsStarted u v m h in
    let last = Moves-KeepsStarted v w n first.started in
    record {
      started = last.started;
      over = λ o. last.over (first.over o);
      final = λ f. last.final (first.final f);
      lock = λ l held. last.lock (first.lock l (back v.state w.state held last.final)) held;
    }
  where
    back :
        (a b : State)
        → is_unlocked b ≡ false
        → (is_unlocked a ≡ true → is_unlocked b ≡ true)
        → is_unlocked a ≡ false
    back a b held final = elim (Bool-cases (is_unlocked a)) [
      | inl free ↦ absurd (false≢true (sym held ∙ final free))
      | inr kept ↦ kept
    ]
