-- ===== src/SocketLock/Acquire.antt =====
-- The lock is taken in a bounded number of attempts, or not at all.
use pipecat_local_stt_server.Prelude.{
  ℕ, zero, suc, ◌+◌, ◌*◌, ◌≤◌, ◌<◌, Bool, true, false, not, ◌≡◌, ◌⊎◌, inl, inr, refl, ◌∙◌, ap,
  arith, ◌==◌, leb, ==→eq, if_rule, false≢true, Bool-cases,
}
use pipecat_local_stt_server.SocketLock.{
  Stat, Opening, opens, permission_denied, open_fails, Flock, granted, contended, broken, World,
  lock_retry_ms, lock_retry_interval_ms, Failure, addr_in_use, not_ours, chmod_error, not_opened,
  open_error, Attempt, taken, failed, out_of_fuel, is_ours, permissions, private_mode, on_flock,
  try_flock, Outcome, held, raised, close_on_failure, lock_opened, lock_after, acquire_socket_lock,
  socket_lock_held,
}

-- The clock: it does not go back, and each wait lasts its interval at least.
pub record Ticks (w : World) : Type 0 where
  pub begins : w.start ≤ w.now 0
  pub waits : (k : ℕ) → w.now k + lock_retry_interval_ms ≤ w.now (suc k)

elapsed : (w : World) → Ticks w → (k : ℕ) → w.start + k * 10 ≤ w.now k
unfolding lock_retry_interval_ms
elapsed w t zero = omega (arith, t.begins)
elapsed w t (suc k) = let before = elapsed w t k in omega (arith, before, t.waits k)

abbrev pub is_decided : Attempt → Bool
is_decided out_of_fuel = false
is_decided _ = true

round_ends :
    (w : World) (k : ℕ) (rest : Attempt) (f : Flock)
    → (leb (w.start + lock_retry_ms) (w.now k) ≡ false → is_decided rest ≡ true)
    → is_decided (on_flock w k rest f) ≡ true
round_ends w k rest granted later = refl
round_ends w k rest broken later = refl
round_ends w k rest contended later =
    if_rule (λ a. is_decided a ≡ true) (leb (w.start + lock_retry_ms) (w.now k)) _ _ (λ _. refl)
      later

tries_end :
    (fuel : ℕ) (w : World) (k : ℕ)
    → Ticks w
    → 26 ≤ fuel + k
    → 0 < fuel
    → is_decided (try_flock fuel w k) ≡ true
unfolding try_flock lock_retry_ms
tries_end zero w k t enough some_left = absurd (omega (arith, some_left))
tries_end (suc fuel) w k t enough some_left =
    round_ends w k (try_flock fuel w (suc k)) (w.flock k) λ early.
      tries_end fuel w (suc k) t (omega (arith, enough))
        (let passed = elapsed w t k in ground (arith, enough))

-- an attempt from `k` on is granted, and the ones before it are contended
abbrev pub IsGranted : World → ℕ → Type 0
IsGranted w k =
    (j : ℕ) × (k ≤ j) × (w.flock j ≡ granted) × ((i : ℕ) → k ≤ i → i < j → w.flock i ≡ contended)

abbrev tells : Attempt → Bool
tells taken = true
tells _ = false

IsGranted-later : (w : World) (k : ℕ) → w.flock k ≡ contended → IsGranted w (suc k) → IsGranted w k
IsGranted-later w k e (j, below, gave, busy) = (
  j,
  omega (arith, below),
  gave,
  λ i from to. elim (Bool-cases (i == k)) [
    | inl same ↦ ap w.flock (==→eq i k same) ∙ e
    | inr apart ↦ busy i (ground arith) to
  ],
)

round_taken :
    (w : World) (k : ℕ) (rest : Attempt) (f : Flock)
    → w.flock k ≡ f
    → (rest ≡ taken → IsGranted w (suc k))
    → on_flock w k rest f ≡ taken
    → IsGranted w k
round_taken w k rest granted e later h =
    (k, omega arith, e, λ i from to. absurd (omega (arith, from, to)))
round_taken w k rest broken e later h = absurd (false≢true (ap tells h))
round_taken w k rest contended e later h =
    if_rule (λ a. a ≡ taken → IsGranted w k) (leb (w.start + lock_retry_ms) (w.now k)) _ _
      (λ late h. absurd (false≢true (ap tells h))) (λ early h. IsGranted-later w k e (later h)) h

tries_taken : (fuel : ℕ) (w : World) (k : ℕ) → try_flock fuel w k ≡ taken → IsGranted w k
unfolding try_flock
tries_taken zero w k h = absurd (false≢true (ap tells h))
tries_taken (suc fuel) w k h =
    round_taken w k (try_flock fuel w (suc k)) (w.flock k) refl (tries_taken fuel w (suc k)) h

-- The lock is held: on a regular file of the user's own, that only they can open, after attempts
-- that found it held elsewhere.
pub record IsHeld (w : World) (mode : ℕ) : Type 0 where
  pub stat : Stat
  pub opened : w.opening ≡ opens stat
  pub ours : is_ours w.euid stat ≡ true
  pub private : mode ≡ private_mode
  pub granted_at : IsGranted w 0

abbrev pub IsDone : World → Outcome → Type 0
IsDone w r =
    ((mode : ℕ) × (r ≡ held mode) × IsHeld w mode) ⊎ ((why : Failure) × (r ≡ raised why false))

attempted :
    (w : World) (st : Stat) (mode : ℕ) (a : Attempt)
    → w.opening ≡ opens st
    → is_ours w.euid st ≡ true
    → mode ≡ private_mode
    → is_decided a ≡ true
    → (a ≡ taken → IsGranted w 0)
    → IsDone w (close_on_failure mode a)
attempted w st mode taken e ours private decided gave = inl (
  mode,
  refl,
  record { stat = st; opened = e; ours = ours; private = private; granted_at = gave refl },
)
attempted w st mode (failed why) e ours private decided gave = inr (why, refl)
attempted w st mode out_of_fuel e ours private decided gave = absurd (false≢true decided)

not-false : (b : Bool) → not b ≡ false → b ≡ true
not-false b h = ground arith

-- With a clock that moves on, 26 attempts decide: the lock is held, on the user's own regular file
-- with mode 0600, granted at the first attempt that did not find it held elsewhere; or an error is
-- raised with the file's descriptor closed.
pub acquire_decides : (w : World) → Ticks w → IsDone w (acquire_socket_lock 26 w)
unfolding acquire_socket_lock lock_opened
acquire_decides w t = by_opening w.opening refl
  where
    by_opening : (o : Opening) → w.opening ≡ o → IsDone w (lock_after 26 w o)
    by_opening permission_denied e = inr (not_opened, refl)
    by_opening open_fails e = inr (open_error, refl)
    by_opening (opens st) e =
        if_rule (IsDone w) (not (is_ours w.euid st)) _ _ (λ _. inr (not_ours, refl))
          λ ours.
            if_rule (IsDone w) (not (permissions st == private_mode)) _ _
              (λ _.
                if_rule (IsDone w) w.fchmod_fails _ _ (λ _. inr (chmod_error, refl))
                  λ _.
                    attempted w st private_mode (try_flock 26 w 0) e (not-false _ ours) refl
                      (tries_end 26 w 0 t (omega arith) (omega arith)) (tries_taken 26 w 0))
              λ private.
                attempted w st (permissions st) (try_flock 26 w 0) e (not-false _ ours)
                  (==→eq _ _ (not-false _ private)) (tries_end 26 w 0 t (omega arith) (omega arith))
                  (tries_taken 26 w 0)

busy_rounds :
    (fuel : ℕ) (w : World) (k : ℕ)
    → ((i : ℕ) → w.flock i ≡ contended)
    → is_decided (try_flock fuel w k) ≡ true
    → try_flock fuel w k ≡ failed addr_in_use
unfolding try_flock
busy_rounds zero w k busy decided = absurd (false≢true decided)
busy_rounds (suc fuel) w k busy decided = rw (busy k) (
    if_rule (λ a. is_decided a ≡ true → a ≡ failed addr_in_use)
      (leb (w.start + lock_retry_ms) (w.now k)) _ _ (λ _ _. refl)
      (λ early later. busy_rounds fuel w (suc k) busy later) (rw (busy k) at decided))

-- While another process holds the lock of a regular file of the user's own that has mode 0600, the
-- probe says so, and a server that starts is told that the address is in use.
pub busy_lock :
    (w : World) (st : Stat)
    → Ticks w
    → w.opening ≡ opens st
    → is_ours w.euid st ≡ true
    → permissions st ≡ private_mode
    → ((i : ℕ) → w.flock i ≡ contended)
    → (socket_lock_held w ≡ true) × (acquire_socket_lock 26 w ≡ raised addr_in_use false)
unfolding acquire_socket_lock lock_opened socket_lock_held
busy_lock w st t e ours private busy =
    let ends = busy_rounds 26 w 0 busy (tries_end 26 w 0 t (omega arith) (omega arith)) in
    (rw (e, ours, busy 0) refl, rw (e, ours, private, ends) refl)
