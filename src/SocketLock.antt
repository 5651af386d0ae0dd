-- ===== src/SocketLock.antt =====
-- The single-server lock file: `acquire_socket_lock` and `socket_lock_held` of stt_server/server.py.
pub mod Acquire
use pipecat_local_stt_server.Prelude.{
  ℕ, zero, suc, ◌+◌, Bool, true, false, not, ◌&&◌, ◌==◌, ◌/◌, ◌%◌, leb, if◌then◌else◌,
}

pub record Stat : Type 0 where
  pub mode : ℕ
  pub owner : ℕ

-- `os.open`: the opened file's `fstat`, a `PermissionError`, or another `OSError`
pub data Opening : Type 0 where
  opens : Stat → Opening
  permission_denied : Opening
  open_fails : Opening

-- `flock` without waiting: granted, an errno that means that it is held elsewhere, or another one
pub data Flock : Type 0 where
  granted contended broken : Flock

-- What the system answers. `flock` and `now` (milliseconds) are read at the number of attempts so
-- far; `start` is the clock before the first one.
pub record World : Type 0 where
  pub euid : ℕ
  pub opening : Opening
  pub fchmod_fails : Bool
  pub start : ℕ
  pub flock : ℕ → Flock
  pub now : ℕ → ℕ

unfoldable pub lock_retry_ms : ℕ
lock_retry_ms = 250

unfoldable pub lock_retry_interval_ms : ℕ
lock_retry_interval_ms = 10

pub data Failure : Type 0 where
  not_opened open_error not_ours chmod_error addr_in_use flock_error : Failure

-- what the attempts come to
pub data Attempt : Type 0 where
  taken : Attempt
  failed : Failure → Attempt
  out_of_fuel : Attempt

-- `S_ISREG` and the owner; `S_IMODE`
unfoldable pub is_ours : ℕ → Stat → Bool
is_ours euid st = st.mode / 4096 % 16 == 8 && st.owner == euid

unfoldable pub permissions : Stat → ℕ
permissions st = st.mode % 4096

-- 0o600
abbrev pub private_mode : ℕ
private_mode = 384

-- one round of the retry loop, `rest` being the next ones
abbrev pub on_flock : World → ℕ → Attempt → Flock → Attempt
on_flock w k rest granted = taken
on_flock w k rest broken = failed flock_error
on_flock w k rest contended =
    if leb (w.start + lock_retry_ms) (w.now k) then failed addr_in_use else rest

-- the retry loop, from attempt `k`
unfoldable pub try_flock : ℕ → World → ℕ → Attempt
unfolding lock_retry_ms
try_flock zero w k = out_of_fuel
try_flock (suc fuel) w k = let rest = try_flock fuel w (suc k) in on_flock w k rest (w.flock k)

-- the result of the call: the file's permissions and whether its descriptor is open
pub data Outcome : Type 0 where
  held : ℕ → Outcome
  raised : Failure → Bool → Outcome
  undecided : Outcome

-- `except BaseException: os.close(fd); raise`
abbrev pub close_on_failure : ℕ → Attempt → Outcome
close_on_failure mode taken = held mode
close_on_failure mode (failed why) = raised why false
close_on_failure mode out_of_fuel = undecided

unfoldable pub lock_opened : ℕ → World → Stat → Outcome
unfolding is_ours permissions try_flock
lock_opened fuel w st =
    if not (is_ours w.euid st)
    then close_on_failure (permissions st) (failed not_ours)
    else if not (permissions st == private_mode)
    then if w.fchmod_fails
      then close_on_failure (permissions st) (failed chmod_error)
      else close_on_failure private_mode (try_flock fuel w 0)
    else close_on_failure (permissions st) (try_flock fuel w 0)

abbrev pub lock_after : ℕ → World → Opening → Outcome
lock_after fuel w (opens st) = lock_opened fuel w st
lock_after fuel w permission_denied = raised not_opened false
lock_after fuel w open_fails = raised open_error false

unfoldable pub acquire_socket_lock : ℕ → World → Outcome
unfolding lock_opened
acquire_socket_lock fuel w = lock_after fuel w w.opening

-- The probe: one shared attempt, given up at once. The descriptor is closed on every path.
abbrev pub conflicts : Flock → Bool
conflicts contended = true
conflicts _ = false

abbrev pub probe_opened : World → Opening → Bool
probe_opened w (opens st) = if not (is_ours w.euid st) then false else conflicts (w.flock 0)
probe_opened w _ = false

unfoldable pub socket_lock_held : World → Bool
unfolding is_ours
socket_lock_held w = probe_opened w w.opening
