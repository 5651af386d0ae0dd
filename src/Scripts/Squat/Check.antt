-- ===== src/Scripts/Squat/Check.antt =====
-- `check` of scripts/squat_check.py, with what lsof and launchctl answer to its calls.
use Prim.Native.String.{◌++◌ as str_append}
use pipecat_local_stt_server.Prelude.{
  ℕ, ◌+◌, ◌*◌, String, Bool, true, false, not, ◌&&◌, Option, none, some, List, [], ◌∷◌, str_eq, any,
  if◌then◌else◌,
}
use pipecat_local_stt_server.Scripts.Squat.{
  Ran, could_not_run, exited, lsof_output, parse, JobPrint, runs_readable, parse_print,
}

-- What the listeners are to the job: one of them is another process, or the job does not run.
pub data Kind : Type 0 where
  other_holder : Kind
  not_running : Kind

-- `_finding`
unfoldable pub finding : List String → String → Option Kind
finding [] pid = none
finding (p ∷ listeners) pid =
    if str_eq pid ""
    then some not_running
    else if any (λ p. not (str_eq p pid)) (p ∷ listeners)
    then some other_holder
    else none

-- Nothing to say, a squatter with the processes that hold the port, or no answer.
pub data Verdict : Type 0 where
  quiet : Verdict
  warned : Kind → List String → Verdict
  cannot_tell : Verdict

unfoldable pub exit_code : Verdict → ℕ
exit_code quiet = 0
exit_code (warned kind held) = 3
exit_code cannot_tell = 2

-- the answers to the calls, in the order of the calls
pub record Answers : Type 0 where
  pub first : Ran
  pub before : Ran
  pub second : Ran
  pub after : Ran

-- `read_job_print`
unfoldable pub read_job_print : (String → String) → Ran → Option JobPrint
unfolding parse_print
read_job_print lower could_not_run = none
read_job_print lower (exited status stdout stderr) =
    parse_print lower status (str_append stdout (str_append "\n" stderr))

abbrev pub or_empty : Option String → String
or_empty none = ""
or_empty (some pid) = pid

abbrev pub same_text : Option String → Option String → Bool
same_text none none = true
same_text (some x) (some y) = str_eq x y
same_text _ _ = false

-- How the job was read again: it was not asked for, it could not be read, or it was, with its counter.
pub data Reread : Type 0 where
  unlabelled : Reread
  stale : Reread
  read_with : Option String → Reread

-- the listeners that are not the job
unfoldable pub others : String → List String → List String
others pid [] = []
others pid (p ∷ listeners) =
    let rest = others pid listeners in if str_eq p pid then rest else p ∷ rest

abbrev pub held_by : Kind → List String → String → List String
held_by other_holder listeners pid = others pid listeners
held_by not_running listeners pid = listeners

-- the read of the job after the second look
abbrev pub bracket : String → Option String → Verdict → Option JobPrint → Verdict
bracket pid runs verdict none = cannot_tell
bracket pid runs verdict (some job) =
    if not job.loaded
    then quiet
    else if str_eq (or_empty job.pid) pid && runs_readable runs && same_text job.runs runs
    then verdict
    else cannot_tell

abbrev pub conclude : Option Kind → List String → String → Reread → Option JobPrint → Verdict
conclude none listeners pid reread after = quiet
conclude (some kind) listeners pid unlabelled after = warned kind (held_by kind listeners pid)
conclude (some kind) listeners pid stale after = cannot_tell
conclude (some kind) listeners pid (read_with runs) after =
    bracket pid runs (warned kind (held_by kind listeners pid)) after

-- the second look at the port
abbrev pub look_again : Option (List String) → String → Reread → Option JobPrint → Verdict
look_again none pid reread after = cannot_tell
look_again (some listeners) pid reread after =
    conclude (finding listeners pid) listeners pid reread after

abbrev pub reread_job : Option JobPrint → Option (List String) → String → Option JobPrint → Verdict
reread_job none second pid after = look_again second pid stale after
reread_job (some job) second pid after =
    if not job.loaded
    then quiet
    else look_again second (or_empty job.pid) (read_with job.runs) after

abbrev pub confirm :
    Bool → Option JobPrint → Option (List String) → String → Option JobPrint → Verdict
confirm labelled before second pid after =
    if labelled then reread_job before second pid after else look_again second pid unlabelled after

abbrev pub first_look :
    Bool
    → Option (List String)
    → Option JobPrint
    → Option (List String)
    → String
    → Option JobPrint
    → Verdict
first_look labelled none before second pid after = cannot_tell
first_look labelled (some listeners) before second pid after = elim (finding listeners pid) [
  | none ↦ quiet
  | some kind ↦ confirm labelled before second pid after
]

abbrev pub listeners_of : (String → String) → Option String → Option String → Option (List String)
listeners_of lower host none = none
listeners_of lower host (some out) = some (parse lower out host)

-- `labelled` tells whether there is a label to read the job with
unfoldable pub check :
    (String → String) → Option String → Option String → Bool → Bool → Answers → Verdict
unfolding finding others lsof_output parse read_job_print runs_readable
check lower host pid loaded labelled answers =
    if not loaded
    then quiet
    else first_look labelled (listeners_of lower host (lsof_output answers.first))
        (read_job_print lower answers.before) (listeners_of lower host (lsof_output answers.second))
        (or_empty pid) (read_job_print lower answers.after)

abbrev pub check_job :
    (String → String) → Option String → Option JobPrint → Bool → Answers → Verdict
check_job lower host none labelled answers = cannot_tell
check_job lower host (some job) labelled answers =
    check lower host job.pid job.loaded labelled answers

-- `main`, from the status and the output of the caller's `launchctl print`
unfoldable pub main : (String → String) → String → ℕ → String → Bool → Answers → Verdict
unfolding parse_print check
main lower host status text labelled answers =
    check_job lower (some host) (parse_print lower status text) labelled answers

-- `listener_pids`, for what lsof answers
unfoldable pub listener_pids : (String → String) → Option String → Ran → Option (List String)
unfolding lsof_output parse
listener_pids lower host answer = listeners_of lower host (lsof_output answer)

-- in seconds
abbrev pub lsof_timeout : ℕ
lsof_timeout = 10

abbrev pub launchctl_timeout : ℕ
launchctl_timeout = 10

abbrev pub confirm_sleep : ℕ
confirm_sleep = 1

unfoldable pub cli_bound : ℕ → ℕ
cli_bound listeners =
    2 * lsof_timeout + confirm_sleep + 2 * launchctl_timeout + listeners * lsof_timeout
