-- ===== src/Scripts/Squat/Warns.antt =====
-- When scripts/squat_check.py warns: exactly when a process that is not the job holds the port in two
-- looks, between which the job did not move.
use pipecat_local_stt_server.Prelude.{
  ℕ, String, Bool, true, false, not, ◌&&◌, ◌||◌, Option, none, some, is_some, List, [], ◌∷◌, ◌≡◌,
  ◌↔◌, refl, sym, ◌∙◌, ap, arith, str_eq, eq_iff, any, if◌then◌else◌, Bool-cases, inl, inr,
  false≢true,
}
use pipecat_local_stt_server.Scripts.Squat.{lsof_output, JobPrint, runs_readable, parse_print}
use pipecat_local_stt_server.Scripts.Squat.Check.{
  Kind, other_holder, finding, quiet, warned, cannot_tell, exit_code, Answers, read_job_print,
  or_empty, same_text, unlabelled, stale, read_with, held_by, bracket, conclude, look_again,
  confirm, first_look, listeners_of, check, check_job, main,
}

-- a process that is not the job's: any, where the job does not run
abbrev pub is_foreign : String → String → Bool
is_foreign pid p = str_eq pid "" || not (str_eq p pid)

-- A look at the port that finds such a process.
abbrev pub Seen : String → Option (List String) → Type 0
Seen pid none = ⊥
Seen pid (some listeners) = any (is_foreign pid) listeners ≡ true

-- Between two reads of the job, around the second look, it ran as one process or not at all.
pub record IsHeld (before after : JobPrint) : Type 0 where
  pub loaded_before : before.loaded ≡ true
  pub loaded_after : after.loaded ≡ true
  pub same_pid : or_empty after.pid ≡ or_empty before.pid
  pub counted : runs_readable before.runs ≡ true
  pub same_runs : after.runs ≡ before.runs

abbrev pub IsStill : JobPrint → Option JobPrint → Type 0
IsStill before none = ⊥
IsStill before (some after) = IsHeld before after

-- without a label, the job is not read again
abbrev pub IsConfirmed :
    Bool → String → Option JobPrint → Option (List String) → Option JobPrint → Type 0
IsConfirmed false pid before second after = Seen pid second
IsConfirmed true pid none second after = ⊥
IsConfirmed true pid (some before) second after =
    Seen (or_empty before.pid) second × IsStill before after

abbrev pub IsSquatted : (String → String) → Option String → JobPrint → Bool → Answers → Type 0
IsSquatted lower host job labelled answers =
    (job.loaded ≡ true)
    × Seen (or_empty job.pid) (listeners_of lower host (lsof_output answers.first))
    × IsConfirmed labelled (or_empty job.pid) (read_job_print lower answers.before)
        (listeners_of lower host (lsof_output answers.second)) (read_job_print lower answers.after)

any-foreign :
    (pid : String) (listeners : List String)
    → str_eq pid "" ≡ false
    → any (is_foreign pid) listeners ≡ any (λ p. not (str_eq p pid)) listeners
any-foreign pid [] running = refl
any-foreign pid (p ∷ listeners) running =
    rw running (ap (λ b. not (str_eq p pid) || b) (any-foreign pid listeners running))

is_some-when : (b : Bool) (k : Kind) → is_some (if b then some k else none) ≡ b
is_some-when true k = refl
is_some-when false k = refl

finding-any :
    (listeners : List String) (pid : String)
    → is_some (finding listeners pid) ≡ any (is_foreign pid) listeners
unfolding finding
finding-any [] pid = refl
finding-any (p ∷ listeners) pid = elim (Bool-cases (str_eq pid "")) [
  | inl stopped ↦ rw stopped refl
  | inr running ↦ rw running (
      is_some-when _ other_holder
      ∙ ap (λ b. not (str_eq p pid) || b) (sym (any-foreign pid listeners running)))
]

same_text-eq : (x y : Option String) → same_text x y ≡ true → x ≡ y
same_text-eq none none h = refl
same_text-eq none (some y) h = absurd (false≢true h)
same_text-eq (some x) none h = absurd (false≢true h)
same_text-eq (some x) (some y) h = ap some ((eq_iff x y).0 h)

same_text_refl : (x : Option String) → same_text x x ≡ true
same_text_refl none = refl
same_text_refl (some x) = (eq_iff x x).1 refl

all_three : (a b c : Bool) → (a && b && c) ≡ true → (a ≡ true) × (b ≡ true) × (c ≡ true)
all_three a b c h = (ground (arith, h), ground (arith, h), ground (arith, h))

bracket-warned :
    (before : JobPrint) (kind : Kind) (held : List String) (after : JobPrint)
    → before.loaded ≡ true
    → (exit_code (bracket (or_empty before.pid) before.runs (warned kind held) (some after)) ≡ 3)
      ↔ IsHeld before after
unfolding exit_code
bracket-warned before kind held after loaded = (forth, back)
  where
    tests :
        exit_code (
            if (str_eq (or_empty after.pid) (or_empty before.pid)
              && runs_readable before.runs
              && same_text after.runs before.runs)
            then warned kind held
            else cannot_tell)
          ≡ 3
        → after.loaded ≡ true
        → IsHeld before after
    tests h still =
        elim (Bool-cases (
          str_eq (or_empty after.pid) (or_empty before.pid)
          && runs_readable before.runs
          && same_text after.runs before.runs)) [
            | inl held_still ↦
                let (pids, counted, runs) = all_three _ _ _ held_still in
                record {
                  loaded_before = loaded;
                  loaded_after = still;
                  same_pid = (eq_iff _ _).0 pids;
                  counted = counted;
                  same_runs = same_text-eq _ _ runs;
                }
            | inr moved ↦ absurd (omega (arith, (rw moved at h)))
          ]

    forth :
        exit_code (bracket (or_empty before.pid) before.runs (warned kind held) (some after)) ≡ 3
        → IsHeld before after
    forth h = elim (Bool-cases after.loaded) [
      | inl still ↦ tests (rw still at h) still
      | inr gone ↦ absurd (omega (arith, (rw gone at h)))
    ]

    back :
        IsHeld before after
        → exit_code (bracket (or_empty before.pid) before.runs (warned kind held) (some after)) ≡ 3
    back h = rw h.loaded_after (
        rw ((eq_iff _ _).1 h.same_pid)
          (rw h.counted (rw h.same_runs (rw (same_text_refl before.runs) refl))))

concluded :
    (k : Option Kind) (listeners : List String) (before : JobPrint) (after : Option JobPrint)
    → before.loaded ≡ true
    → (exit_code (conclude k listeners (or_empty before.pid) (read_with before.runs) after) ≡ 3)
      ↔ ((is_some k ≡ true) × IsStill before after)
unfolding exit_code
concluded none listeners before after loaded =
    (λ h. absurd (omega (arith, h)), λ h. absurd (false≢true h.0))
concluded (some kind) listeners before none loaded =
    (λ h. absurd (omega (arith, h)), λ h. absurd h.1)
concluded (some kind) listeners before (some after) loaded =
    let (forth, back) =
      bracket-warned before kind (held_by kind listeners (or_empty before.pid)) after loaded in
    (λ h. (refl, forth h), λ h. back h.1)

concluded_unlabelled :
    (k : Option Kind) (listeners : List String) (pid : String) (after : Option JobPrint)
    → (exit_code (conclude k listeners pid unlabelled after) ≡ 3) ↔ (is_some k ≡ true)
unfolding exit_code
concluded_unlabelled none listeners pid after =
    (λ h. absurd (omega (arith, h)), λ h. absurd (false≢true h))
concluded_unlabelled (some kind) listeners pid after = (λ h. refl, λ h. refl)

concluded_stale :
    (k : Option Kind) (listeners : List String) (pid : String) (after : Option JobPrint)
    → ¬ (exit_code (conclude k listeners pid stale after) ≡ 3)
unfolding exit_code
concluded_stale none listeners pid after h = omega (arith, h)
concluded_stale (some kind) listeners pid after h = omega (arith, h)

-- the second look, as the job's state has it
confirm-warned :
    (labelled : Bool) (before : Option JobPrint) (second : Option (List String)) (pid : String)
    (after : Option JobPrint)
    → (exit_code (confirm labelled before second pid after) ≡ 3)
      ↔ IsConfirmed labelled pid before second after
unfolding exit_code
confirm-warned false before none pid after = (λ h. absurd (omega (arith, h)), λ h. absurd h)
confirm-warned false before (some listeners) pid after =
    let (forth, back) = concluded_unlabelled (finding listeners pid) listeners pid after in
    (λ h. sym (finding-any listeners pid) ∙ forth h, λ h. back (finding-any listeners pid ∙ h))
confirm-warned true none none pid after = (λ h. absurd (omega (arith, h)), λ h. absurd h)
confirm-warned true none (some listeners) pid after =
    (λ h. absurd (concluded_stale (finding listeners pid) listeners pid after h), λ h. absurd h)
confirm-warned true (some before) second pid after = by_loaded before.loaded refl
  where
    not_still : (after : Option JobPrint) → IsStill before after → before.loaded ≡ false → ⊥
    not_still none h gone = h
    not_still (some after) h gone = false≢true (sym gone ∙ h.loaded_before)

    read_again :
        (second : Option (List String))
        → before.loaded ≡ true
        → (exit_code (look_again second (or_empty before.pid) (read_with before.runs) after) ≡ 3)
          ↔ (Seen (or_empty before.pid) second × IsStill before after)
    read_again none loaded = (λ h. absurd (omega (arith, h)), λ h. absurd h.0)
    read_again (some listeners) loaded =
        let (forth, back) =
          concluded (finding listeners (or_empty before.pid)) listeners before after loaded in
        let same = finding-any listeners (or_empty before.pid) in
        (λ h. (sym same ∙ (forth h).0, (forth h).1), λ h. back (same ∙ h.0, h.1))

    by_loaded :
        (loaded : Bool)
        → before.loaded ≡ loaded
        → (exit_code (
              if not loaded
              then quiet
              else look_again second (or_empty before.pid) (read_with before.runs) after)
            ≡ 3)
          ↔ (Seen (or_empty before.pid) second × IsStill before after)
    by_loaded true loaded = read_again second loaded
    by_loaded false gone = (λ h. absurd (omega (arith, h)), λ h. absurd (not_still after h.1 gone))

first-warned :
    (labelled : Bool) (first : Option (List String)) (before : Option JobPrint)
    (second : Option (List String)) (pid : String) (after : Option JobPrint)
    → (exit_code (first_look labelled first before second pid after) ≡ 3)
      ↔ (Seen pid first × IsConfirmed labelled pid before second after)
unfolding exit_code
first-warned labelled none before second pid after =
    (λ h. absurd (omega (arith, h)), λ h. absurd h.0)
first-warned labelled (some listeners) before second pid after =
    found (finding listeners pid) (finding-any listeners pid)
  where
    found :
        (k : Option Kind)
        → is_some k ≡ any (is_foreign pid) listeners
        → (exit_code
              (elim k [ none ↦ quiet | some kind ↦ confirm labelled before second pid after ])
            ≡ 3)
          ↔ (Seen pid (some listeners) × IsConfirmed labelled pid before second after)
    found none same = (λ h. absurd (omega (arith, h)), λ h. absurd (false≢true (same ∙ h.0)))
    found (some kind) same =
        let (forth, back) = confirm-warned labelled before second pid after in
        (λ h. (sym same, forth h), λ h. back h.1)

check-warned :
    (lower : String → String) (host : Option String) (job : JobPrint) (labelled : Bool)
    (answers : Answers)
    → (exit_code (check lower host job.pid job.loaded labelled answers) ≡ 3)
      ↔ IsSquatted lower host job labelled answers
unfolding check exit_code
check-warned lower host job labelled answers = elim (Bool-cases job.loaded) [
  | inl loaded ↦
      let (forth, back) = first-warned labelled _ _ _ (or_empty job.pid) _ in
      rw loaded (λ h. (refl, (forth h).0, (forth h).1), λ h. back (h.1, h.2))
  | inr gone ↦ rw gone (λ h. absurd (omega (arith, h)), λ h. absurd (false≢true h.0))
]

abbrev pub IsSquattedJob :
    (String → String) → Option String → Option JobPrint → Bool → Answers → Type 0
IsSquattedJob lower host none labelled answers = ⊥
IsSquattedJob lower host (some job) labelled answers = IsSquatted lower host job labelled answers

-- The check exits with 3, its warning, exactly where the caller's answer shows a loaded job, both looks at
-- the port find a process that is not the job's, and, with a label, two reads of the job around the
-- second look show the same pid and the same readable spawn counter of a loaded job (whose pid the second
-- look goes by).
pub warns_exact :
    (lower : String → String) (host : String) (status : ℕ) (text : String) (labelled : Bool)
    (answers : Answers)
    → (exit_code (main lower host status text labelled answers) ≡ 3)
      ↔ IsSquattedJob lower (some host) (parse_print lower status text) labelled answers
unfolding main exit_code
warns_exact lower host status text labelled answers = by_job (parse_print lower status text)
  where
    by_job :
        (job : Option JobPrint)
        → (exit_code (check_job lower (some host) job labelled answers) ≡ 3)
          ↔ IsSquattedJob lower (some host) job labelled answers
    by_job none = (λ h. absurd (omega (arith, h)), λ h. absurd h)
    by_job (some job) = check-warned lower (some host) job labelled answers
