-- ===== src/Prefetch/Run/Verdict.antt =====
-- How every run of stt_server/prefetch.py ends.
use pipecat_local_stt_server.Prelude.{
  ℕ, ◌+◌, String, Bool, true, false, ◌&&◌, Option, none, some, List, [], ◌∷◌, ◌++◌, ◌≡◌, refl, ◌∙◌,
  map, ap, all, sym, subst, arith, append_assoc, append-nil,
}
use pipecat_local_stt_server.Backends.Registry.{import_backend}
use pipecat_local_stt_server.Prefetch.{
  SnapshotSpec, Disk, Failure, Hub, Row, Checked, row, check_raises, check_spec,
}
use pipecat_local_stt_server.Prefetch.Fetch.{Event, Outcome, fetched, raises, fetch_spec}
use pipecat_local_stt_server.Prefetch.Run.{
  System, Specs, specs, specs_fail, Line, step, checked, summary, complete, error_line, Ran,
  blamed_repo, is_cached, row_size, all_cached, rows_size, add_row, run_check, add_fetch, run_fetch,
  run_specs, wanted_specs, run_prefetch,
}

-- how a list of checks or fetches ends: it was done to its end, or one raised, of this repository
abbrev pub End : Type 0
End = Option (String × Failure)

-- The fetches of some specs, one after another on the disk that the one before left, until one raises: the
-- events of all, and the sizes of those that succeeded.
pub data Fetches {C : Type 0} (hub : Hub C)
    : List (SnapshotSpec C) → Disk C → List Event → List ℕ → End → Type 0 where
  no_more : {disk : Disk C} → Fetches hub [] disk [] [] none
  fetches :
      {spec : SnapshotSpec C} {rest : List (SnapshotSpec C)} {disk : Disk C} {es : List Event}
      {sizes : List ℕ} {end : End} (path : String) (size : ℕ)
      → (fetch_spec hub true spec disk).outcome ≡ fetched path size
      → Fetches hub rest (fetch_spec hub true spec disk).disk es sizes end
      → Fetches hub
          (spec ∷ rest)
          disk
          ((fetch_spec hub true spec disk).events ++ es)
          (size ∷ sizes)
          end
  fetch_fails :
      {spec : SnapshotSpec C} {rest : List (SnapshotSpec C)} {disk : Disk C} (f : Failure)
      (in_download unusable : Bool)
      → (fetch_spec hub true spec disk).outcome ≡ raises f in_download unusable
      → Fetches hub
          (spec ∷ rest)
          disk
          (fetch_spec hub true spec disk).events
          []
          (some (spec.repo_id, f))

-- The checks of some specs, until one raises, with their rows.
pub data Checks {C : Type 0} (hub : Hub C) (disk : Disk C)
    : List (SnapshotSpec C) → List Row → End → Type 0 where
  no_more : Checks hub disk [] [] none
  checks :
      {spec : SnapshotSpec C} {rest : List (SnapshotSpec C)} {rows : List Row} {end : End} (r : Row)
      → check_spec hub disk spec ≡ row r
      → Checks hub disk rest rows end
      → Checks hub disk (spec ∷ rest) (r ∷ rows) end
  check_fails :
      {spec : SnapshotSpec C} {rest : List (SnapshotSpec C)} (f : Failure)
      → check_spec hub disk spec ≡ check_raises f
      → Checks hub disk (spec ∷ rest) [] (some (spec.repo_id, f))

abbrev pub sum : List ℕ → ℕ
sum [] = 0
sum (n ∷ ns) = n + sum ns

-- The run of fetches with these events: the completion with the total, or the error.
abbrev pub IsFetched : List Event → List ℕ → End → Ran → Type 0
IsFetched es sizes none r = (r.lines ≡ map step es ++ complete (sum sizes) ∷ []) × (r.status ≡ 0)
IsFetched es sizes (some (repo, f)) r =
    (r.lines ≡ map step es ++ error_line (blamed_repo repo f) ∷ []) × (r.status ≡ 1)

-- The run of checks with these rows: all rows and their summary, or only the error.
abbrev pub IsChecked : List Row → End → Ran → Type 0
IsChecked rows none r =
    (r.lines ≡ map checked rows ++ summary (all is_cached rows) (sum (map row_size rows)) ∷ [])
    × (r.status ≡ 0)
IsChecked rows (some (repo, f)) r =
    (r.lines ≡ error_line (blamed_repo repo f) ∷ []) × (r.status ≡ 1)

abbrev pub HasVerdict : {C : Type 0} → Hub C → Disk C → Bool → Specs C → Ran → Type 0
HasVerdict hub disk check (specs_fail f) r = (r.lines ≡ error_line none ∷ []) × (r.status ≡ 1)
HasVerdict hub disk true (specs ss) r =
    (rows : List Row) × (end : End) × Checks hub disk ss rows end × IsChecked rows end r
HasVerdict hub disk false (specs ss) r =
    (es : List Event) × (sizes : List ℕ) × (end : End) × Fetches hub ss disk es sizes end
    × IsFetched es sizes end r

all_cached-all : (rows : List Row) → all_cached rows ≡ all is_cached rows
unfolding all_cached
all_cached-all [] = refl
all_cached-all (r ∷ rows) = ap (λ b. is_cached r && b) (all_cached-all rows)

rows_size-sum : (rows : List Row) → rows_size rows ≡ sum (map row_size rows)
unfolding rows_size
rows_size-sum [] = refl
rows_size-sum (r ∷ rows) = ap (λ n. row_size r + n) (rows_size-sum rows)

-- the rest of a run, from the lines and the total so far
abbrev IsFetchedAfter : List Line → ℕ → List Event → List ℕ → End → Ran → Type 0
IsFetchedAfter lines total es sizes none r =
    (r.lines ≡ lines ++ (map step es ++ complete (total + sum sizes) ∷ [])) × (r.status ≡ 0)
IsFetchedAfter lines total es sizes (some (repo, f)) r =
    (r.lines ≡ lines ++ (map step es ++ error_line (blamed_repo repo f) ∷ [])) × (r.status ≡ 1)

map-step-append : (es more : List Event) → map step (es ++ more) ≡ map step es ++ map step more
map-step-append [] more = refl
map-step-append (e ∷ es) more = ap (λ ls. step e ∷ ls) (map-step-append es more)

regroup :
    (lines : List Line) (es more : List Event) (last : List Line)
    → (lines ++ map step es) ++ (map step more ++ last) ≡ lines ++ (map step (es ++ more) ++ last)
regroup lines es more last =
    append_assoc lines (map step es) (map step more ++ last)
    ∙ ap (λ ls. lines ++ ls)
        (sym (append_assoc (map step es) (map step more) last)
          ∙ ap (λ ls. ls ++ last) (sym (map-step-append es more)))

-- a fetch in front of the rest
fetched-after :
    (lines : List Line) (total size : ℕ) (es more : List Event) (sizes : List ℕ) (end : End)
    (r : Ran)
    → IsFetchedAfter (lines ++ map step es) (total + size) more sizes end r
    → IsFetchedAfter lines total (es ++ more) (size ∷ sizes) end r
fetched-after lines total size es more sizes none r (same, ok) = (
  same
      ∙ ap (λ n. (lines ++ map step es) ++ (map step more ++ complete n ∷ []))
          (later total size (sum sizes))
      ∙ regroup lines es more (complete (total + (size + sum sizes)) ∷ []),
  ok,
)
  where
    later : (a b c : ℕ) → (a + b) + c ≡ a + (b + c)
    later a b c = omega arith
fetched-after lines total size es more sizes (some (repo, f)) r (same, bad) =
    (same ∙ regroup lines es more (error_line (blamed_repo repo f) ∷ []), bad)

from_start :
    (es : List Event) (sizes : List ℕ) (end : End) (r : Ran)
    → IsFetchedAfter [] 0 es sizes end r
    → IsFetched es sizes end r
from_start es sizes none r (same, ok) =
    (same ∙ ap (λ n. map step es ++ complete n ∷ []) (none_add (sum sizes)), ok)
  where
    none_add : (n : ℕ) → 0 + n ≡ n
    none_add n = omega arith
from_start es sizes (some (repo, f)) r h = h

abbrev IsFetchRun :
    {C : Type 0} → Hub C → List (SnapshotSpec C) → Disk C → List Line → ℕ → Ran → Type 0
IsFetchRun hub ss disk lines total r =
    (es : List Event) × (sizes : List ℕ) × (end : End) × Fetches hub ss disk es sizes end
    × IsFetchedAfter lines total es sizes end r

add_none : (n : ℕ) → n ≡ n + 0
add_none n = omega arith

module _ {C : Type 0} (hub : Hub C) where
  fetch-HasVerdict :
      (ss : List (SnapshotSpec C)) (disk : Disk C) (total : ℕ) (lines : List Line)
      → IsFetchRun hub ss disk lines total (run_fetch hub ss disk total lines)
  unfolding run_fetch
  fetch-HasVerdict [] disk total lines =
      ([], [], none, Fetches.no_more, (ap (λ n. lines ++ complete n ∷ []) (add_none total), refl))
  fetch-HasVerdict (spec ∷ rest) disk total lines =
      by_outcome (fetch_spec hub true spec disk).outcome refl
        (λ n more. fetch-HasVerdict rest (fetch_spec hub true spec disk).disk n more)
    where
      by_outcome :
          (o : Outcome)
          → (fetch_spec hub true spec disk).outcome ≡ o
          → ((n : ℕ) (more : List Line)
              → IsFetchRun hub rest
                  (fetch_spec hub true spec disk).disk
                  more
                  n
                  (run_fetch hub rest (fetch_spec hub true spec disk).disk n more))
          → IsFetchRun hub (spec ∷ rest) disk lines total (
              add_fetch
                (run_fetch hub rest (fetch_spec hub true spec disk).disk)
                spec.repo_id
                total
                (lines ++ map step (fetch_spec hub true spec disk).events)
                o)
      by_outcome (raises f d i) e later = (
        (fetch_spec hub true spec disk).events,
        [],
        some (spec.repo_id, f),
        fetch_fails f d i e,
        (append_assoc lines (map step (fetch_spec hub true spec disk).events) _, refl),
      )
      by_outcome (fetched path size) e later =
          let (es, sizes, end, run, after) =
            later (total + size) (lines ++ map step (fetch_spec hub true spec disk).events) in
          (
            (fetch_spec hub true spec disk).events ++ es,
            size ∷ sizes,
            end,
            fetches path size e run,
            fetched-after lines total size (fetch_spec hub true spec disk).events es sizes end _
                after,
          )

  -- the rest of the checks, after some rows
  abbrev IsCheckRun : Disk C → List (SnapshotSpec C) → List Row → Ran → Type 0
  IsCheckRun disk ss before r =
      (rows : List Row) × (end : End) × Checks hub disk ss rows end
      × IsChecked (before ++ rows) end r

  IsChecked-after :
      (before : List Row) (r : Row) (rows : List Row) (end : End) (ran : Ran)
      → IsChecked ((before ++ r ∷ []) ++ rows) end ran
      → IsChecked (before ++ r ∷ rows) end ran
  IsChecked-after before r rows end ran =
      subst (λ rs. IsChecked rs end ran) (append_assoc before (r ∷ []) rows)

  check-HasVerdict :
      (disk : Disk C) (ss : List (SnapshotSpec C)) (before : List Row)
      → IsCheckRun disk ss before (run_check hub disk ss before)
  unfolding run_check
  check-HasVerdict disk [] before = (
    [],
    none,
    Checks.no_more,
    subst (λ rs. IsChecked rs none (run_check hub disk [] before)) (sym (append-nil before))
        (
          ap (λ l. map checked before ++ l ∷ [])
              (λ i. summary (all_cached-all before i) (rows_size-sum before i)),
          refl,
        ),
  )
  check-HasVerdict disk (spec ∷ rest) before =
      by_check (check_spec hub disk spec) refl (check-HasVerdict disk rest)
    where
      by_check :
          (c : Checked)
          → check_spec hub disk spec ≡ c
          → ((more : List Row) → IsCheckRun disk rest more (run_check hub disk rest more))
          → IsCheckRun disk
              (spec ∷ rest)
              before
              (add_row (run_check hub disk rest) spec.repo_id before c)
      by_check (check_raises f) e later =
          ([], some (spec.repo_id, f), check_fails f e, (refl, refl))
      by_check (row r) e later =
          let (rows, end, run, after) = later (before ++ r ∷ []) in
          (r ∷ rows, end, checks r e run, IsChecked-after before r rows end _ after)

  specs-HasVerdict :
      (disk : Disk C) (check : Bool) (ss : Specs C)
      → HasVerdict hub disk check ss (run_specs hub disk check ss)
  specs-HasVerdict disk check (specs_fail f) = (refl, refl)
  specs-HasVerdict disk true (specs ss) = check-HasVerdict disk ss []
  specs-HasVerdict disk false (specs ss) =
      let (es, sizes, end, run, after) = fetch-HasVerdict ss disk 0 [] in
      (es, sizes, end, run, from_start es sizes end _ after)

-- A run checks or fetches the specs that its backend and model ask for, one after another, and ends with
-- exactly one verdict. Where the specs cannot be told, it is an error, with status 1. Fetches go on on the
-- disk that the one before left: if all succeed, the run shows their events and a completion with the sum of
-- their sizes, with status 0, and if one raises, the events up to it and the error of its repository, with
-- status 1. Checks that all give rows are shown with a summary, whether all are cached and the sum of the
-- sizes, with status 0, and if one raises, the run shows its error only, with status 1.
pub run_prefetch-HasVerdict :
    {M C : Type 0} (sys : System M C) (hub : Hub C) (disk : Disk C) (backend : String)
    (model : Option String) (check : Bool)
    → HasVerdict hub disk check
        (wanted_specs sys (import_backend sys.load backend) model)
        (run_prefetch sys hub disk backend model check)
unfolding run_prefetch
run_prefetch-HasVerdict sys hub disk backend model check =
    specs-HasVerdict hub disk check (wanted_specs sys (import_backend sys.load backend) model)
