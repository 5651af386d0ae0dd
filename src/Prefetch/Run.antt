-- ===== src/Prefetch/Run.antt =====
-- `run_prefetch` of stt_server/prefetch.py: which snapshots a backend needs, and the check or the fetch
-- of all of them.
pub mod Verdict
use text.Mathlib.Text.{starts_with}
use pipecat_local_stt_server.Prelude.{
  ℕ, ◌+◌, String, Bool, true, false, ◌||◌, ◌&&◌, Option, none, some, is_some, List, [], ◌∷◌, ◌++◌,
  map, any, str_eq, if◌then◌else◌,
}
use pipecat_local_stt_server.Backends.Registry.{
  BackendEntry, Imported, loaded, unknown_backend, import_fails, import_backend,
}
use pipecat_local_stt_server.Prefetch.{
  SnapshotSpec, Disk, Failure, import_error, config_error, other_error, Hub, Row, missing, cached,
  Checked, row, check_raises, check_spec,
}
use pipecat_local_stt_server.Prefetch.Fetch.{Event, Outcome, fetched, raises, Fetch, fetch_spec}

-- What is called besides the Hub library: `importlib`, the `prefetch_specs` of a backend module,
-- `Path.exists` of an expanded path, and `Path.expanduser`, `none` where it raises.
pub record System (M C : Type 0) : Type 0 where
  pub load : String → Option M
  pub prefetch_specs : M → Option String → List (SnapshotSpec C)
  pub exists_path : String → Bool
  pub expand : String → Option String

pub data Specs (C : Type 0) : Type 0 where
  specs : List (SnapshotSpec C) → Specs C
  specs_fail : Failure → Specs C

unfoldable pub local_prefixes : List String
local_prefixes = "/" ∷ "./" ∷ "../" ∷ "~" ∷ []

unfoldable pub is_local_model : {M C : Type 0} → System M C → String → Bool
unfolding local_prefixes
is_local_model sys model = any (starts_with model) local_prefixes || sys.exists_path model

abbrev pub module_specs : {M C : Type 0} → System M C → Option M → Option String → Specs C
module_specs sys none none = specs []
module_specs sys none (some model) = specs_fail config_error
module_specs sys (some m) model = specs (sys.prefetch_specs m model)

-- `specs_for`
abbrev pub specs_of : {M C : Type 0} → System M C → Imported M → Option String → Specs C
specs_of sys unknown_backend model = specs_fail config_error
specs_of sys import_fails model = specs_fail import_error
specs_of sys (loaded name e m) model = module_specs sys m model

abbrev pub or_literal : String → Option String → String
or_literal model none = model
or_literal model (some path) = path

abbrev pub at_path : {C : Type 0} → String → SnapshotSpec C → SnapshotSpec C
at_path path spec = record spec { local_path = some path }

abbrev pub with_path : {C : Type 0} → String → Specs C → Specs C
with_path path (specs_fail f) = specs_fail f
with_path path (specs ss) = specs (map (at_path path) ss)

-- `local_specs_for`
abbrev pub local_specs_of : {M C : Type 0} → System M C → Imported M → String → Specs C
local_specs_of sys unknown_backend model = specs_fail config_error
local_specs_of sys import_fails model = specs_fail import_error
local_specs_of sys (loaded name e m) model =
    if e.local_model_paths
    then with_path (or_literal model (sys.expand model)) (module_specs sys m (some model))
    else specs_fail config_error

abbrev pub wanted_specs : {M C : Type 0} → System M C → Imported M → Option String → Specs C
wanted_specs sys imported none = specs_of sys imported none
wanted_specs sys imported (some model) =
    if str_eq model ""
    then specs_of sys imported (some model)
    else if is_local_model sys model
    then local_specs_of sys imported model
    else specs_of sys imported (some model)

-- The lines of a run: those of a fetch, a row of the check, and how it ends. The error names the
-- repository that it is about, if any.
pub data Line : Type 0 where
  step : Event → Line
  checked : Row → Line
  summary : Bool → ℕ → Line
  complete : ℕ → Line
  error_line : Option String → Line

pub record Ran : Type 0 where
  pub lines : List Line
  pub status : ℕ

-- the `except` of `run_prefetch`
abbrev pub fails_with : List Line → Option String → Ran
fails_with before repo = record { lines = before ++ error_line repo ∷ []; status = 1 }

abbrev pub is_cached : Row → Bool
is_cached missing = false
is_cached (cached path size) = true

abbrev pub row_size : Row → ℕ
row_size missing = 0
row_size (cached path size) = size

unfoldable pub all_cached : List Row → Bool
all_cached [] = true
all_cached (r ∷ rs) = is_cached r && all_cached rs

unfoldable pub rows_size : List Row → ℕ
rows_size [] = 0
rows_size (r ∷ rs) = row_size r + rows_size rs

-- `exc._prefetch_repo`: not set on an import error
abbrev pub blamed_repo : String → Failure → Option String
blamed_repo repo import_error = none
blamed_repo repo config_error = some repo
blamed_repo repo other_error = some repo

abbrev pub add_row : (List Row → Ran) → String → List Row → Checked → Ran
add_row next repo rows (check_raises f) = fails_with [] (blamed_repo repo f)
add_row next repo rows (row r) = next (rows ++ r ∷ [])

-- `_run_check`, from the rows so far: all are made before the first one is emitted
unfoldable pub run_check : {C : Type 0} → Hub C → Disk C → List (SnapshotSpec C) → List Row → Ran
unfolding check_spec all_cached rows_size
run_check hub disk [] rows = record {
  lines = map checked rows ++ summary (all_cached rows) (rows_size rows) ∷ [];
  status = 0;
}
run_check hub disk (spec ∷ rest) rows =
    add_row (run_check hub disk rest) spec.repo_id rows (check_spec hub disk spec)

abbrev pub add_fetch : (ℕ → List Line → Ran) → String → ℕ → List Line → Outcome → Ran
add_fetch next repo total lines (raises f d i) = fails_with lines (blamed_repo repo f)
add_fetch next repo total lines (fetched path size) = next (total + size) lines

-- `_run_fetch`, from the disk, the total and the lines so far
unfoldable pub run_fetch :
    {C : Type 0} → Hub C → List (SnapshotSpec C) → Disk C → ℕ → List Line → Ran
unfolding fetch_spec
run_fetch hub [] disk total lines = record { lines = lines ++ complete total ∷ []; status = 0 }
run_fetch hub (spec ∷ rest) disk total lines =
    let f : Fetch _ = fetch_spec hub true spec disk in
    add_fetch (run_fetch hub rest f.disk) spec.repo_id total (lines ++ map step f.events) f.outcome

abbrev pub run_specs : {C : Type 0} → Hub C → Disk C → Bool → Specs C → Ran
run_specs hub disk check (specs_fail f) = fails_with [] none
run_specs hub disk check (specs ss) =
    if check then run_check hub disk ss [] else run_fetch hub ss disk 0 []

-- `run_prefetch` with `json_mode`
unfoldable pub run_prefetch :
    {M C : Type 0} → System M C → Hub C → Disk C → String → Option String → Bool → Ran
unfolding import_backend run_check run_fetch is_local_model
run_prefetch sys hub disk backend model check =
    run_specs hub disk check (wanted_specs sys (import_backend sys.load backend) model)
