-- ===== src/Prefetch/Fetch.antt =====
-- `fetch_spec`, `_run_fetch` and `_run_check` of stt_server/prefetch.py.
use pipecat_local_stt_server.Prelude.{
  ℕ, suc, ◌+◌, min, String, Bool, true, false, ◌&&◌, Option, none, some, List, [], ◌∷◌, ◌++◌,
  length, if◌then◌else◌,
}
use pipecat_local_stt_server.Prefetch.{
  SnapshotSpec, Blob, absent, incomplete, whole, Disk, Failure, other_error, Snapshot, found,
  refused, Download, Remote, Listing, listed, unlisted, Hub, resolved, validated,
}

pub data Event : Type 0 where
  start : String → Event
  progress : ℕ → ℕ → ℕ → ℕ → Event
  done : String → ℕ → Event

-- A failure has two tags: raised in a download phase, and the snapshot is unusable.
pub data Outcome : Type 0 where
  fetched : String → ℕ → Outcome
  raises : Failure → Bool → Bool → Outcome

abbrev pub download_raises : Failure → Outcome
download_raises f = raises f true false

-- `mark_model_invalid`
abbrev pub invalid : Outcome
invalid = raises other_error false true

pub record Fetch (C : Type 0) : Type 0 where
  pub outcome : Outcome
  pub disk : Disk C
  pub events : List Event

-- the events of a fetch with `emit` set, and none without it
abbrev pub emitted : Bool → List Event → List Event
emitted emit events = if emit then events else []

abbrev pub is_whole : Blob → Bool
is_whole whole = true
is_whole _ = false

abbrev pub has_blob : (String → Blob) → Option String → Bool
has_blob blobs none = false
has_blob blobs (some blob_id) = is_whole (blobs blob_id)

unfoldable pub pending_files : (String → Blob) → List Remote → List Remote
pending_files blobs [] = []
pending_files blobs (f ∷ fs) =
    let rest = pending_files blobs fs in if has_blob blobs f.blob_id then rest else f ∷ rest

unfoldable pub total_size : List Remote → ℕ
total_size [] = 0
total_size (f ∷ fs) = f.size + total_size fs

pub record Measure : Type 0 where
  pub got : ℕ
  pub n_done : ℕ

abbrev pub add_blob : ℕ → Blob → Measure → Measure
add_blob size absent m = m
add_blob size (incomplete n) m = record m { got = m.got + min size n }
add_blob size whole m = record { got = m.got + size; n_done = suc m.n_done }

abbrev pub add_file : (String → Blob) → ℕ → Option String → Measure → Measure
add_file blobs size none m = m
add_file blobs size (some blob_id) m = add_blob size (blobs blob_id) m

-- `measure`, from what was counted before
unfoldable pub measure : (String → Blob) → List Remote → Measure → Measure
measure blobs [] m = m
measure blobs (f ∷ fs) m = measure blobs fs (add_file blobs f.size f.blob_id m)

abbrev pub progress_of : List Remote → Measure → Event
progress_of pending m = progress m.got (total_size pending) m.n_done (length pending)

-- `report`: one event for each time that the thread woke up
unfoldable pub report : List Remote → List (String → Blob) → List Event
unfolding measure total_size
report pending [] = []
report pending (blobs ∷ ticks) =
    progress_of pending (measure blobs pending (record { got = 0; n_done = 0 }))
    ∷ report pending ticks

-- after `snapshot_download`
unfoldable pub finish : {C : Type 0} → Hub C → SnapshotSpec C → Disk C → Snapshot → Outcome
finish hub spec disk (refused f) = download_raises f
finish hub spec disk (found path) =
    if validated hub disk spec path then fetched path (disk.snapshot_size path) else invalid

unfoldable pub last_events : List Remote → Outcome → List Event
unfolding total_size
last_events pending (raises f d i) = []
last_events pending (fetched path size) =
    progress (total_size pending) (total_size pending) (length pending) (length pending)
    ∷ done path size
    ∷ []

-- the download of the weights; `pending` is empty without `emit`
unfoldable pub fetch_files :
    {C : Type 0} → Hub C → Bool → SnapshotSpec C → Disk C → List Remote → Fetch C
unfolding report finish last_events
fetch_files hub emit spec disk pending =
    let got : Download _ = hub.download spec disk in
    let outcome = finish hub spec got.disk got.result in
    record {
      outcome = outcome;
      disk = got.disk;
      events = emitted emit (report pending got.ticks ++ last_events pending outcome);
    }

abbrev pub fetch_listed : {C : Type 0} → Hub C → SnapshotSpec C → Disk C → Listing → Fetch C
fetch_listed hub spec disk (unlisted f) = record {
  outcome = download_raises f;
  disk = disk;
  events = [];
}
fetch_listed hub spec disk (listed files) =
    fetch_files hub true spec disk (pending_files (disk.blob spec.repo_id) files)

-- `_repo_cache_dir` is called before the download phase of the listing
abbrev pub fetch_located : {C : Type 0} → Hub C → SnapshotSpec C → Disk C → Option Failure → Fetch C
fetch_located hub spec disk (some f) = record {
  outcome = raises f false false;
  disk = disk;
  events = [];
}
fetch_located hub spec disk none = fetch_listed hub spec disk (hub.remote_files spec disk)

unfoldable pub fetch_weights : {C : Type 0} → Hub C → Bool → SnapshotSpec C → Disk C → Fetch C
unfolding fetch_files pending_files
fetch_weights hub emit spec disk =
    if emit
    then fetch_located hub spec disk hub.cache_dir_fails
    else fetch_files hub false spec disk []

abbrev pub fetch_resolved : {C : Type 0} → Hub C → Bool → Disk C → Option (SnapshotSpec C) → Fetch C
fetch_resolved hub emit disk none = record { outcome = invalid; disk = disk; events = [] }
fetch_resolved hub emit disk (some spec) = fetch_weights hub emit spec disk

abbrev pub fetch_named : {C : Type 0} → Hub C → Bool → SnapshotSpec C → Disk C → Snapshot → Fetch C
fetch_named hub emit spec disk (refused f) = record {
  outcome = download_raises f;
  disk = disk;
  events = [];
}
fetch_named hub emit spec disk (found config_path) =
    fetch_resolved hub emit disk (resolved disk spec config_path)

abbrev pub fetch_remote :
    {C : Type 0}
    → Hub C
    → Bool
    → SnapshotSpec C
    → Disk C
    → Option (C → Option (List String))
    → Fetch C
fetch_remote hub emit spec disk none = fetch_weights hub emit spec disk
fetch_remote hub emit spec disk (some _) =
    let config_only : SnapshotSpec _ = record spec {
      allow_patterns = some ("config.json" ∷ []);
      required = [];
      resolve = none;
    } in
    let got : Download _ = hub.download config_only disk in
    fetch_named hub emit spec got.disk got.result

unfoldable pub fetch_local : {C : Type 0} → Hub C → SnapshotSpec C → Disk C → String → Outcome
fetch_local hub spec disk path =
    let unchecked = fetched path (disk.snapshot_size path) in
    if disk.is_dir path && validated hub disk spec path then unchecked else invalid

unfoldable pub local_events : Outcome → List Event
local_events (fetched path size) = done path size ∷ []
local_events (raises f d i) = []

abbrev pub fetch_at :
    {C : Type 0} → Hub C → Bool → SnapshotSpec C → Disk C → Option String → Fetch C
fetch_at hub emit spec disk none = fetch_remote hub emit spec disk spec.resolve
fetch_at hub emit spec disk (some path) =
    let outcome = fetch_local hub spec disk path in
    record { outcome = outcome; disk = disk; events = emitted emit (local_events outcome) }

abbrev pub started : {C : Type 0} → Bool → SnapshotSpec C → Fetch C → Fetch C
started emit spec f = record f { events = emitted emit (start spec.repo_id ∷ []) ++ f.events }

-- `fetch_spec`
unfoldable pub fetch_spec : {C : Type 0} → Hub C → Bool → SnapshotSpec C → Disk C → Fetch C
unfolding fetch_weights fetch_local local_events
fetch_spec hub emit spec disk = started emit spec (fetch_at hub emit spec disk spec.local_path)
