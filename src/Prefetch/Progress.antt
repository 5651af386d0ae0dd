-- ===== src/Prefetch/Progress.antt =====
-- The progress events of stt_server/prefetch.py.
use pipecat_local_stt_server.Prelude.{
  ℕ, ◌+◌, ◌≤◌, String, Bool, true, false, Option, none, some, List, [], ◌∷◌, ◌++◌, arith, length,
}
use pipecat_local_stt_server.Prefetch.{
  SnapshotSpec, Blob, absent, incomplete, whole, Disk, Snapshot, found, refused, Remote, Listing,
  listed, unlisted, Hub, Failure, resolved,
}
use pipecat_local_stt_server.Prefetch.Fetch.{
  Event, start, progress, done, Outcome, fetched, raises, emitted, total_size, Measure, add_blob,
  add_file, measure, report, last_events, fetch_files, fetch_listed, fetch_located, fetch_weights,
  fetch_resolved, fetch_named, fetch_remote, fetch_local, local_events, fetch_at, fetch_spec,
}

abbrev pub AreBounded : List Event → Type 0
AreBounded [] = Unit
AreBounded (progress got total files_done files ∷ es) =
    (got ≤ total) × (files_done ≤ files) × AreBounded es
AreBounded (_ ∷ es) = AreBounded es

append-AreBounded : (es fs : List Event) → AreBounded es → AreBounded fs → AreBounded (es ++ fs)
append-AreBounded [] fs h k = k
append-AreBounded (progress got total n files ∷ es) fs (a, b, h) k =
    (a, b, append-AreBounded es fs h k)
append-AreBounded (start repo ∷ es) fs h k = append-AreBounded es fs h k
append-AreBounded (done path size ∷ es) fs h k = append-AreBounded es fs h k

emitted-AreBounded : (emit : Bool) (es : List Event) → AreBounded es → AreBounded (emitted emit es)
emitted-AreBounded true es h = h
emitted-AreBounded false es h = tt

record Within (m : Measure) (size files : ℕ) (n : Measure) : Type 0 where
  bytes : n.got ≤ m.got + size
  count : n.n_done ≤ m.n_done + files

blob-Within : (size : ℕ) (b : Blob) (m : Measure) → Within m size 1 (add_blob size b m)
blob-Within size absent m = record { bytes = omega arith; count = omega arith }
blob-Within size (incomplete n) m = record { bytes = omega arith; count = omega arith }
blob-Within size whole m = record { bytes = omega arith; count = omega arith }

file-Within :
    (blobs : String → Blob) (size : ℕ) (blob_id : Option String) (m : Measure)
    → Within m size 1 (add_file blobs size blob_id m)
file-Within blobs size none m = record { bytes = omega arith; count = omega arith }
file-Within blobs size (some blob_id) m = blob-Within size (blobs blob_id) m

measure-Within :
    (blobs : String → Blob) (fs : List Remote) (m : Measure)
    → Within m (total_size fs) (length fs) (measure blobs fs m)
unfolding measure total_size
measure-Within blobs [] m = record { bytes = omega arith; count = omega arith }
measure-Within blobs (f ∷ fs) m =
    let one = file-Within blobs f.size f.blob_id m in
    let rest = measure-Within blobs fs (add_file blobs f.size f.blob_id m) in
    record {
      bytes = let b = one.bytes in let r = rest.bytes in omega arith;
      count = let b = one.count in let r = rest.count in omega arith;
    }

report-AreBounded :
    (pending : List Remote) (ticks : List (String → Blob)) → AreBounded (report pending ticks)
unfolding report
report-AreBounded pending [] = tt
report-AreBounded pending (blobs ∷ ticks) =
    let w = measure-Within blobs pending (record { got = 0; n_done = 0 }) in
    let b = w.bytes in
    let c = w.count in (omega arith, omega arith, report-AreBounded pending ticks)

last-AreBounded : (pending : List Remote) (o : Outcome) → AreBounded (last_events pending o)
unfolding last_events
last-AreBounded pending (raises f d i) = tt
last-AreBounded pending (fetched path size) = (omega arith, omega arith, tt)

local-AreBounded : (o : Outcome) → AreBounded (local_events o)
unfolding local_events
local-AreBounded (fetched path size) = tt
local-AreBounded (raises f d i) = tt

module _ {C : Type 0} (hub : Hub C) where
  files-AreBounded :
      (emit : Bool) (spec : SnapshotSpec C) (disk : Disk C) (pending : List Remote)
      → AreBounded (fetch_files hub emit spec disk pending).events
  unfolding fetch_files
  files-AreBounded emit spec disk pending = emitted-AreBounded emit _ (
      append-AreBounded (report pending (hub.download spec disk).ticks) _
        (report-AreBounded pending (hub.download spec disk).ticks) (last-AreBounded pending _))

  listed-AreBounded :
      (spec : SnapshotSpec C) (disk : Disk C) (l : Listing)
      → AreBounded (fetch_listed hub spec disk l).events
  listed-AreBounded spec disk (unlisted f) = tt
  listed-AreBounded spec disk (listed files) = files-AreBounded true spec disk _

  located-AreBounded :
      (spec : SnapshotSpec C) (disk : Disk C) (fails : Option Failure)
      → AreBounded (fetch_located hub spec disk fails).events
  located-AreBounded spec disk (some f) = tt
  located-AreBounded spec disk none = listed-AreBounded spec disk (hub.remote_files spec disk)

  weights-AreBounded :
      (emit : Bool) (spec : SnapshotSpec C) (disk : Disk C)
      → AreBounded (fetch_weights hub emit spec disk).events
  unfolding fetch_weights
  weights-AreBounded true spec disk = located-AreBounded spec disk hub.cache_dir_fails
  weights-AreBounded false spec disk = files-AreBounded false spec disk []

  resolved-AreBounded :
      (emit : Bool) (disk : Disk C) (r : Option (SnapshotSpec C))
      → AreBounded (fetch_resolved hub emit disk r).events
  resolved-AreBounded emit disk none = tt
  resolved-AreBounded emit disk (some spec) = weights-AreBounded emit spec disk

  named-AreBounded :
      (emit : Bool) (spec : SnapshotSpec C) (disk : Disk C) (s : Snapshot)
      → AreBounded (fetch_named hub emit spec disk s).events
  named-AreBounded emit spec disk (refused f) = tt
  named-AreBounded emit spec disk (found path) =
      resolved-AreBounded emit disk (resolved disk spec path)

  remote-AreBounded :
      (emit : Bool) (spec : SnapshotSpec C) (disk : Disk C) (r : Option (C → Option (List String)))
      → AreBounded (fetch_remote hub emit spec disk r).events
  remote-AreBounded emit spec disk none = weights-AreBounded emit spec disk
  remote-AreBounded emit spec disk (some f) = named-AreBounded emit spec _ _

  at-AreBounded :
      (emit : Bool) (spec : SnapshotSpec C) (disk : Disk C) (l : Option String)
      → AreBounded (fetch_at hub emit spec disk l).events
  at-AreBounded emit spec disk none = remote-AreBounded emit spec disk spec.resolve
  at-AreBounded emit spec disk (some path) =
      emitted-AreBounded emit _ (local-AreBounded (fetch_local hub spec disk path))

-- No progress event of a fetch counts more bytes than its total, or more files than there are, whatever
-- blobs the reporter sees while the Hub library writes them.
pub progress_bounded :
    {C : Type 0} (hub : Hub C) (emit : Bool) (spec : SnapshotSpec C) (disk : Disk C)
    → AreBounded (fetch_spec hub emit spec disk).events
unfolding fetch_spec
progress_bounded hub emit spec disk =
    append-AreBounded (emitted emit (start spec.repo_id ∷ [])) _
      (emitted-AreBounded emit (start spec.repo_id ∷ []) tt)
      (at-AreBounded hub emit spec disk spec.local_path)
