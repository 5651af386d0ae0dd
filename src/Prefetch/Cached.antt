-- ===== src/Prefetch/Cached.antt =====
-- A fetch and the check after it: stt_server/prefetch.py.
use pipecat_local_stt_server.Prelude.{
  ℕ, String, Bool, true, false, Option, none, some, List, [], ◌≡◌, refl, sym, ap, Bool-cases, inl,
  inr, subst, false≢true, is_some,
}
use pipecat_local_stt_server.Prefetch.{
  SnapshotSpec, Disk, Snapshot, found, refused, Download, Remote, Listing, listed, unlisted, Hub,
  Failure, validated, cached, row, check_at, check_spec,
}
use pipecat_local_stt_server.Prefetch.Fetch.{
  Outcome, fetched, raises, Fetch, finish, fetch_files, fetch_listed, fetch_located, fetch_weights,
  fetch_remote, fetch_local, fetch_at, fetch_spec,
}

-- What `snapshot_download` returned is found again without the network.
pub record Remembers {C : Type 0} (hub : Hub C) : Type 0 where
  pub again :
      (spec : SnapshotSpec C) (disk : Disk C) (path : String)
      → (hub.download spec disk).result ≡ found path
      → hub.probe spec (hub.download spec disk).disk ≡ found path

-- The check finds what was fetched.
abbrev pub Agrees :
    {C : Type 0} → Hub C → SnapshotSpec C → Option String → Disk C → Outcome → Type 0
Agrees hub spec local disk (raises f d i) = Unit
Agrees hub spec local disk (fetched path size) =
    check_at hub disk spec local ≡ row (cached path size)

finish-Agrees :
    {C : Type 0} (hub : Hub C) (spec : SnapshotSpec C) (disk : Disk C) (s : Snapshot)
    → ((path : String) → s ≡ found path → hub.probe spec disk ≡ found path)
    → Agrees hub spec none disk (finish hub spec disk s)
unfolding finish
finish-Agrees hub spec disk (refused f) same = tt
finish-Agrees hub spec disk (found path) same = elim (Bool-cases (validated hub disk spec path)) [
  | inl ok ↦ rw ok (rw (same path refl) (rw ok refl))
  | inr bad ↦ rw bad tt
]

local-Agrees :
    {C : Type 0} (hub : Hub C) (spec : SnapshotSpec C) (disk : Disk C) (path : String)
    → Agrees hub spec (some path) disk (fetch_local hub spec disk path)
unfolding fetch_local
local-Agrees hub spec disk path = elim (Bool-cases (disk.is_dir path)) [
  | inl dir ↦ elim (Bool-cases (validated hub disk spec path)) [
    | inl ok ↦ rw dir (rw ok (rw dir (rw ok refl)))
    | inr bad ↦ rw dir (rw bad tt)
  ]
  | inr none_there ↦ rw none_there tt
]

files-Agrees :
    {C : Type 0} (hub : Hub C) (emit : Bool) (spec : SnapshotSpec C) (disk : Disk C)
    (pending : List Remote)
    → Remembers hub
    → let f : Fetch C = fetch_files hub emit spec disk pending in
      Agrees hub spec none f.disk f.outcome
unfolding fetch_files
files-Agrees hub emit spec disk pending knows =
    let got : Download _ = hub.download spec disk in
    finish-Agrees hub spec got.disk got.result (knows.again spec disk)

listed-Agrees :
    {C : Type 0} (hub : Hub C) (spec : SnapshotSpec C) (disk : Disk C) (l : Listing)
    → Remembers hub
    → let f : Fetch C = fetch_listed hub spec disk l in Agrees hub spec none f.disk f.outcome
listed-Agrees hub spec disk (unlisted f) knows = tt
listed-Agrees hub spec disk (listed files) knows = files-Agrees hub true spec disk _ knows

located-Agrees :
    {C : Type 0} (hub : Hub C) (spec : SnapshotSpec C) (disk : Disk C) (fails : Option Failure)
    → Remembers hub
    → let f : Fetch C = fetch_located hub spec disk fails in Agrees hub spec none f.disk f.outcome
located-Agrees hub spec disk (some f) knows = tt
located-Agrees hub spec disk none knows =
    listed-Agrees hub spec disk (hub.remote_files spec disk) knows

weights-Agrees :
    {C : Type 0} (hub : Hub C) (emit : Bool) (spec : SnapshotSpec C) (disk : Disk C)
    → Remembers hub
    → let f : Fetch C = fetch_weights hub emit spec disk in Agrees hub spec none f.disk f.outcome
unfolding fetch_weights
weights-Agrees hub true spec disk knows = located-Agrees hub spec disk hub.cache_dir_fails knows
weights-Agrees hub false spec disk knows = files-Agrees hub false spec disk [] knows

remote-Agrees :
    {C : Type 0} (hub : Hub C) (emit : Bool) (spec : SnapshotSpec C) (disk : Disk C)
    (r : Option (C → Option (List String)))
    → Remembers hub
    → r ≡ none
    → let f : Fetch C = fetch_remote hub emit spec disk r in Agrees hub spec none f.disk f.outcome
remote-Agrees hub emit spec disk none knows plain = weights-Agrees hub emit spec disk knows
remote-Agrees hub emit spec disk (some f) knows plain = absurd (false≢true (sym (ap is_some plain)))

at-Agrees :
    {C : Type 0} (hub : Hub C) (emit : Bool) (spec : SnapshotSpec C) (disk : Disk C)
    (local : Option String)
    → Remembers hub
    → spec.resolve ≡ none
    → let f : Fetch C = fetch_at hub emit spec disk local in Agrees hub spec local f.disk f.outcome
at-Agrees hub emit spec disk none knows plain =
    remote-Agrees hub emit spec disk spec.resolve knows plain
at-Agrees hub emit spec disk (some path) knows plain = local-Agrees hub spec disk path

-- If what the Hub library downloads is found again without the network, and the names of the files are
-- not read from `config.json`, then a fetch that succeeds, of a local directory or of a repository,
-- leaves a disk on which the check finds the snapshot, with the same path and the same bytes.
pub fetched_is_cached :
    {C : Type 0} (hub : Hub C) (emit : Bool) (spec : SnapshotSpec C) (disk : Disk C) (path : String)
    (size : ℕ)
    → Remembers hub
    → spec.resolve ≡ none
    → (fetch_spec hub emit spec disk).outcome ≡ fetched path size
    → check_spec hub (fetch_spec hub emit spec disk).disk spec ≡ row (cached path size)
unfolding fetch_spec check_spec
fetched_is_cached hub emit spec disk path size knows plain ok =
    subst (Agrees hub spec spec.local_path (fetch_at hub emit spec disk spec.local_path).disk) ok
      (at-Agrees hub emit spec disk spec.local_path knows plain)
