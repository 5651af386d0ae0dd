-- ===== src/Prefetch/Blame.antt =====
-- Which phase a failed fetch of stt_server/prefetch.py is blamed on.
use pipecat_local_stt_server.Prelude.{
  ℕ, String, Bool, true, false, ◌&&◌, Option, none, some, ◌≡◌, ◌⊎◌,
}
use pipecat_local_stt_server.Prefetch.{
  SnapshotSpec, Disk, found, refused, Failure, other_error, unlisted, Hub, validated,
}
use pipecat_local_stt_server.Prefetch.Fetch.{Outcome, fetched, raises, Fetch}

-- A call of the Hub library for the repository failed so: a download, or the listing of its files.
abbrev pub HubFails : {C : Type 0} → Hub C → String → Failure → Type 0
HubFails {C} hub repo f =
    (spec : SnapshotSpec C) × (disk : Disk C) × (spec.repo_id ≡ repo)
    × (((hub.download spec disk).result ≡ refused f) ⊎ (hub.remote_files spec disk ≡ unlisted f))

-- What a download for the repository left at the path that it gave is no snapshot that validates.
abbrev pub IsDefective : {C : Type 0} → Hub C → String → Type 0
IsDefective {C} hub repo =
    (asked : SnapshotSpec C) × (spec : SnapshotSpec C) × (disk : Disk C) × (path : String)
    × (asked.repo_id ≡ repo)
    × (spec.repo_id ≡ repo)
    × ((hub.download asked disk).result ≡ found path)
    × (validated hub (hub.download asked disk).disk spec path ≡ false)

-- the local directory that was asked for is not there, or no snapshot that validates
abbrev pub IsUnusable : {C : Type 0} → Hub C → Disk C → SnapshotSpec C → Type 0
IsUnusable hub disk spec =
    (path : String) × (spec.local_path ≡ some path)
    × (disk.is_dir path && validated hub disk spec path ≡ false)

-- What is at the path validates as a snapshot of the repository, with that size.
abbrev pub IsSnapshot : {C : Type 0} → Hub C → String → String → ℕ → Type 0
IsSnapshot {C} hub repo path size =
    (spec : SnapshotSpec C) × (disk : Disk C) × (spec.repo_id ≡ repo)
    × (validated hub disk spec path ≡ true)
    × (size ≡ disk.snapshot_size path)

-- The tags of a failure say where it comes from: in a download phase, from the Hub library; as an unusable
-- snapshot, from one that does not validate; and without a tag, from the import for the cache directory.
abbrev pub IsBlamed : {C : Type 0} → Hub C → Bool → Disk C → SnapshotSpec C → Outcome → Type 0
IsBlamed hub emit disk spec (fetched path size) = IsSnapshot hub spec.repo_id path size
IsBlamed hub emit disk spec (raises f true false) = HubFails hub spec.repo_id f
IsBlamed hub emit disk spec (raises f false true) =
    (f ≡ other_error) × (IsDefective hub spec.repo_id ⊎ IsUnusable hub disk spec)
IsBlamed hub emit disk spec (raises f false false) = (emit ≡ true) × (hub.cache_dir_fails ≡ some f)
IsBlamed hub emit disk spec (raises f true true) = ⊥

abbrev repo_or : {C : Type 0} → String → Option (SnapshotSpec C) → String
repo_or repo none = repo
repo_or repo (some spec) = spec.repo_id
