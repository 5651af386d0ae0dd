-- ===== src/Prefetch.antt =====
-- Fetching and checking model snapshots: stt_server/prefetch.py and stt_server/snapshot.py. The Hub
-- library is a parameter.
pub mod Fetch
pub mod Run
pub mod Blame
pub mod Progress
pub mod Cached
use pipecat_local_stt_server.Prelude.{
  ℕ, zero, suc, ◌+◌, min, String, Bool, true, false, not, ◌||◌, ◌&&◌, Option, none, some, List, [],
  ◌∷◌, ◌++◌, ◌==◌, map, any, all, length, str_eq, if◌then◌else◌,
}
use pipecat_local_stt_server.Prelude.Text.{codes}

-- `C` is the type of parsed JSON objects. `resolve` gives `none` where it raises. A `required` entry
-- is the list of its alternatives.
pub record SnapshotSpec (C : Type 0) : Type 0 where
  pub repo_id : String
  pub revision : Option String
  pub allow_patterns : Option (List String)
  pub required : List (List String)
  pub kind : String
  pub local_path : Option String
  pub resolve : Option (C → Option (List String))

-- `blobs/<id>` of a repo's cache: nothing, `<id>.incomplete` with its size, or the file itself
pub data Blob : Type 0 where
  absent : Blob
  incomplete : ℕ → Blob
  whole : Blob

-- What is read of a disk, where the reading itself does not fail: directories, the files below a path by their relative names, their bytes,
-- `config.json` as a JSON object (`none`: unreadable, or no object), and the blobs of a repo.
pub record Disk (C : Type 0) : Type 0 where
  pub is_dir : String → Bool
  pub files : String → List String
  pub snapshot_size : String → ℕ
  pub config : String → Option C
  pub blob : String → String → Blob

pub data Failure : Type 0 where
  import_error config_error other_error : Failure

pub data Snapshot : Type 0 where
  found : String → Snapshot
  refused : Failure → Snapshot

-- One call of `snapshot_download` that may fetch: its result, the disk after it, and the blobs that
-- the reporter thread saw, once for each time it woke up.
pub record Download (C : Type 0) : Type 0 where
  pub result : Snapshot
  pub disk : Disk C
  pub ticks : List (String → Blob)

-- one of `_remote_files`: the size and the blob id
pub record Remote : Type 0 where
  pub size : ℕ
  pub blob_id : Option String

pub data Listing : Type 0 where
  listed : List Remote → Listing
  unlisted : Failure → Listing

-- The Hub library, and `fnmatch` on a name and a pattern. `probe` is the download that stays local, and
-- `cache_dir_fails` what the import in `_repo_cache_dir` raises, if it does.
pub record Hub (C : Type 0) : Type 0 where
  pub download : SnapshotSpec C → Disk C → Download C
  pub probe : SnapshotSpec C → Disk C → Snapshot
  pub remote_files : SnapshotSpec C → Disk C → Listing
  pub cache_dir_fails : Option Failure
  pub matches : String → String → Bool

-- one of / \ * ? [ ] |
unfoldable pub is_special : ℕ → Bool
is_special c = c == 47 || c == 92 || c == 42 || c == 63 || c == 91 || c == 93 || c == 124

unfoldable pub is_plain : String → Bool
unfolding is_special
is_plain name =
    not (str_eq name "" || str_eq name "." || str_eq name ".." || any is_special (codes name))

unfoldable pub check_plain_filenames : List String → Option (List String)
unfolding is_plain
check_plain_filenames names = if all is_plain names then some names else none

abbrev pub singleton : String → List String
singleton name = name ∷ []

abbrev pub with_names :
    {C : Type 0} → SnapshotSpec C → Option (List String) → Option (SnapshotSpec C)
with_names spec none = none
with_names spec (some names) =
    some
      (record spec { allow_patterns = some names; required = map singleton names; resolve = none })

abbrev pub checked_names : Option (List String) → Option (List String)
checked_names none = none
checked_names (some names) = check_plain_filenames names

abbrev pub names_of : {C : Type 0} → (C → Option (List String)) → Option C → Option (List String)
names_of f none = none
names_of f (some config) = checked_names (f config)

abbrev pub resolve_by :
    {C : Type 0}
    → Disk C
    → String
    → SnapshotSpec C
    → Option (C → Option (List String))
    → Option (SnapshotSpec C)
resolve_by disk path spec none = some spec
resolve_by disk path spec (some f) = with_names spec (names_of f (disk.config path))

-- `_resolved`, `none` where it raises (an `OSError`, a `ValueError` or a `KeyError`)
unfoldable pub resolved : {C : Type 0} → Disk C → SnapshotSpec C → String → Option (SnapshotSpec C)
unfolding check_plain_filenames
resolved disk spec path = resolve_by disk path spec spec.resolve

-- `_complete`
unfoldable pub complete : {C : Type 0} → Hub C → Disk C → String → List (List String) → Bool
complete hub disk path required =
    all (λ entry. any (λ n. any (hub.matches n) entry) (disk.files path)) required

abbrev pub complete_spec : {C : Type 0} → Hub C → Disk C → String → Option (SnapshotSpec C) → Bool
complete_spec hub disk path none = false
complete_spec hub disk path (some spec) = complete hub disk path spec.required

-- `_validated`, whether it returns
unfoldable pub validated : {C : Type 0} → Hub C → Disk C → SnapshotSpec C → String → Bool
unfolding resolved complete
validated hub disk spec path = complete_spec hub disk path (resolved disk spec path)

-- a row of the check: `cached` with the path and its bytes
pub data Row : Type 0 where
  missing : Row
  cached : String → ℕ → Row

pub data Checked : Type 0 where
  row : Row → Checked
  check_raises : Failure → Checked

abbrev pub check_path : {C : Type 0} → Hub C → Disk C → SnapshotSpec C → String → Row
check_path hub disk spec path =
    if validated hub disk spec path then cached path (disk.snapshot_size path) else missing

abbrev pub check_probe : {C : Type 0} → Hub C → Disk C → SnapshotSpec C → Snapshot → Checked
check_probe hub disk spec (found path) = row (check_path hub disk spec path)
check_probe hub disk spec (refused import_error) = check_raises import_error
check_probe hub disk spec (refused config_error) = check_raises config_error
check_probe hub disk spec (refused other_error) = row missing

abbrev pub check_at : {C : Type 0} → Hub C → Disk C → SnapshotSpec C → Option String → Checked
check_at hub disk spec none = check_probe hub disk spec (hub.probe spec disk)
check_at hub disk spec (some path) =
    if disk.is_dir path then row (check_path hub disk spec path) else row missing

-- `check_spec`
unfoldable pub check_spec : {C : Type 0} → Hub C → Disk C → SnapshotSpec C → Checked
unfolding validated
check_spec hub disk spec = check_at hub disk spec spec.local_path
