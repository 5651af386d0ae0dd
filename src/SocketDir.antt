-- ===== src/SocketDir.antt =====
-- The directory of the Unix socket: `_enforce_socket_dir_secure` of stt_server/server.py.
pub mod Guarded
use pipecat_local_stt_server.Prelude.{
  ℕ, String, Bool, true, false, not, ◌&&◌, ◌||◌, Option, none, some, List, [], ◌∷◌, ◌++◌, ◌≡◌, ◌⊎◌,
  refl, sym, ap, is_some, subst, ◌≢◌, ◌∙◌, ◌==◌, ◌/◌, ◌%◌, str_eq, str_contains, if◌then◌else◌,
  if_rule, false≢true, Bool-cases, inl, inr, ==→eq, arith, eq_iff,
}

-- The names of an absolute path, the last one first; the root has none.
abbrev pub DirPath : Type 0
DirPath = List String

pub record Dir : Type 0 where
  pub absolute : Bool
  pub parts : DirPath

pub record Stat : Type 0 where
  pub mode : ℕ
  pub owner : ℕ

-- The file system, by what the code asks of it; `none` is an `OSError`.
pub record Os {ℓ} (Fs : Type ℓ) : Type ℓ where
  pub euid : ℕ
  pub exists : Fs → DirPath → Bool
  pub mkdir_private : Fs → DirPath → Option Fs
  pub lstat : Fs → DirPath → Option Stat

pub data Refusal : Type 0 where
  not_absolute has_dotdot outside_root symlink foreign_owner shared_write os_error : Refusal

pub data Outcome {ℓ} (A : Type ℓ) : Type ℓ where
  bound : A → Outcome A
  refused : Refusal → Outcome A
  loops : Outcome A  -- the walk stands at the root and asks for its parent for ever

-- `st_mode & 0o22`, `st_mode & 0o1000`, `S_ISLNK`
unfoldable pub is_shared : ℕ → Bool
is_shared mode = mode / 2 % 2 == 1 || mode / 16 % 2 == 1

unfoldable pub is_sticky : ℕ → Bool
is_sticky mode = mode / 512 % 2 == 1

unfoldable pub is_link : ℕ → Bool
is_link mode = mode / 4096 % 16 == 10

abbrev pub same_path : DirPath → DirPath → Bool
same_path [] [] = true
same_path (x ∷ xs) (y ∷ ys) = let rest = same_path xs ys in if str_eq x y then rest else false
same_path _ _ = false

-- `bind_dir == trusted_root or trusted_root in bind_dir.parents`
unfoldable pub is_under : DirPath → DirPath → Bool
is_under root [] = same_path [] root
is_under root (name ∷ up) =
    let rest = is_under root up in if same_path (name ∷ up) root then true else rest

-- the missing directories, the deepest first
unfoldable pub to_create {ℓ} : {Fs : Type ℓ} → Os Fs → Fs → DirPath → List DirPath
to_create os fs [] = if os.exists fs [] then [] else [] ∷ []
to_create os fs (name ∷ up) =
    let rest = to_create os fs up in if os.exists fs (name ∷ up) then [] else (name ∷ up) ∷ rest

abbrev pub make_after {ℓ} : {Fs : Type ℓ} → Os Fs → DirPath → Option Fs → Option Fs
make_after os path none = none
make_after os path (some fs) = os.mkdir_private fs path

-- each of them made in turn, from the outermost one
unfoldable pub make_all {ℓ} : {Fs : Type ℓ} → Os Fs → List DirPath → Fs → Option Fs
make_all os [] fs = some fs
make_all os (path ∷ paths) fs = make_after os path (make_all os paths fs)

abbrev pub check_stat : ℕ → Option Stat → Option Refusal
check_stat euid none = some os_error
check_stat euid (some st) =
    if is_link st.mode
    then some symlink
    else if not (st.owner == euid)
    then some foreign_owner
    else if not (is_sticky st.mode) && is_shared st.mode
    then some shared_write
    else none

abbrev pub or_refuse {ℓ} : {A : Type ℓ} → Option Refusal → Outcome A → Outcome A
or_refuse none next = next
or_refuse (some why) next = refused why

-- the walk from a directory up to the trusted root
unfoldable pub walk {ℓ} : {Fs : Type ℓ} → Os Fs → DirPath → Fs → DirPath → Outcome Fs
walk os root fs [] =
    or_refuse (check_stat os.euid (os.lstat fs [])) (if same_path [] root then bound fs else loops)
walk os root fs (name ∷ up) =
    let rest = walk os root fs up in
    or_refuse (check_stat os.euid (os.lstat fs (name ∷ up)))
      (if same_path (name ∷ up) root then bound fs else rest)

abbrev pub walk_made {ℓ} : {Fs : Type ℓ} → Os Fs → DirPath → DirPath → Option Fs → Outcome Fs
walk_made os root path none = refused os_error
walk_made os root path (some fs) = walk os root fs path

unfoldable pub enforce_socket_dir_secure {ℓ} :
    {Fs : Type ℓ} → Os Fs → DirPath → Dir → Fs → Outcome Fs
unfolding is_under to_create make_all walk
enforce_socket_dir_secure os root dir fs =
    if not dir.absolute
    then refused not_absolute
    else if str_contains dir.parts ".."
    then refused has_dotdot
    else if not (is_under root dir.parts)
    then refused outside_root
    else walk_made os root dir.parts (make_all os (to_create os fs dir.parts) fs)

-- A directory that no other user can replace: no link, the server's own, and not writable by
-- others unless it is sticky.
pub record IsGuarded (euid : ℕ) (o : Option Stat) : Type 0 where
  pub stat : Stat
  pub found : o ≡ some stat
  pub direct : is_link stat.mode ≡ false
  pub own : stat.owner ≡ euid
  pub private : (is_shared stat.mode ≡ false) ⊎ (is_sticky stat.mode ≡ true)

-- every directory from a path up to the trusted root is guarded
pub data GuardedChain {ℓ} {Fs : Type ℓ} (os : Os Fs) (root : DirPath) (fs : Fs)
    : DirPath → Type ℓ where
  at_root :
      {path : DirPath}
      → IsGuarded os.euid (os.lstat fs path)
      → same_path path root ≡ true
      → GuardedChain os root fs path
  below :
      {name : String} {up : DirPath}
      → IsGuarded os.euid (os.lstat fs (name ∷ up))
      → GuardedChain os root fs up
      → GuardedChain os root fs (name ∷ up)
