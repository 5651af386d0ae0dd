-- ===== src/TokenFile.antt =====
-- Bearer tokens from files: the token-file policy of stt_server/auth.py.
pub mod Private
use pipecat_local_stt_server.Prelude.{
  ℕ, String, Bool, true, false, not, ◌&&◌, ◌||◌, Option, none, some, List, [], ◌∷◌, ◌==◌, ◌/◌, ◌%◌,
  any, all, leb, str_eq, str_contains, if◌then◌else◌,
}
use pipecat_local_stt_server.Prelude.Text.{codes}

-- what `os.stat` tells of a file
pub record Stat : Type 0 where
  pub mode : ℕ
  pub owner : ℕ
  pub group : ℕ
  pub device : ℕ
  pub inode : ℕ

-- The names of an absolute path, the last one first; the root has none.
abbrev pub Names : Type 0
Names = List String

pub record FilePath : Type 0 where
  pub absolute : Bool
  pub names : Names

-- `os.lstat` of the given path: a result, `FileNotFoundError`, or another `OSError`
pub data Looked : Type 0 where
  found : Stat → Looked
  missing : Looked
  unreadable : Looked

-- The system, by what the code asks of it. `acl` lists the rights of each allow entry that
-- `ls -lde` shows (no entry away from macOS); `none` is a failure of that command. Elsewhere
-- `none` is an `OSError`.
pub record System : Type 0 where
  pub lookup : Names → Looked
  pub lstat : Names → Option Stat
  pub stat : Names → Option Stat
  pub realpath : Names → Option Names
  pub acl : Names → Option (List (List String))

pub data Refusal : Type 0 where
  not_absolute not_regular not_inspected is_symlink bad_parent other_file foreign_owner : Refusal
  open_mode file_acl dir_not_inspected dir_owner dir_writable dir_acl : Refusal
  cannot_open bad_encoding empty_token bad_characters : Refusal

unfoldable pub acl_write_rights : List String
acl_write_rights =
    "write" ∷ "append" ∷ "add_file" ∷ "add_subdirectory" ∷ "delete" ∷ "delete_child" ∷ "writeattr"
    ∷ "writeextattr" ∷ "writesecurity" ∷ "chown" ∷ []

-- `S_ISREG`, `S_ISLNK`, and the tests of permission bits
unfoldable pub is_regular : ℕ → Bool
is_regular mode = mode / 4096 % 16 == 8

unfoldable pub is_link : ℕ → Bool
is_link mode = mode / 4096 % 16 == 10

unfoldable pub has_shared_bits : ℕ → Bool
has_shared_bits mode = not (mode % 64 == 0)

unfoldable pub other_writes : ℕ → Bool
other_writes mode = mode / 2 % 2 == 1

unfoldable pub group_writes : ℕ → Bool
group_writes mode = mode / 16 % 2 == 1

-- `_ROOT_GROUPS`: wheel and admin
unfoldable pub is_root_group : ℕ → Bool
is_root_group gid = gid == 0 || gid == 80

-- `_acl_allows`, with an unreadable list taken for an allow entry as both callers do
abbrev pub acl_allows : Option (List String) → Option (List (List String)) → Bool
acl_allows want none = true
acl_allows none (some entries) = any (λ rights. true) entries
acl_allows (some want) (some entries) = any (any (str_contains want)) entries

abbrev pub first_refusal : Option Refusal → Option Refusal → Option Refusal
first_refusal (some why) next = some why
first_refusal none next = next

abbrev pub refuse_if : Bool → Refusal → Option Refusal
refuse_if test why = if test then some why else none

abbrev pub check_dir_stat : ℕ → Option Stat → Option Refusal
check_dir_stat me none = some dir_not_inspected
check_dir_stat me (some st) =
    first_refusal (refuse_if (not (st.owner == me || st.owner == 0)) dir_owner) (
      refuse_if
        (other_writes st.mode
          || (group_writes st.mode && not (st.owner == 0 && is_root_group st.group)))
        dir_writable)

unfoldable pub check_dir : System → ℕ → Names → Option Refusal
unfolding other_writes group_writes is_root_group acl_write_rights
check_dir sys me dir =
    first_refusal (check_dir_stat me (sys.stat dir))
      (refuse_if (acl_allows (some acl_write_rights) (sys.acl dir)) dir_acl)

-- every directory up to the root
unfoldable pub check_dirs : System → ℕ → Names → Option Refusal
unfolding check_dir
check_dirs sys me [] = check_dir sys me []
check_dirs sys me (name ∷ up) =
    let rest = check_dirs sys me up in first_refusal (check_dir sys me (name ∷ up)) rest

abbrev pub same_file : Stat → Option Stat → Bool
same_file opened none = false
same_file opened (some st) =
    is_regular st.mode && (st.device == opened.device && st.inode == opened.inode)

-- the checks of the file itself, once its parent is resolved
unfoldable pub check_file : System → ℕ → Stat → Names → Option Refusal
unfolding is_regular has_shared_bits
check_file sys me opened resolved =
    first_refusal (refuse_if (not (same_file opened (sys.lstat resolved))) other_file) (
      first_refusal (refuse_if (not (opened.owner == me)) foreign_owner) (
        first_refusal (refuse_if (has_shared_bits opened.mode) open_mode)
          (refuse_if (acl_allows none (sys.acl resolved)) file_acl)))

abbrev pub dirname : Names → Names
dirname [] = []
dirname (name ∷ up) = up

-- the last name of the first path, under the second one
abbrev pub rejoin : Names → Names → Names
rejoin [] parent = parent
rejoin (name ∷ up) parent = name ∷ parent

pub data Checked {ℓ} (A : Type ℓ) : Type ℓ where
  passed : A → Checked A
  refused : Refusal → Checked A

abbrev pub pass_or : {A : Type 0} → Option Refusal → A → Checked A
pass_or none x = passed x
pass_or (some why) x = refused why

abbrev pub policy_under : System → ℕ → Stat → Names → Option Names → Checked Names
policy_under sys me opened names none = refused bad_parent
policy_under sys me opened names (some parent) =
    pass_or
      (first_refusal (check_file sys me opened (rejoin names parent)) (check_dirs sys me parent))
      (rejoin names parent)

unfoldable pub policy_of : System → ℕ → Names → Stat → Checked Names
unfolding check_file check_dirs is_regular
policy_of sys me names opened =
    if not (is_regular opened.mode)
    then refused not_regular
    else policy_under sys me opened names (sys.realpath (dirname names))

abbrev pub policy_looked : System → ℕ → Names → Looked → Checked Names
policy_looked sys me names (found st) =
    if is_link st.mode then refused is_symlink else policy_of sys me names st
policy_looked sys me names missing = refused not_regular
policy_looked sys me names unreadable = refused not_inspected

-- `opened`: the `fstat` of the file where the caller opened it
abbrev pub policy_opened : System → ℕ → Names → Option Stat → Checked Names
policy_opened sys me names none = policy_looked sys me names (sys.lookup names)
policy_opened sys me names (some st) = policy_of sys me names st

unfoldable pub check_token_file_policy : System → ℕ → FilePath → Option Stat → Checked Names
unfolding policy_of is_link
check_token_file_policy sys me path opened =
    if not path.absolute then refused not_absolute else policy_opened sys me path.names opened

abbrev pub is_visible : ℕ → Bool
is_visible c = leb 33 c && leb c 126

-- `_strict_token` with `check_token_chars`
unfoldable pub strict_token : String → Checked String
strict_token token =
    if str_eq token ""
    then refused empty_token
    else if not (all is_visible (codes token))
    then refused bad_characters
    else passed token

-- `os.open` with `O_NOFOLLOW`: the file's `fstat` and its text (`none`: no UTF-8, as read through
-- the same descriptor), or the error
pub data Opening : Type 0 where
  opens : Stat → Option String → Opening
  no_file : Opening
  follows_link : Opening
  open_fails : Opening

abbrev pub with_path : Names → Checked String → Checked (Names × String)
with_path resolved (passed token) = passed (resolved, token)
with_path resolved (refused why) = refused why

abbrev pub read_text : (String → String) → Option String → Names → Checked (Names × String)
read_text strip none resolved = refused bad_encoding
read_text strip (some t) resolved = with_path resolved (strict_token (strip t))

abbrev pub read_checked :
    (String → String) → Option String → Checked Names → Checked (Names × String)
read_checked strip t (refused why) = refused why
read_checked strip t (passed resolved) = read_text strip t resolved

abbrev pub load_opened :
    System → ℕ → FilePath → (String → String) → Opening → Checked (Names × String)
load_opened sys me path strip (opens st t) =
    read_checked strip t (check_token_file_policy sys me path (some st))
load_opened sys me path strip no_file = refused not_regular
load_opened sys me path strip follows_link = refused is_symlink
load_opened sys me path strip open_fails = refused cannot_open

unfoldable pub load_token_file :
    System → ℕ → FilePath → (String → String) → Opening → Checked (Names × String)
unfolding check_token_file_policy strict_token
load_token_file sys me path strip opening =
    if not path.absolute then refused not_absolute else load_opened sys me path strip opening
