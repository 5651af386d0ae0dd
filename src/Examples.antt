-- ===== src/Examples.antt =====
-- The theorems on connections, the socket's directory, token files, transcripts and the environment at concrete inputs.
mod Process
mod Models
mod Scripts
mod Client
use pipecat_local_stt_server.Prelude.{
  not, ℕ, String, true, false, Option, none, some, List, [], ◌∷◌, ◌≡◌, ◌↔◌, refl, str_eq,
  str_contains, length, ◌*◌, ◌≤◌, ◌<◌, if◌then◌else◌,
}
use pipecat_local_stt_server.Prelude.Text.{is_blank, is_space}
use pipecat_local_stt_server.Gate.{
  uid, socket, Request, Config, process_request, IsTrusted, admit_exact,
}
use pipecat_local_stt_server.SocketDir.{
  DirPath, Dir, Stat, Os, enforce_socket_dir_secure, is_under, to_create, make_all, walk, is_shared,
  is_sticky, is_link, GuardedChain,
}
use pipecat_local_stt_server.SocketDir.Guarded.{bound_is_guarded, is_loops, check_ends}
use pipecat_local_stt_server.TokenFile.{
  FilePath, System, Opening, opens, passed, load_token_file, check_token_file_policy, strict_token,
  acl_write_rights, is_regular, is_root_group, has_shared_bits, other_writes, group_writes,
  check_dir, check_dirs, check_file, policy_of,
}
use pipecat_local_stt_server.TokenFile as Token
use pipecat_local_stt_server.TokenFile.Private.{OpenedAs, IsSafePlace, IsToken, loaded_is_private}
use pipecat_local_stt_server.TextQuality.{Thresholds, is_degenerate, count_of}
use pipecat_local_stt_server.TextQuality.Dominance.{degenerate_exact}
use pipecat_local_stt_server.Env.{
  Environ, env_number, env_number_first, first_set_decides, is_filled, env_first,
  first_filled_decides,
}

abbrev demo_config : Config
demo_config = record {
  socket_path = some "/home/u/s.sock";
  reject_browser_origins = true;
  auth_token = some "t0k";
}

abbrev demo_request : Request
demo_request = record { origin = none; authorization = some "Bearer t0k" }

admit_exact_example :
    (process_request 501 demo_config (socket true (uid 501)) demo_request ≡ none)
    ↔ IsTrusted 501 demo_config (socket true (uid 501)) demo_request
admit_exact_example = admit_exact 501 demo_config (socket true (uid 501)) demo_request

-- a file system as the list of its directories, all private; 16832 is a directory's 0o40700
abbrev private_dir : Stat
private_dir = record { mode = 16832; owner = 501 }

abbrev demo_os : Os (List String)
demo_os = record {
  euid = 501;
  exists = λ fs path. elim path [ [] ↦ true | name ∷ up ↦ str_contains fs name ];
  mkdir_private = λ fs path. elim path [ [] ↦ none | name ∷ up ↦ some (name ∷ fs) ];
  lstat = λ fs path. elim path [
    | [] ↦ some private_dir
    | name ∷ up ↦ if str_contains fs name then some private_dir else none
  ];
}

abbrev home : DirPath
home = "u" ∷ "home" ∷ []

abbrev demo_dir : Dir
demo_dir = record { absolute = true; parts = "stt" ∷ "cache" ∷ "u" ∷ "home" ∷ [] }

bound_is_guarded_example :
    (true ≡ true)
    × (str_contains ("stt" ∷ "cache" ∷ "u" ∷ "home" ∷ []) ".." ≡ false)
    × GuardedChain demo_os home
        ("stt" ∷ "cache" ∷ "u" ∷ "home" ∷ [])
        ("stt" ∷ "cache" ∷ "u" ∷ "home" ∷ [])
unfolding enforce_socket_dir_secure is_under to_create make_all walk is_shared is_sticky is_link
bound_is_guarded_example =
    bound_is_guarded demo_os home demo_dir ("u" ∷ "home" ∷ []) ("stt" ∷ "cache" ∷ "u" ∷ "home" ∷ [])
      refl

check_ends_example :
    is_loops (enforce_socket_dir_secure demo_os home demo_dir ("u" ∷ "home" ∷ [])) ≡ false
check_ends_example = check_ends demo_os home demo_dir ("u" ∷ "home" ∷ [])

-- the canonical name is set to a blank text, its alias to a number
abbrev demo_environ : Environ
demo_environ name =
    if str_eq name "PIPECAT" then some " " else if str_eq name "KODA" then some "7" else none

abbrev demo_parse : String → Option ℕ
demo_parse val = if str_eq val "7" then some 7 else none

-- 33152 is a regular file's 0o100600, 16832 a directory's 0o40700
abbrev token_stat : Token.Stat
token_stat = record { mode = 33152; owner = 501; group = 20; device = 1; inode = 7 }

abbrev dir_stat : Token.Stat
dir_stat = record { mode = 16832; owner = 501; group = 20; device = 1; inode = 8 }

abbrev demo_system : System
demo_system = record {
  lookup = λ names. Token.found token_stat;
  lstat = λ names. some token_stat;
  stat = λ names. some dir_stat;
  realpath = λ names. some names;
  acl = λ names. some [];
}

abbrev token_path : FilePath
token_path = record { absolute = true; names = "token" ∷ "u" ∷ [] }

loaded_is_private_example :
    (opened : Token.Stat) × OpenedAs (opens token_stat (some "t0k")) opened
    × IsSafePlace demo_system 501 ("token" ∷ "u" ∷ []) opened ("token" ∷ "u" ∷ [])
    × IsToken "t0k"
unfolding load_token_file check_token_file_policy strict_token policy_of check_file check_dirs
    check_dir is_regular is_root_group has_shared_bits other_writes group_writes
loaded_is_private_example =
    loaded_is_private demo_system 501 token_path (λ t. t) (opens token_stat (some "t0k"))
      ("token" ∷ "u" ∷ [], "t0k") refl

abbrev thresholds : Thresholds
thresholds = record { ratio_num = 2; ratio_den = 5; min_tokens = 3 }

abbrev wall : List String
wall = "so" ∷ "so" ∷ "so" ∷ "-" ∷ []

degenerate_exact_example :
    (((t : String) → count_of t wall * 5 ≤ 2 * length wall)
      → is_degenerate thresholds (λ t. not (str_eq t "-")) wall ≡ false)
    × ((t : String)
        → 3 ≤ length wall
        → 2 * length wall < count_of t wall * 5
        → not (str_eq t "-") ≡ true
        → ((u : String) → str_eq u t ≡ false → count_of u wall < count_of t wall)
        → is_degenerate thresholds (λ t. not (str_eq t "-")) wall ≡ true)
degenerate_exact_example = degenerate_exact thresholds (λ t. not (str_eq t "-")) wall
