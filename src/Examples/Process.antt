-- ===== src/Examples/Process.antt =====
-- The theorems on the process, from its configuration to its exit, at concrete inputs.
use pipecat_local_stt_server.Prelude.{
  str_eq, if◌then◌else◌, ℕ, ◌+◌, ◌*◌, ◌<◌, true, false, none, some, List, [], ◌∷◌, ◌≡◌, refl, arith,
}
use pipecat_local_stt_server.Startup.{
  Exception, Heap, Errno, walk, is_config_error, is_download, download_prefixes,
}
use pipecat_local_stt_server.Startup.Chain.{IsClosed, IsDistinct, walk_ends}
use pipecat_local_stt_server.Startup.Wrapping.{IsPlain}
use pipecat_local_stt_server.SocketLock.{
  Stat, opens, contended, World, addr_in_use, raised, acquire_socket_lock, socket_lock_held,
  is_ours, permissions, lock_retry_interval_ms,
}
use pipecat_local_stt_server.SocketLock.Acquire.{Ticks, IsDone, acquire_decides, busy_lock}
use pipecat_local_stt_server.Serve.{Options, Script, completes, fails}
use pipecat_local_stt_server.Config.{Endpoint}
use pipecat_local_stt_server.Backends.Guard.{
  Guard, init_decode_guards, Event, decodes, ends, asks_idle, IsBalanced, run-IsBalanced,
}
use pipecat_local_stt_server.CommandLine.{
  TokenFiles, undecodable, resolve_auth_token, secrets_apart,
}
use pipecat_local_stt_server.TokenFile.{bad_encoding, refused}
use pipecat_local_stt_server.Env.{Environ}
use pipecat_local_stt_server.Backends.Guard as Decoding
use pipecat_local_stt_server.Startup.{addr_in_use}
use pipecat_local_stt_server.CommandLine.Serving.{
  Exceptions, Listening, connected, preflight_listener, made, returned, cmd_serve,
}
use pipecat_local_stt_server.CommandLine.Reports.{
  failure_of, announced, events, succeeds, is_nothing, failure_announced,
}

-- a runtime error raised from the exception 0, also by that exception itself
abbrev wrapped : Exception
wrapped = record {
  is_config_type = false;
  is_value_error = false;
  is_import_error = false;
  is_connection_or_timeout = false;
  errno = none;
  type_name = "RuntimeError";
  type_module = "builtins";
  text = "startup failed";
  in_download = false;
  model_invalid = false;
  cause = some 0;
  context = none;
}

abbrev cyclic : Heap
cyclic = λ id. wrapped

abbrev linux_errno : Errno
linux_errno = record { eaddrinuse = 98; eacces = 13 }

cyclic-IsClosed : (n : ℕ) → 0 < n → IsClosed n cyclic
cyclic-IsClosed n some_id id below = some_id

walk_ends_example : (chain : List ℕ) × (walk 4 cyclic [] (some 2) ≡ some chain) × IsDistinct chain
walk_ends_example = walk_ends 3 cyclic 2 (cyclic-IsClosed 3 (omega arith)) (omega arith)

wrapped-IsPlain : IsPlain linux_errno wrapped
unfolding is_config_error is_download download_prefixes
wrapped-IsPlain = record {
  no_config = refl;
  no_import = refl;
  not_in_use = refl;
  not_denied = refl;
  no_download = λ in_phase. ground arith;
  no_phase = refl;
  valid = refl;
}

-- 33152 is the mode 0o100600
abbrev lock_file : Stat
lock_file = record { mode = 33152; owner = 501 }

abbrev busy_world : World
busy_world = record {
  euid = 501;
  opening = opens lock_file;
  fchmod_fails = false;
  start = 1000;
  flock = λ _. contended;
  now = λ k. 1000 + k * 10;
}

busy_world-Ticks : Ticks busy_world
unfolding lock_retry_interval_ms
busy_world-Ticks = record { begins = omega arith; waits = λ k. omega arith }

acquire_decides_example : IsDone busy_world (acquire_socket_lock 26 busy_world)
acquire_decides_example = acquire_decides busy_world busy_world-Ticks

lock_file-is_ours : is_ours 501 lock_file ≡ true
unfolding is_ours
lock_file-is_ours = refl

lock_file-permissions : permissions lock_file ≡ 384
unfolding permissions
lock_file-permissions = refl

busy_lock_example :
    (socket_lock_held busy_world ≡ true)
    × (acquire_socket_lock 26 busy_world ≡ raised addr_in_use false)
busy_lock_example =
    busy_lock busy_world lock_file busy_world-Ticks refl lock_file-is_ours lock_file-permissions
      (λ i. refl)

abbrev supervised : Options
supervised = record {
  hard_exit_on_stop = true;
  has_on_fatal = true;
  has_ready = true;
  has_publish = true;
}

abbrev unready : Script
unready = record {
  config_refused = false;
  starting = completes false;
  preparing = fails;
  publish_fails = false;
  wait_cancelled = false;
  shutdown_fails = false;
  live_work_left = true;
}

abbrev ipv4 : Endpoint
ipv4 = record { socket_path = none; host = some "127.0.0.1"; port = some 8765 }

abbrev decoding : List Event
decoding = decodes true ∷ asks_idle ∷ decodes false ∷ ends ∷ []

init-IsBalanced : IsBalanced init_decode_guards
unfolding init_decode_guards
init-IsBalanced = record { counted = refl; none_waits = λ _. refl }

run-IsBalanced_example : IsBalanced (Decoding.run decoding init_decode_guards)
run-IsBalanced_example = run-IsBalanced decoding init_decode_guards init-IsBalanced

abbrev no_files : TokenFiles
no_files = record { load = λ path. refused bad_encoding; read = λ path. undecodable }

-- the environment of a server, and that of a bot, with the same client token
abbrev server_env : Environ
server_env = λ name. if str_eq name "STT_WS_TOKEN" then some "c1" else some "s3cret"

abbrev bot_env : Environ
bot_env = λ name. if str_eq name "STT_WS_TOKEN" then some "c1" else none

secrets_apart_example :
    resolve_auth_token no_files server_env none true ≡ resolve_auth_token no_files bot_env none true
secrets_apart_example = secrets_apart no_files none true server_env bot_env (refl, tt)

-- the address is in use, which the preflight of a supervised process finds
abbrev in_use : Exceptions
in_use = record {
  is_expected = λ id. true;
  is_os_error = λ id. true;
  type_name = λ id. "OSError";
  classify = λ id. some (addr_in_use, "address already in use: busy");
}

abbrev locked : Listening
locked = record {
  lock_held = true;
  is_socket = true;
  connect = connected;
  busy = 4;
  resolve_fails = none;
  binds = [];
}

failure_announced_example :
    (events (cmd_serve in_use true (preflight_listener true false locked) made returned).0
      ≡ announced in_use (failure_of (preflight_listener true false locked) made returned))
    × (succeeds (cmd_serve in_use true (preflight_listener true false locked) made returned).1
        ≡ is_nothing (failure_of (preflight_listener true false locked) made returned))
    × (events (cmd_serve in_use false (preflight_listener true false locked) made returned).0 ≡ [])
failure_announced_example =
    failure_announced in_use (preflight_listener true false locked) made returned
