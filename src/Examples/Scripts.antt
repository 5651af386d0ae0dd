-- ===== src/Examples/Scripts.antt =====
-- The theorems on the scripts at concrete inputs.
use pipecat_local_stt_server.Prelude.{
  ℕ, suc, String, true, false, Option, none, some, List, [], ◌∷◌, ◌≡◌, ◌↔◌, refl, ap, zero, map,
  str_eq, eq_iff, inl, inr, Bool-cases, false≢true, str_contains, if◌then◌else◌,
}
use pipecat_local_stt_server.Prelude.Text.{is_nil}
use pipecat_local_stt_server.Env.{Environ}
use pipecat_local_stt_server.TokenFile.{bad_encoding, refused, passed}
use pipecat_local_stt_server.CommandLine.{TokenFiles, undecodable, resolve_auth_token}
use pipecat_local_stt_server.Scripts.Benchmark.{errors}
use pipecat_local_stt_server.Scripts.Benchmark.Distance.{IsDistance, errors_minimal}
use pipecat_local_stt_server.Scripts.Plist.{
  text, Plist, flag_names, switches, has_dashes, partition, get_flag, put_flag, read_word,
  read_words, read_argv_flags, read_flags, env_tokens, has_auth,
}
use pipecat_local_stt_server.Scripts.Plist.Auth.{environ_of, no_auth_is_open}
use pipecat_local_stt_server.Scripts.Plist.Render.{render}
use pipecat_local_stt_server.Scripts.Plist.RoundTrip.{IsNumeric, IsReadBack, render-IsReadBack}
use pipecat_local_stt_server.Scripts.Plist.Transport.{Ensures}
use pipecat_local_stt_server.Scripts.Squat.{
  Ran, exited, line_of, splitlines, address_matches, parse, parse_print,
}
use pipecat_local_stt_server.Scripts.Squat.Check.{Answers, exit_code, main}
use pipecat_local_stt_server.Scripts.Squat.Warns.{IsSquattedJob, warns_exact}
use pipecat_local_stt_server.Scripts.Squat.Listeners.{listens, parse_exact}

abbrev said : List String
said = "the" ∷ "cat" ∷ "sat" ∷ []

abbrev heard : List String
heard = "a" ∷ "cat" ∷ "has" ∷ "sat" ∷ []

errors_minimal_example : IsDistance said heard (errors said heard)
errors_minimal_example = errors_minimal said heard

abbrev no_files : TokenFiles
no_files = record { load = λ path. refused bad_encoding; read = λ path. undecodable }

-- an agent without a token: a path in its environment, an address in its arguments
abbrev open_plist : Plist
open_plist = record {
  program_arguments = some ("/py" ∷ "-m" ∷ "stt_server" ∷ "--port" ∷ "8765" ∷ []);
  environment = some (λ name. if str_eq name "PATH" then some (text "/bin") else none);
}

open_plist-auth : has_auth open_plist ≡ false
unfolding has_auth read_flags read_argv_flags read_words read_word put_flag get_flag flag_names
    switches has_dashes partition env_tokens
open_plist-auth = refl

no_auth_is_open_example :
    resolve_auth_token no_files
      (environ_of open_plist.environment)
      (some (get_flag "--auth-token-file" (read_flags open_plist)))
      false
    ≡ passed none
no_auth_is_open_example = no_auth_is_open no_files open_plist open_plist-auth

-- numbers in strokes
abbrev bars : ℕ → String
bars zero = String.[]
bars (suc n) = String.◌∷◌ "|" (bars n)

abbrev tally : ℕ → String
tally n = String.◌∷◌ "|" (bars n)

abbrev strokes : String → ℕ
strokes String.[] = zero
strokes (String.◌∷◌ c s) = suc (strokes s)

abbrev count_strokes : String → Option ℕ
count_strokes String.[] = none
count_strokes (String.◌∷◌ c s) = some (strokes s)

strokes-bars : (n : ℕ) → strokes (bars n) ≡ n
strokes-bars zero = refl
strokes-bars (suc n) = ap suc (strokes-bars n)

tally-shown : (n : ℕ) → str_eq (tally n) "" ≡ false
tally-shown n = elim (Bool-cases (str_eq (tally n) "")) [
  | inl empty ↦ absurd (false≢true (ap is_nil ((eq_iff (tally n) "").0 empty)))
  | inr filled ↦ filled
]

tally-IsNumeric : IsNumeric tally count_strokes
tally-IsNumeric = record { back = λ n. ap some (strokes-bars n); shown = tally-shown }

abbrev agent_env : Environ
agent_env name =
    if str_eq name "PORT"
    then some "8"
    else if str_eq name "BACKEND"
    then some "echo"
    else if str_eq name "MODEL"
    then some "m"
    else if str_contains ("PYTHON" ∷ "REPO_ROOT" ∷ "HOME" ∷ "LOG_DIR" ∷ "PLIST_DST" ∷ []) name
    then some "/x"
    else none

render-IsReadBack_example :
    Ensures (λ a. IsReadBack agent_env tally count_strokes a.plist) (render tally agent_env)
render-IsReadBack_example = render-IsReadBack tally count_strokes tally-IsNumeric agent_env

-- lsof lists process 7 on the port, and launchd's job 5 does not move
abbrev seen : Ran
seen = exited 0 "p7\nn127.0.0.1:8765\n" ""

abbrev job : Ran
job = exited 0 "\tpid = 5\n\truns = 2\n" ""

abbrev squatted : Answers
squatted = record { first = seen; before = job; second = seen; after = job }

abbrev same : String → String
same s = s

warns_exact_example :
    (exit_code (main same "127.0.0.1" 0 "\tpid = 5\n" true squatted) ≡ 3)
    ↔ IsSquattedJob same (some "127.0.0.1") (parse_print same 0 "\tpid = 5\n") true squatted
warns_exact_example = warns_exact same "127.0.0.1" 0 "\tpid = 5\n" true squatted

parse_exact_example :
    str_contains (parse same "p7\nn127.0.0.1:8765\n" (some "127.0.0.1")) "7"
    ≡ listens
        (λ addr. address_matches same addr (some "127.0.0.1"))
        none
        (map line_of (splitlines "p7\nn127.0.0.1:8765\n"))
        "7"
parse_exact_example = parse_exact same "p7\nn127.0.0.1:8765\n" (some "127.0.0.1") "7"
