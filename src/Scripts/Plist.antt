-- ===== src/Scripts/Plist.antt =====
-- What an installed agent's property list says: scripts/read_stt_plist.py, of a list that is loaded.
pub mod Render
pub mod Words
pub mod Transport
pub mod RoundTrip
pub mod Auth
use Prim.Native.Char.{code}
use pipecat_local_stt_server.Prelude.{
  ℕ, String, Bool, true, false, not, ◌&&◌, ◌==◌, Option, none, some, List, [], ◌∷◌, str_eq,
  str_contains, is_some, if◌then◌else◌,
}
use pipecat_local_stt_server.Prelude.Text.{strip}

-- a value of `EnvironmentVariables`: a text, or another value with its truth
pub data EnvValue : Type 0 where
  text : String → EnvValue
  other : Bool → EnvValue

-- A loaded plist: `ProgramArguments` holds texts only, since `loads` refuses other ones.
pub record Plist : Type 0 where
  pub program_arguments : Option (List String)
  pub environment : Option (String → Option EnvValue)

unfoldable pub flag_names : List String
flag_names = "--host" ∷ "--port" ∷ "--socket-path" ∷ "--auth-token-file" ∷ []

unfoldable pub switches : List String
switches = "--supervised" ∷ "--help" ∷ []

-- el.startswith("--")
unfoldable pub has_dashes : String → Bool
has_dashes (String.◌∷◌ c (String.◌∷◌ d s)) = code c == 45 && code d == 45
has_dashes _ = false

-- el.partition("="): what is before the first one, and what is after it, if there is one
pub record Parts : Type 0 where
  pub name : String
  pub value : Option String

unfoldable pub partition : String → Parts
partition String.[] = record { name = String.[]; value = none }
partition (String.◌∷◌ c s) =
    let rest : Parts = partition s in
    if code c == 61
    then record { name = String.[]; value = some s }
    else record { name = String.◌∷◌ c rest.name; value = rest.value }

-- the flags of a dictionary
abbrev pub Flags : Type 0
Flags = List (String × String)

-- d.get(k, "")
unfoldable pub get_flag : String → Flags → String
get_flag k [] = ""
get_flag k ((j, v) ∷ rest) = let later = get_flag k rest in if str_eq j k then v else later

-- found[name] = value, where `name` is one of the flags; the newest entry stands first
unfoldable pub put_flag : String → String → Flags → Flags
unfolding flag_names
put_flag name value found = if str_contains flag_names name then (name, value) ∷ found else found

-- `expect` is the flag whose value comes next, or empty
pub record Reader : Type 0 where
  pub found : Flags
  pub expect : String

abbrev pub take_parts : String → Option String → String → Flags → Reader
take_parts name (some value) el found = record { found = put_flag name value found; expect = "" }
take_parts name none el found = record {
  found = found;
  expect = if str_contains switches el then "" else el;
}

unfoldable pub read_word : Reader → String → Reader
unfolding put_flag switches has_dashes partition
read_word r el =
    if not (str_eq r.expect "")
    then record { found = put_flag r.expect el r.found; expect = "" }
    else if has_dashes el
    then take_parts (partition el).name (partition el).value el r.found
    else r

unfoldable pub read_words : Reader → List String → Reader
unfolding read_word
read_words r [] = r
read_words r (el ∷ args) = read_words (read_word r el) args

unfoldable pub read_argv_flags : List String → Flags
unfolding read_words
read_argv_flags args = (read_words (record { found = []; expect = "" }) args).found

abbrev pub flags_of : Option (List String) → Flags
flags_of none = []
flags_of (some args) = read_argv_flags args

unfoldable pub read_flags : Plist → Flags
unfolding read_argv_flags
read_flags p = flags_of p.program_arguments

abbrev pub first_of : Option (List String) → String
first_of (some (arg ∷ args)) = arg
first_of _ = ""

-- `read_field`: the interpreter, or a flag, here named with its dashes
pub data Field : Type 0 where
  interpreter : Field
  flag : String → Field

unfoldable pub read_field : Plist → Field → String
unfolding read_flags get_flag
read_field p interpreter = first_of p.program_arguments
read_field p (flag name) = get_flag name (read_flags p)

unfoldable pub env_tokens : List String
env_tokens = "PIPECAT_STT_AUTH_TOKEN" ∷ "KODA_STT_AUTH_TOKEN" ∷ []

-- val.strip() of a text, and nothing of another value
abbrev pub stripped_text : Option EnvValue → String
stripped_text (some (text val)) = strip val
stripped_text _ = ""

abbrev pub first_token : (String → Option EnvValue) → List String → String
first_token env [] = ""
first_token env (name ∷ names) =
    let rest = first_token env names in
    if str_eq (stripped_text (env name)) "" then rest else stripped_text (env name)

abbrev pub env_token_of : Option (String → Option EnvValue) → String
env_token_of none = ""
env_token_of (some env) = first_token env env_tokens

unfoldable pub env_token : Plist → String
unfolding env_tokens strip
env_token p = env_token_of p.environment

abbrev pub is_truthy : Option EnvValue → Bool
is_truthy none = false
is_truthy (some (text val)) = not (str_eq val "")
is_truthy (some (other truth)) = truth

abbrev pub any_truthy : Option (String → Option EnvValue) → List String → Bool
any_truthy none names = false
any_truthy (some env) [] = false
any_truthy (some env) (name ∷ names) =
    if is_truthy (env name) then true else any_truthy (some env) names

unfoldable pub has_auth : Plist → Bool
unfolding env_tokens read_flags get_flag
has_auth p =
    if any_truthy p.environment env_tokens
    then true
    else not (str_eq (get_flag "--auth-token-file" (read_flags p)) "")

-- What there is at the path: no file, a list that cannot be read as one of an agent, or a list.
pub data Loaded : Type 0 where
  absent : Loaded
  malformed : Loaded
  loaded : Plist → Loaded

abbrev pub empty_plist : Plist
empty_plist = record { program_arguments = none; environment = none }

-- the exit status of `main` with `--has-auth`
unfoldable pub has_auth_status : Loaded → ℕ
unfolding has_auth
has_auth_status malformed = 2
has_auth_status absent = if has_auth empty_plist then 0 else 3
has_auth_status (loaded p) = if has_auth p then 0 else 3

-- `main` with `--field`: what is written, and the exit status
unfoldable pub field_output : Bool → Field → Loaded → String × ℕ
unfolding read_field
field_output strict f absent = (read_field empty_plist f, 0)
field_output strict f (loaded p) = (read_field p f, 0)
field_output strict f malformed = ("", if strict then 2 else 0)
