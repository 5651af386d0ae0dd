-- ===== src/Scripts/Squat.antt =====
-- Who listens on an agent's port, and what launchd says of its job: the readers of scripts/squat_check.py.
pub mod Check
pub mod Warns
pub mod Listeners
use Prim.Native.Char.{Char, code}
use text.Mathlib.Text.{starts_with}
use pipecat_local_stt_server.Prelude.{
  ℕ, String, Bool, true, false, not, ◌&&◌, ◌||◌, ◌==◌, leb, Option, none, some, is_some, List, [],
  ◌∷◌, ◌++◌, str_eq, str_contains, all, any, if◌then◌else◌,
}
use pipecat_local_stt_server.Prelude.Text.{codes, is_nil, is_blank, lstrip, strip}

-- the characters at which `str.splitlines` ends a line
abbrev pub is_break : ℕ → Bool
is_break c = (leb 10 c && leb c 13) || (leb 28 c && leb c 30) || c == 133 || c == 8232 || c == 8233

abbrev pub starts_line_feed : String → Bool
starts_line_feed String.[] = false
starts_line_feed (String.◌∷◌ c s) = code c == 10

abbrev pub onto_first : Char → List String → List String
onto_first c [] = String.◌∷◌ c String.[] ∷ []
onto_first c (line ∷ lines) = String.◌∷◌ c line ∷ lines

unfoldable pub splitlines : String → List String
splitlines String.[] = []
splitlines (String.◌∷◌ c s) =
    let rest = splitlines s in
    if code c == 13 && starts_line_feed s
    then rest
    else if is_break (code c)
    then String.[] ∷ rest
    else onto_first c rest

-- What a call of lsof or launchctl gives: it could not run, or its status and what it wrote.
pub data Ran : Type 0 where
  could_not_run : Ran
  exited : ℕ → String → String → Ran

unfoldable pub only_warnings : String → Bool
unfolding splitlines is_blank strip
only_warnings stderr =
    all (λ line. is_blank line || starts_with (strip line) "lsof: WARNING") (splitlines stderr)

unfoldable pub lsof_output : Ran → Option String
unfolding only_warnings
lsof_output could_not_run = none
lsof_output (exited status stdout stderr) =
    if status == 0 || (status == 1 && only_warnings stderr) then some stdout else none

-- addr.rsplit(":", 1)[0], if there is a colon
abbrev pub or_colon : Char → Option String → Option String
or_colon c (some before) = some (String.◌∷◌ c before)
or_colon c none = if code c == 58 then some String.[] else none

abbrev pub before_colon : String → Option String
before_colon String.[] = none
before_colon (String.◌∷◌ c s) = or_colon c (before_colon s)

abbrev pub or_whole : Option String → String → String
or_whole none whole = whole
or_whole (some part) whole = part

-- .strip("[]")
abbrev pub is_bracket : ℕ → Bool
is_bracket c = c == 91 || c == 93

unfoldable pub lstrip_brackets : String → String
lstrip_brackets String.[] = String.[]
lstrip_brackets (String.◌∷◌ c s) =
    let rest = lstrip_brackets s in if is_bracket (code c) then rest else String.◌∷◌ c s

unfoldable pub rstrip_brackets : String → String
rstrip_brackets String.[] = String.[]
rstrip_brackets (String.◌∷◌ c s) =
    let rest = rstrip_brackets s in
    if is_bracket (code c) && is_nil rest then String.[] else String.◌∷◌ c rest

-- `lower` is `str.lower`
unfoldable pub norm : (String → String) → String → String
unfolding lstrip_brackets rstrip_brackets strip
norm lower addr = lower (rstrip_brackets (lstrip_brackets (strip addr)))

unfoldable pub wildcards : List String
wildcards = "*" ∷ "::" ∷ "0.0.0.0" ∷ "" ∷ []

abbrev pub is_same_host : String → String → Bool
is_same_host want base =
    if str_eq want "localhost"
    then str_contains ("127.0.0.1" ∷ "::1" ∷ []) base
    else str_eq base want

unfoldable pub address_matches : (String → String) → String → Option String → Bool
unfolding norm wildcards
address_matches lower addr none = true
address_matches lower addr (some host) =
    let base = norm lower (or_whole (before_colon addr) addr) in
    let want = norm lower host in
    if str_contains wildcards want || str_contains wildcards base
    then true
    else is_same_host want base

-- A line of `-Fpn` output: a process, one of its addresses, or another field.
pub data LsofLine : Type 0 where
  process : String → LsofLine
  address : String → LsofLine
  other_field : LsofLine

unfoldable pub line_of : String → LsofLine
line_of String.[] = other_field
line_of (String.◌∷◌ c s) =
    if code c == 112 then process s else if code c == 110 then address s else other_field

-- the state of `_parse`
pub record Listing : Type 0 where
  pub pids : List String
  pub cur : Option String
  pub addrs : List String

abbrev pub add_pid : String → List String → List String
add_pid pid pids = if str_contains pids pid then pids else pids ++ (pid ∷ [])

-- `flush`
abbrev pub flush : (String → Bool) → Listing → List String
flush matches listing = elim listing.cur [
  | none ↦ listing.pids
  | some pid ↦ if any matches listing.addrs then add_pid pid listing.pids else listing.pids
]

abbrev pub take_line : (String → Bool) → Listing → LsofLine → Listing
take_line matches listing (process pid) = record {
  pids = flush matches listing;
  cur = some pid;
  addrs = [];
}
take_line matches listing (address addr) = record {
  pids = listing.pids;
  cur = listing.cur;
  addrs = listing.addrs ++ (addr ∷ []);
}
take_line matches listing other_field = listing

unfoldable pub take_lines : (String → Bool) → Listing → List String → List String
unfolding line_of
take_lines matches listing [] = flush matches listing
take_lines matches listing (line ∷ lines) =
    take_lines matches (take_line matches listing (line_of line)) lines

unfoldable pub parse : (String → String) → String → Option String → List String
unfolding splitlines take_lines address_matches
parse lower out host =
    take_lines (λ addr. address_matches lower addr host)
      (record { pids = []; cur = none; addrs = [] }) (splitlines out)

-- what follows a prefix
abbrev pub after_prefix : String → String → Option String
after_prefix String.[] s = some s
after_prefix (String.◌∷◌ c prefix) String.[] = none
after_prefix (String.◌∷◌ c prefix) (String.◌∷◌ d s) =
    let rest = after_prefix prefix s in if code c == code d then rest else none

abbrev pub digits_of : String → String
digits_of String.[] = String.[]
digits_of (String.◌∷◌ c s) =
    let rest = digits_of s in
    if leb 48 (code c) && leb (code c) 57 then String.◌∷◌ c rest else String.[]

abbrev pub unless_empty : String → Option String
unless_empty s = if is_nil s then none else some s

-- `^\s*pid = (\d+)` at one place, and its first match at the start of a line
abbrev pub number_after : Option String → Option String
number_after none = none
number_after (some s) = unless_empty (digits_of s)

unfoldable pub number_at : String → String → Option String
unfolding lstrip
number_at prefix s = number_after (after_prefix prefix (lstrip s))

abbrev pub first_some : Option String → Option String → Option String
first_some (some x) later = some x
first_some none later = later

unfoldable pub number_below : String → String → Option String
unfolding number_at
number_below prefix String.[] = none
number_below prefix (String.◌∷◌ c s) =
    let below = number_below prefix s in
    if code c == 10 then first_some (number_at prefix s) below else below

unfoldable pub search_number : String → String → Option String
unfolding number_at number_below
search_number prefix text = first_some (number_at prefix text) (number_below prefix text)

-- Is the text in the other one?
unfoldable pub is_within : String → String → Bool
is_within part String.[] = is_nil part
is_within part (String.◌∷◌ c s) =
    let later = is_within part s in starts_with (String.◌∷◌ c s) part || later

-- `JobPrint`, without the arguments of the job
pub record JobPrint : Type 0 where
  pub loaded : Bool
  pub pid : Option String
  pub runs : Option String

unfoldable pub runs_readable : Option String → Bool
runs_readable none = false
runs_readable (some runs) = not (str_eq runs "") && not (str_eq runs "unknown")

-- A running job without a counter has an unknown one.
abbrev pub known_runs : Option String → Option String → Option String
known_runs (some pid) none = some "unknown"
known_runs pid runs = runs

unfoldable pub parse_print : (String → String) → ℕ → String → Option JobPrint
unfolding search_number is_within
parse_print lower status text =
    if status == 0
    then some (record {
      loaded = true;
      pid = search_number "pid = " text;
      runs = known_runs (search_number "pid = " text) (search_number "runs = " text);
    })
    else if status == 113 || is_within "could not find service" (lower text)
    then some (record { loaded = false; pid = none; runs = none })
    else none
