-- ===== src/Startup.antt =====
-- How a failed start is classified: stt_server/errors.py, and `_walk` and `classify_startup_error`
-- of stt_server/supervise.py.
pub mod Chain
pub mod Wrapping
use Prim.Native.String.{◌++◌ as str_append}
use text.Mathlib.Text.{starts_with}
use pipecat_local_stt_server.Prelude.{
  ℕ, zero, suc, String, Bool, true, false, ◌&&◌, ◌||◌, Option, none, some, List, [], ◌∷◌, str_eq,
  str_contains, ◌==◌, if◌then◌else◌, contains, any, is_some,
}

-- What the code reads of an exception. Exceptions are numbered; `cause` and `context` name others.
pub record Exception : Type 0 where
  pub is_config_type : Bool
  pub is_value_error : Bool
  pub is_import_error : Bool
  pub is_connection_or_timeout : Bool
  pub errno : Option ℕ  -- of an `OSError`
  pub type_name : String
  pub type_module : String
  pub text : String  -- `str(exc)`
  pub in_download : Bool
  pub model_invalid : Bool
  pub cause : Option ℕ
  pub context : Option ℕ

abbrev pub Heap : Type 0
Heap = ℕ → Exception

unfoldable pub is_config_error : Exception → Bool
is_config_error e =
    e.is_config_type || (e.is_value_error && str_contains ("HFValidationError" ∷ []) e.type_name)

abbrev pub or_else : Option ℕ → Option ℕ → Option ℕ
or_else none o = o
or_else (some a) o = some a

abbrev pub next_of : Heap → ℕ → Option ℕ
next_of heap id = or_else (heap id).cause (heap id).context

abbrev pub prepend : ℕ → Option (List ℕ) → Option (List ℕ)
prepend id none = none
prepend id (some ids) = some (id ∷ ids)

-- `_walk`; `none` is a lack of fuel
unfoldable pub walk : ℕ → Heap → List ℕ → Option ℕ → Option (List ℕ)
walk fuel heap seen none = some []
walk zero heap seen (some id) = none
walk (suc fuel) heap seen (some id) =
    let rest = walk fuel heap (id ∷ seen) (next_of heap id) in
    if contains seen id then some [] else prepend id rest

pub data Code : Type 0 where
  module_not_found addr_in_use access_denied config model_download model_invalid backend_start :
      Code

abbrev pub same_errno : ℕ → Option ℕ → Bool
same_errno n none = false
same_errno n (some m) = m == n

-- `EADDRINUSE` and `EACCES` are the platform's numbers.
pub record Errno : Type 0 where
  pub eaddrinuse : ℕ
  pub eacces : ℕ

unfoldable pub download_prefixes : List String
download_prefixes = "huggingface_hub" ∷ "requests" ∷ "urllib3" ∷ "hf_xet" ∷ "httpx" ∷ []

unfoldable pub is_download : Bool → Exception → Bool
unfolding download_prefixes
is_download in_phase e =
    any (starts_with e.type_module) download_prefixes || (in_phase && e.is_connection_or_timeout)

abbrev pub first : (Exception → Bool) → Heap → List ℕ → Option ℕ
first test heap [] = none
first test heap (id ∷ ids) =
    let rest = first test heap ids in if test (heap id) then some id else rest

abbrev pub or_name : Exception → String
or_name e = if str_eq e.text "" then e.type_name else e.text

-- which test decides, and the exception that it holds for where the message names it
pub data Verdict : Type 0 where
  import_fails config_fails invalid other : Verdict
  in_use denied download : ℕ → Verdict

abbrev pub or_next : Option ℕ → (ℕ → Verdict) → Verdict → Verdict
or_next none found next = next
or_next (some id) found next = found id

-- the tests in their order, over a chain; `in_phase`: a download was running
unfoldable pub judge_in : Bool → Errno → Heap → List ℕ → Verdict
unfolding is_config_error is_download
judge_in in_phase errno heap chain =
    or_next (first (λ e. e.is_import_error) heap chain) (λ id. import_fails)
      (or_next (first (λ e. same_errno errno.eaddrinuse e.errno) heap chain) in_use (
        or_next (first (λ e. same_errno errno.eacces e.errno) heap chain) denied (
          or_next (first is_config_error heap chain) (λ id. config_fails)
            (or_next (first (is_download in_phase) heap chain) download
              (or_next (first (λ e. e.model_invalid) heap chain) (λ id. invalid) other)))))

unfoldable pub judge : Errno → Heap → List ℕ → Verdict
unfolding judge_in
judge errno heap chain = judge_in (is_some (first (λ e. e.in_download) heap chain)) errno heap chain

abbrev pub code_of : Verdict → Code
code_of import_fails = module_not_found
code_of (in_use id) = addr_in_use
code_of (denied id) = access_denied
code_of config_fails = config
code_of (download id) = model_download
code_of invalid = model_invalid
code_of other = backend_start

unfoldable pub message_of : Heap → String → Verdict → String
message_of heap message (in_use id) = str_append "address already in use: " (heap id).text
message_of heap message (denied id) = str_append "permission denied: " (heap id).text
message_of heap message (download id) = str_append "model download failed: " (heap id).text
message_of heap message invalid = str_append "model snapshot is unusable: " message
message_of heap message _ = message

abbrev pub classified : Errno → Heap → ℕ → Option (List ℕ) → Option (Code × String)
classified errno heap id none = none
classified errno heap id (some chain) =
    let v = judge errno heap chain in some (code_of v, message_of heap (or_name (heap id)) v)

-- `classify_startup_error`, on enough fuel for the walk
unfoldable pub classify_startup_error : ℕ → Errno → Heap → ℕ → Option (Code × String)
unfolding walk judge message_of
classify_startup_error fuel errno heap id = classified errno heap id (walk fuel heap [] (some id))
