-- ===== src/Scripts/Plist/Auth.antt =====
-- Whether an installed agent needs a token: scripts/read_stt_plist.py beside the server's own
-- `_resolve_auth_token` of stt_server/__main__.py.
use pipecat_local_stt_server.Prelude.{
  String, Bool, true, false, not, Option, none, some, List, [], ◌∷◌, ◌≡◌, refl, sym, ◌∙◌, ap, arith,
  str_eq, eq_iff, if◌then◌else◌, Bool-cases, inl, inr, false≢true,
}
use Prim.Native.Char.{code}
use pipecat_local_stt_server.Prelude.Text.{is_space, is_blank, is_nil, lstrip, rstrip, strip}
use pipecat_local_stt_server.Env.{Environ, env_first, is_filled}
use pipecat_local_stt_server.TokenFile.{passed}
use pipecat_local_stt_server.CommandLine.{
  TokenFiles, stripped_value, server_token, server_names, resolve_auth_token,
}
use pipecat_local_stt_server.Scripts.Plist.{
  EnvValue, text, other, Plist, stripped_text, first_token, env_token_of, env_tokens, env_token,
  is_truthy, any_truthy, get_flag, read_flags, has_auth,
}

-- the environment that launchd gives the agent: the texts of the list
abbrev pub text_value : Option EnvValue → Option String
text_value (some (text val)) = some val
text_value _ = none

abbrev pub environ_of : Option (String → Option EnvValue) → Environ
environ_of none name = none
environ_of (some env) name = text_value (env name)

lstrip-blank : (s : String) → is_blank s ≡ true → lstrip s ≡ String.[]
unfolding lstrip is_blank
lstrip-blank String.[] h = refl
lstrip-blank (String.◌∷◌ c s) h = elim (Bool-cases (is_space (code c))) [
  | inl space ↦ rw space (lstrip-blank s (rw space at h))
  | inr black ↦ absurd (false≢true (rw black at h))
]

rstrip-black :
    (c : _) (s : String) → is_space (code c) ≡ false → is_nil (rstrip (String.◌∷◌ c s)) ≡ false
unfolding rstrip
rstrip-black c s black = rw black refl

strip-black : (s : String) → is_blank s ≡ false → is_nil (strip s) ≡ false
unfolding strip lstrip is_blank
strip-black String.[] h = absurd (false≢true (sym h))
strip-black (String.◌∷◌ c s) h = elim (Bool-cases (is_space (code c))) [
  | inl space ↦ rw space (strip-black s (rw space at h))
  | inr black ↦ rw black (rstrip-black c s black)
]

nil-eq : (s : String) → str_eq s "" ≡ is_nil s
nil-eq String.[] = refl
nil-eq (String.◌∷◌ c s) = elim (Bool-cases (str_eq (String.◌∷◌ c s) "")) [
  | inl same ↦ absurd (false≢true (ap is_nil ((eq_iff (String.◌∷◌ c s) "").0 same)))
  | inr other_text ↦ other_text
]

strip-eq : (val : String) → str_eq (strip val) "" ≡ is_blank val
unfolding strip rstrip
strip-eq val = elim (Bool-cases (is_blank val)) [
  | inl blank ↦ rw blank (rw (lstrip-blank val blank) refl)
  | inr black ↦ rw black (nil-eq (strip val) ∙ strip-black val black)
]

first-value :
    (env : String → Option EnvValue) (names : List String)
    → stripped_value (env_first (environ_of (some env)) names none) ≡ first_token env names
unfolding env_first
first-value env [] = refl
first-value env (name ∷ names) = by_value (env name) (first-value env names)
  where
    by_value :
        (v : Option EnvValue)
        → stripped_value (env_first (environ_of (some env)) names none) ≡ first_token env names
        → stripped_value (
            if is_filled (text_value v)
            then text_value v
            else env_first (environ_of (some env)) names none)
          ≡ (if str_eq (stripped_text v) "" then first_token env names else stripped_text v)
    by_value none ih = ih
    by_value (some (other truth)) ih = ih
    by_value (some (text val)) ih = elim (Bool-cases (is_blank val)) [
      | inl blank ↦ rw (strip-eq val) (rw blank ih)
      | inr black ↦ rw (strip-eq val) (rw black refl)
    ]

value-env_token :
    (env : Option (String → Option EnvValue))
    → stripped_value (env_first (environ_of env) server_names none) ≡ env_token_of env
unfolding env_first env_tokens
value-env_token none = refl
value-env_token (some env) = first-value env env_tokens

-- With no token file, the token that an agent's environment gives its server, as the server resolves it,
-- is the one that the reader finds in the list: the first of the two names that is not blank,
-- stripped and checked.
pub env_token_agrees :
    (files : TokenFiles) (p : Plist)
    → get_flag "--auth-token-file" (read_flags p) ≡ ""
    → resolve_auth_token files
        (environ_of p.environment)
        (some (get_flag "--auth-token-file" (read_flags p)))
        false
      ≡ server_token (env_token p)
unfolding resolve_auth_token env_token
env_token_agrees files p no_file = rw no_file (ap server_token (value-env_token p.environment))

not-false : (b : Bool) → not b ≡ false → b ≡ true
not-false b h = ground arith

untrue-stripped : (v : Option EnvValue) → is_truthy v ≡ false → stripped_text v ≡ ""
unfolding strip lstrip rstrip
untrue-stripped none h = refl
untrue-stripped (some (other truth)) h = refl
untrue-stripped (some (text val)) h = ap strip ((eq_iff val "").0 (not-false (str_eq val "") h))

untrue-first :
    (env : String → Option EnvValue) (names : List String)
    → any_truthy (some env) names ≡ false
    → first_token env names ≡ ""
untrue-first env [] h = refl
untrue-first env (name ∷ names) h = elim (Bool-cases (is_truthy (env name))) [
  | inl true_value ↦ absurd (false≢true (sym (rw true_value at h)))
  | inr untrue ↦ rw (untrue-stripped (env name) untrue) (untrue-first env names (rw untrue at h))
]

untrue-env_token :
    (env : Option (String → Option EnvValue))
    → any_truthy env env_tokens ≡ false
    → env_token_of env ≡ ""
untrue-env_token none h = refl
untrue-env_token (some env) h = untrue-first env env_tokens h

-- Where the reader says that an agent needs no token, its server resolves none: from the list's flags and
-- environment, whatever files there are.
pub no_auth_is_open :
    (files : TokenFiles) (p : Plist)
    → has_auth p ≡ false
    → resolve_auth_token files
        (environ_of p.environment)
        (some (get_flag "--auth-token-file" (read_flags p)))
        false
      ≡ passed none
unfolding has_auth env_token
no_auth_is_open files p h = elim (Bool-cases (any_truthy p.environment env_tokens)) [
  | inl true_value ↦ absurd (false≢true (sym (rw true_value at h)))
  | inr untrue ↦
      let no_file =
        (eq_iff (get_flag "--auth-token-file" (read_flags p)) "").0
          (not-false _ (rw untrue at h)) in
      env_token_agrees files p no_file ∙ ap server_token (untrue-env_token p.environment untrue)
]
