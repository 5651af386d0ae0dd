-- ===== src/Env.antt =====
-- Settings read from environment variables: stt_server/env.py.
use pipecat_local_stt_server.Prelude.{
  String, Bool, true, false, Option, none, some, List, [], ◌∷◌, ◌++◌, ◌≡◌, refl, is_some,
  str_contains, if◌then◌else◌,
}
use pipecat_local_stt_server.Prelude.Text.{is_blank}

-- `os.environ.get`
abbrev pub Environ : Type 0
Environ = String → Option String

unfoldable pub truthy_names : List String
truthy_names = "1" ∷ "true" ∷ "yes" ∷ "on" ∷ []

abbrev pub read_bool : (String → String) → Option String → Bool → Bool
read_bool strip_lower none default = default
read_bool strip_lower (some val) default = str_contains truthy_names (strip_lower val)

-- `strip_lower` is `val.strip().lower()`
unfoldable pub env_bool : Environ → (String → String) → String → Bool → Bool
unfolding truthy_names
env_bool get strip_lower name default = read_bool strip_lower (get name) default

-- a number's text, parsed by `float` or `int`; `none` where that raises `ValueError`
abbrev pub parse_or {ℓ} : {A : Type ℓ} → Option A → A → A
parse_or none default = default
parse_or (some x) default = x

abbrev pub read_number {ℓ} : {A : Type ℓ} → (String → Option A) → Option String → A → A
read_number parse none default = default
read_number parse (some val) default =
    if is_blank val then default else parse_or (parse val) default

-- `env_float` and `env_int`, which differ in the parser only
unfoldable pub env_number {ℓ} : {A : Type ℓ} → Environ → (String → Option A) → String → A → A
env_number get parse name default = read_number parse (get name) default

abbrev pub is_filled : Option String → Bool
is_filled none = false
is_filled (some val) = if is_blank val then false else true

unfoldable pub env_first : Environ → List String → Option String → Option String
env_first get [] default = default
env_first get (name ∷ names) default =
    let rest = env_first get names default in if is_filled (get name) then get name else rest

unfoldable pub first_present_name : Environ → List String → Option String
first_present_name get [] = none
first_present_name get (name ∷ names) =
    let rest = first_present_name get names in if is_some (get name) then some name else rest

abbrev pub resolve {ℓ} : {A : Type ℓ} → (String → A → A) → Option String → A → A
resolve read none default = default
resolve read (some name) default = read name default

-- `env_bool_first`
unfoldable pub env_bool_first : Environ → (String → String) → List String → Bool → Bool
unfolding first_present_name env_bool
env_bool_first get strip_lower names default =
    resolve (env_bool get strip_lower) (first_present_name get names) default

-- `env_float_first` and `env_int_first`
unfoldable pub env_number_first {ℓ} :
    {A : Type ℓ} → Environ → (String → Option A) → List String → A → A
unfolding first_present_name env_number
env_number_first get parse names default =
    resolve (env_number get parse) (first_present_name get names) default

-- no name of the list is set
abbrev pub AllUnset : Environ → List String → Type 0
AllUnset get [] = Unit
AllUnset get (name ∷ names) = (is_some (get name) ≡ false) × AllUnset get names

-- no name of the list is set to a text with something in it
abbrev pub AllBlank : Environ → List String → Type 0
AllBlank get [] = Unit
AllBlank get (name ∷ names) = (is_filled (get name) ≡ false) × AllBlank get names

first_present :
    (get : Environ) (before : List String) (name : String) (after : List String)
    → AllUnset get before
    → is_some (get name) ≡ true
    → first_present_name get (before ++ name ∷ after) ≡ some name
unfolding first_present_name
first_present get [] name after h there = rw there refl
first_present get (b ∷ before) name after (unset, h) there =
    rw unset (first_present get before name after h there)

-- The first name that is set decides, even where its value is blank: names behind it are not read.
pub first_set_decides {ℓ} :
    {A : Type ℓ} (get : Environ) (parse : String → Option A) (before : List String) (name : String)
    (after : List String) (default : A)
    → AllUnset get before
    → is_some (get name) ≡ true
    → env_number_first get parse (before ++ name ∷ after) default
      ≡ env_number get parse name default
unfolding env_number_first
first_set_decides get parse before name after default h there =
    rw (first_present get before name after h there) refl

-- For texts the first name that holds more than white space decides; with none, the default.
pub first_filled_decides :
    (get : Environ) (before : List String) (name : String) (after : List String)
    (default : Option String)
    → AllBlank get before
    → (is_filled (get name) ≡ true → env_first get (before ++ name ∷ after) default ≡ get name)
      × (env_first get before default ≡ default)
unfolding env_first
first_filled_decides get [] name after default h = (λ there. rw there refl, refl)
first_filled_decides get (b ∷ before) name after default (blank, h) =
    let rest = first_filled_decides get before name after default h in
    (λ there. rw blank (rest.0 there), rw blank rest.1)
