-- ===== src/Backends/Registry.antt =====
-- The registry of `--backend` names: stt_server/backends/__init__.py.
use pipecat_local_stt_server.Prelude.{
  String, Bool, true, false, Option, none, some, is_some, List, [], ◌∷◌, ◌≡◌, refl, sym, ap, str_eq,
  if◌then◌else◌, false≢true, Bool-cases, inl, inr, subst,
}

unfoldable pub default_mlx_model : String
default_mlx_model = "mlx-community/whisper-large-v3-turbo"

unfoldable pub default_parakeet_model : String
default_parakeet_model = "mlx-community/parakeet-tdt-0.6b-v3"

unfoldable pub default_nemotron_model : String
default_nemotron_model = "mlx-community/nemotron-3.5-asr-streaming-0.6b"

unfoldable pub default_kyutai_model : String
default_kyutai_model = "kyutai/stt-1b-en_fr-mlx"

-- d[k], for a literal dict
unfoldable pub find {ℓ} : {A : Type ℓ} → List (String × A) → String → Option A
find [] k = none
find ((j, v) ∷ rest) k = let later = find rest k in if str_eq j k then some v else later

unfoldable pub pinned_revisions : List (String × String)
unfolding default_mlx_model default_kyutai_model default_parakeet_model default_nemotron_model
pinned_revisions =
    (default_mlx_model, "a4aaeec0636e6fef84abdcbe3544cb2bf7e9f6fb")
    ∷ (default_kyutai_model, "2b995724eef1e964b7ccb6a762b35a665c4abe0d")
    ∷ (default_parakeet_model, "ed2b7e8c15f9aaa0b5772e2efb986255eaef7e15")
    ∷ (default_nemotron_model, "e550040c0478027ed679b2b6b0d055502c103663")
    ∷ []

-- `None` or an empty text is no model
unfoldable pub pinned_revision : Option String → Option String
unfolding find pinned_revisions
pinned_revision none = none
pinned_revision (some model) = if str_eq model "" then none else find pinned_revisions model

pub record BackendEntry : Type 0 where
  pub module_path : Option String
  pub class_name : Option String
  pub default_model : Option String
  pub local_model_paths : Bool

abbrev entry : String → String → String → Bool → BackendEntry
entry path name model local = record {
  module_path = some path;
  class_name = some name;
  default_model = some model;
  local_model_paths = local;
}

unfoldable pub backends : List (String × BackendEntry)
unfolding default_mlx_model default_kyutai_model default_parakeet_model default_nemotron_model
backends =
    (
      "echo",
      record {
        module_path = none;
        class_name = none;
        default_model = none;
        local_model_paths = true;
      },
    )
    ∷ ("mlx", entry "stt_server.backends.mlx_whisper" "MLXWhisperBackend" default_mlx_model true)
    ∷ (
      "parakeet",
      entry "stt_server.backends.parakeet" "ParakeetBackend" default_parakeet_model true,
    )
    ∷ (
      "nemotron",
      entry "stt_server.backends.nemotron" "NemotronBackend" default_nemotron_model true,
    )
    ∷ ("kyutai", entry "stt_server.backends.kyutai" "KyutaiBackend" default_kyutai_model false)
    ∷ []

pub data Imported {ℓ} (M : Type ℓ) : Type ℓ where
  loaded : String → BackendEntry → Option M → Imported M
  unknown_backend : Imported M
  import_fails : Imported M

abbrev pub with_module {ℓ} : {M : Type ℓ} → String → BackendEntry → Option M → Imported M
with_module name e none = import_fails
with_module name e (some m) = loaded name e (some m)

abbrev pub import_path {ℓ} :
    {M : Type ℓ} → (String → Option M) → String → BackendEntry → Option String → Imported M
import_path load name e none = loaded name e none
import_path load name e (some path) = with_module name e (load path)

abbrev pub import_entry {ℓ} :
    {M : Type ℓ} → (String → Option M) → String → Option BackendEntry → Imported M
import_entry load name none = unknown_backend
import_entry load name (some e) = import_path load name e e.module_path

-- `load` is `importlib.import_module`, `none` where it raises
unfoldable pub import_backend {ℓ} : {M : Type ℓ} → (String → Option M) → String → Imported M
unfolding find backends
import_backend load name = import_entry load name (find backends name)

-- What every entry keeps to: the echo backend has neither module, class nor model, and the others
-- have all three, with a default model that is pinned to a revision.
abbrev pub IsRegular : BackendEntry → Type 0
IsRegular e =
    (is_some e.class_name ≡ is_some e.module_path)
    × (is_some e.default_model ≡ is_some e.module_path)
    × (is_some (pinned_revision e.default_model) ≡ is_some e.module_path)

abbrev AllRegular : List (String × BackendEntry) → Type 0
AllRegular [] = Unit
AllRegular ((name, e) ∷ rest) = IsRegular e × AllRegular rest

backends-regular : AllRegular backends
unfolding backends pinned_revision pinned_revisions find default_mlx_model default_kyutai_model
    default_parakeet_model default_nemotron_model
backends-regular = (
  (refl, refl, refl),
  ((refl, refl, refl), ((refl, refl, refl), ((refl, refl, refl), ((refl, refl, refl), tt)))),
)

of_found : Option BackendEntry → BackendEntry → BackendEntry
of_found none d = d
of_found (some e) d = e

find-IsRegular :
    (rest : List (String × BackendEntry)) (name : String) (e : BackendEntry)
    → AllRegular rest
    → find rest name ≡ some e
    → IsRegular e
unfolding find of_found
find-IsRegular [] name e all h = absurd (false≢true (ap is_some h))
find-IsRegular ((j, v) ∷ rest) name e (one, all) h = elim (Bool-cases (str_eq j name)) [
  | inl here ↦ subst IsRegular (ap (λ o. of_found o v) (rw here at h)) one
  | inr later ↦ find-IsRegular rest name e all (rw later at h)
]

-- How the import of a name ends.
abbrev pub EndsWell {ℓ} : {M : Type ℓ} → (String → Option M) → String → Imported M → Type 0
EndsWell load name (loaded n e m) =
    (n ≡ name) × (find backends name ≡ some e) × IsRegular e × (is_some m ≡ is_some e.module_path)
EndsWell load name unknown_backend = find backends name ≡ none
EndsWell load name import_fails = (path : String) × (is_some (load path) ≡ false)

module_ends {ℓ} :
    {M : Type ℓ} (load : String → Option M) (name path : String) (e : BackendEntry)
    (found : Option M)
    → find backends name ≡ some e
    → e.module_path ≡ some path
    → load path ≡ found
    → EndsWell load name (with_module name e found)
module_ends load name path e none here p l = (path, ap is_some l)
module_ends load name path e (some m) here p l =
    (refl, here, find-IsRegular backends name e backends-regular here, sym (ap is_some p))

path_ends {ℓ} :
    {M : Type ℓ} (load : String → Option M) (name : String) (e : BackendEntry)
    (path : Option String)
    → find backends name ≡ some e
    → e.module_path ≡ path
    → EndsWell load name (import_path load name e path)
path_ends load name e none here p =
    (refl, here, find-IsRegular backends name e backends-regular here, sym (ap is_some p))
path_ends load name e (some path) here p = module_ends load name path e (load path) here p refl

entry_ends {ℓ} :
    {M : Type ℓ} (load : String → Option M) (name : String) (found : Option BackendEntry)
    → find backends name ≡ found
    → EndsWell load name (import_entry load name found)
entry_ends load name none h = h
entry_ends load name (some e) h = path_ends load name e e.module_path h refl

-- Importing a backend ends in one of three ways: the entry of that very name is loaded, which is
-- regular (module, class and default model all present or all absent, and the default model pinned
-- to a revision), with a module object just when the entry names a module; or the registry has no
-- such name; or a module that cannot be imported was asked for.
pub import_resolves {ℓ} :
    {M : Type ℓ} (load : String → Option M) (name : String)
    → EndsWell load name (import_backend load name)
unfolding import_backend
import_resolves load name = entry_ends load name (find backends name) refl
