-- ===== src/Backends/Snapshots.antt =====
-- The snapshots of the model backends: `prefetch_specs` of the modules of stt_server/backends, and
-- `weight_files` of kyutai.py.
use pipecat_local_stt_server.Prelude.{
  String, Option, none, some, List, [], ◌∷◌, str_eq, if◌then◌else◌,
}
use pipecat_local_stt_server.Prefetch.{SnapshotSpec, check_plain_filenames}
use pipecat_local_stt_server.Backends.Registry.{
  default_mlx_model, default_parakeet_model, default_nemotron_model, default_kyutai_model,
  pinned_revision,
}

-- a value of a `config.json`: no such key, a text, or another value
pub data Entry : Type 0 where
  no_key : Entry
  name : String → Entry
  no_text : Entry

-- the keys of a `config.json` that are read
pub record ModelConfig : Type 0 where
  pub mimi_name : Entry
  pub moshi_name : Entry
  pub tokenizer_name : Entry

abbrev pub text_of : Entry → Option String
text_of (name n) = some n
text_of _ = none

-- config.get("moshi_name", "model.safetensors")
abbrev pub or_default : Entry → Entry
or_default no_key = name "model.safetensors"
or_default e = e

abbrev pub four_names : Option String → Option String → Option String → Option (List String)
four_names (some mimi) (some moshi) (some tokenizer) =
    check_plain_filenames ("config.json" ∷ mimi ∷ moshi ∷ tokenizer ∷ [])
four_names _ _ _ = none

-- `none` where it raises
unfoldable pub weight_files : ModelConfig → Option (List String)
unfolding check_plain_filenames
weight_files config =
    four_names (text_of config.mimi_name) (text_of (or_default config.moshi_name))
      (text_of config.tokenizer_name)

-- `model or DEFAULT`
abbrev pub model_or : String → Option String → String
model_or default none = default
model_or default (some model) = if str_eq model "" then default else model

abbrev pub spec_of :
    String
    → Option (List String)
    → List (List String)
    → Option (ModelConfig → Option (List String))
    → SnapshotSpec ModelConfig
spec_of repo patterns required resolve = record {
  repo_id = repo;
  revision = pinned_revision (some repo);
  allow_patterns = patterns;
  required = required;
  kind = "model";
  local_path = none;
  resolve = resolve;
}

unfoldable pub mlx_specs : Option String → List (SnapshotSpec ModelConfig)
unfolding default_mlx_model pinned_revision
mlx_specs model =
    spec_of (model_or default_mlx_model model) none
      (("config.json" ∷ []) ∷ ("weights.safetensors" ∷ "weights.npz" ∷ []) ∷ []) none
    ∷ []

unfoldable pub parakeet_specs : Option String → List (SnapshotSpec ModelConfig)
unfolding default_parakeet_model pinned_revision
parakeet_specs model =
    spec_of (model_or default_parakeet_model model)
      (some ("config.json" ∷ "model.safetensors" ∷ []))
      (("config.json" ∷ []) ∷ ("model.safetensors" ∷ []) ∷ []) none
    ∷ []

unfoldable pub mlx_audio_allow_patterns : List String
mlx_audio_allow_patterns =
    "*.json" ∷ "*.safetensors" ∷ "*.py" ∷ "*.model" ∷ "*.tiktoken" ∷ "*.txt" ∷ "*.jinja" ∷ "*.jsonl"
    ∷ "*.yaml" ∷ "*.npz" ∷ "*.pth" ∷ []

unfoldable pub nemotron_specs : Option String → List (SnapshotSpec ModelConfig)
unfolding default_nemotron_model pinned_revision mlx_audio_allow_patterns
nemotron_specs model =
    spec_of (model_or default_nemotron_model model) (some mlx_audio_allow_patterns)
      (("config.json" ∷ []) ∷ ("*.safetensors" ∷ []) ∷ []) none
    ∷ []

unfoldable pub kyutai_specs : Option String → List (SnapshotSpec ModelConfig)
unfolding default_kyutai_model pinned_revision weight_files
kyutai_specs model =
    spec_of (model_or default_kyutai_model model) (some ("config.json" ∷ []))
      (("config.json" ∷ []) ∷ []) (some weight_files)
    ∷ []
