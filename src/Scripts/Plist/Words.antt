-- ===== src/Scripts/Plist/Words.antt =====
-- How scripts/read_stt_plist.py reads the words that scripts/render_stt_plist.py puts together.
use Prim.Native.Char.{code}
use pipecat_local_stt_server.Prelude.{
  ℕ, String, Bool, true, false, ◌&&◌, ◌==◌, Option, none, some, List, [], ◌∷◌, ◌++◌, ◌≡◌, refl, ◌∙◌,
  ap, arith,
}
use pipecat_local_stt_server.Scripts.Plist.{
  Reader, flag_names, switches, has_dashes, partition, put_flag, read_word, read_words,
  read_argv_flags,
}
use pipecat_local_stt_server.Scripts.Plist.Render.{is_abspath, arguments}

slash_is_no_dash : (n : ℕ) (x y z : Bool) → (n == 47 && x && y) ≡ true → (n == 45 && z) ≡ false
slash_is_no_dash n x y z h = ground (arith, h)

pub abspath-has_dashes : (s : String) → is_abspath s ≡ true → has_dashes s ≡ false
unfolding is_abspath has_dashes
abspath-has_dashes String.[] h = refl
abspath-has_dashes (String.◌∷◌ c String.[]) h = refl
abspath-has_dashes (String.◌∷◌ c (String.◌∷◌ d s)) h =
    slash_is_no_dash (code c) _ _ (code d == 45) h

-- the flags that are read back
abbrev pub token_flags : Option String → List (String × String) → List (String × String)
token_flags none found = found
token_flags (some path) found = ("--auth-token-file", path) ∷ found

abbrev pub address_flags : (ℕ → String) → Option String → String → ℕ → List (String × String)
address_flags str (some path) host n = ("--socket-path", path) ∷ []
address_flags str none host n = ("--port", str n) ∷ ("--host", host) ∷ []

abbrev pub address_args : (ℕ → String) → Option String → String → ℕ → List String
address_args str (some path) host n = "--socket-path" ∷ path ∷ []
address_args str none host n = "--host" ∷ host ∷ "--port" ∷ str n ∷ []

abbrev pub token_words : Option String → List String
token_words none = []
token_words (some path) = "--auth-token-file" ∷ path ∷ []

abbrev after_program :
    (ℕ → String) → String → String → String → ℕ → Option String → Option String → List String
after_program str backend model host n socket token =
    "-m"
    ∷ "stt_server"
    ∷ (address_args str socket host n
        ++ ("--backend" ∷ backend ∷ "--model" ∷ model ∷ "--log-level" ∷ "INFO" ∷ token_words token))

abbrev fresh_reader : Reader
fresh_reader = record { found = []; expect = "" }

skips_program :
    (python : String) → has_dashes python ≡ false → read_word fresh_reader python ≡ fresh_reader
unfolding read_word
skips_program python h = rw h refl

pub read-arguments :
    (str : ℕ → String) (python backend model host : String) (n : ℕ) (socket token : Option String)
    → has_dashes python ≡ false
    → read_argv_flags
        (arguments python (address_args str socket host n) backend model (token_words token))
      ≡ token_flags token (address_flags str socket host n)
unfolding read_argv_flags read_words read_word put_flag flag_names switches partition has_dashes
read-arguments str python backend model host n socket token h =
    ap (λ (r : Reader). (read_words r (after_program str backend model host n socket token)).found)
      (skips_program python h)
    ∙ read_after socket token
  where
    read_after :
        (socket token : Option String)
        → (read_words fresh_reader (after_program str backend model host n socket token)).found
          ≡ token_flags token (address_flags str socket host n)
    read_after (some path) none = refl
    read_after (some path) (some file) = refl
    read_after none none = refl
    read_after none (some file) = refl
