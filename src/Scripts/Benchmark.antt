-- ===== src/Scripts/Benchmark.antt =====
-- The word error rate of scripts/benchmark_asr_ab.py.
pub mod Distance
use Prim.Native.Char.{code}
use pipecat_local_stt_server.Prelude.{
  ℕ, suc, ◌+◌, min, String, Bool, true, false, List, [], ◌∷◌, str_eq, length, if◌then◌else◌,
}

-- the text from the right: the word that is being read, and the words after it
pub record Split : Type 0 where
  pub word : String
  pub words : List String

abbrev pub push : String → List String → List String
push w ws = if str_eq w "" then ws else w ∷ ws

unfoldable pub split_text : (ℕ → Bool) → String → Split
split_text is_word String.[] = record { word = String.[]; words = [] }
split_text is_word (String.◌∷◌ c s) =
    let rest : Split = split_text is_word s in
    if is_word (code c)
    then record { word = String.◌∷◌ c rest.word; words = rest.words }
    else record { word = String.[]; words = push rest.word rest.words }

-- `_normalize`; `lower` is `str.lower`, and `is_word` tells the characters of `[\w']`
unfoldable pub normalize : (String → String) → (ℕ → Bool) → String → List String
unfolding split_text
normalize lower is_word text =
    let parts : Split = split_text is_word (lower text) in push parts.word parts.words

abbrev pub cost : String → String → ℕ
cost r h = if str_eq r h then 0 else 1

-- The cells of a row after its first one, `left`. A row has one cell more than there are words, so the
-- last clause, which stands for an index out of range, is not reached from `errors`.
unfoldable pub fill_row : String → List String → List ℕ → ℕ → List ℕ
fill_row r [] prev left = []
fill_row r (h ∷ hyp) (diagonal ∷ above ∷ prev) left =
    let cell = min (min (above + 1) (left + 1)) (diagonal + cost r h) in
    cell ∷ fill_row r hyp (above ∷ prev) cell
fill_row r (h ∷ hyp) _ left = []

-- the loop over the reference, `i` being the number of its next word
unfoldable pub fill_rows : ℕ → List String → List String → List ℕ → List ℕ
unfolding fill_row
fill_rows i [] hyp prev = prev
fill_rows i (r ∷ ref) hyp prev = fill_rows (suc i) ref hyp (i ∷ fill_row r hyp prev i)

-- the first row, which counts from `n`
unfoldable pub count_row : ℕ → List String → List ℕ
count_row n [] = n ∷ []
count_row n (h ∷ hyp) = n ∷ count_row (suc n) hyp

-- prev[-1], of a list that is not empty
unfoldable pub last : List ℕ → ℕ
last [] = 0
last (n ∷ []) = n
last (n ∷ m ∷ rest) = last (m ∷ rest)

unfoldable pub errors : List String → List String → ℕ
unfolding fill_rows count_row last
errors ref hyp = last (fill_rows 1 ref hyp (count_row 0 hyp))

-- a rate as the fraction that the code divides
pub record Rate : Type 0 where
  pub numerator : ℕ
  pub denominator : ℕ

abbrev pub rate_of : List String → List String → Rate
rate_of [] [] = record { numerator = 0; denominator = 1 }
rate_of [] (h ∷ hyp) = record { numerator = 1; denominator = 1 }
rate_of (r ∷ ref) hyp = record { numerator = errors (r ∷ ref) hyp; denominator = length (r ∷ ref) }

unfoldable pub word_error_rate : (String → String) → (ℕ → Bool) → String → String → Rate
unfolding normalize errors
word_error_rate lower is_word reference hypothesis =
    rate_of (normalize lower is_word reference) (normalize lower is_word hypothesis)
