-- ===== src/TextQuality.antt =====
-- Degenerate transcripts, where one token repeats: stt_server/text_quality.py.
pub mod Dominance
use pipecat_local_stt_server.Prelude.{
  ℕ, suc, ◌*◌, ◌≤◌, ◌<◌, String, Bool, true, false, not, ◌||◌, Option, none, some, List, [], ◌∷◌,
  ◌≡◌, refl, sym, ◌∙◌, ap, subst, arith, ltb, leb, ltb→lt, ltb→le, str_eq, eq_iff, any, length,
  if◌then◌else◌, if_rule, false≢true, Bool-cases, inl, inr,
}
use pipecat_local_stt_server.Prelude.Text.{is_blank}

unfoldable pub count_of : String → List String → ℕ
count_of t [] = 0
count_of t (x ∷ xs) = let rest = count_of t xs in if str_eq x t then suc rest else rest

pub record Common : Type 0 where
  pub token : String
  pub count : ℕ

abbrev pub better : String → ℕ → Common → Common
better x n b = if ltb b.count n then record { token = x; count = n } else b

-- the first one of the greatest count, as `Counter.most_common(1)` gives it
unfoldable pub most_common_from : List String → List String → Common → Common
unfolding count_of
most_common_from tokens [] b = b
most_common_from tokens (x ∷ xs) b = most_common_from tokens xs (better x (count_of x tokens) b)

-- the dominant token with its count; the ratio is that over the number of tokens
unfoldable pub dominant_unigram : List String → Option Common
unfolding most_common_from count_of
dominant_unigram [] = none
dominant_unigram (x ∷ xs) =
    some (most_common_from (x ∷ xs) xs (record { token = x; count = count_of x (x ∷ xs) }))

-- `_ratio_threshold()` as a fraction, and `_min_tokens()`
pub record Thresholds : Type 0 where
  pub ratio_num : ℕ
  pub ratio_den : ℕ
  pub min_tokens : ℕ

abbrev pub is_dominated : Thresholds → (String → Bool) → ℕ → Option Common → Bool
is_dominated th is_word total none = false
is_dominated th is_word total (some c) =
    if leb (c.count * th.ratio_den) (th.ratio_num * total) then false else is_word c.token

-- `is_word`: the token has a character of `\w`
unfoldable pub is_degenerate : Thresholds → (String → Bool) → List String → Bool
unfolding dominant_unigram
is_degenerate th is_word tokens =
    if ltb (length tokens) th.min_tokens
    then false
    else is_dominated th is_word (length tokens) (dominant_unigram tokens)

-- What the code takes from Python: `text.casefold().split()`, `text.split("\n\n")` and
-- `text.splitlines()`.
pub record Splitter : Type 0 where
  pub tokens : String → List String
  pub paragraphs : String → List String
  pub lines : String → List String

unfoldable pub has_degenerate_paragraph : Thresholds → (String → Bool) → Splitter → String → Bool
unfolding is_degenerate is_blank
has_degenerate_paragraph th is_word split text =
    if is_blank text
    then false
    else any (λ part. is_degenerate th is_word (split.tokens part)) (split.paragraphs text)
      || any (λ part. is_degenerate th is_word (split.tokens part)) (split.lines text)
