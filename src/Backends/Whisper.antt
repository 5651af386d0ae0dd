-- ===== src/Backends/Whisper.antt =====
-- The Whisper backend of stt_server/backends/mlx_whisper.py: its language, and its filter of
-- degenerate transcripts.
pub mod Clean
use Prim.Native.String.{◌++◌ as str_append}
use pipecat_local_stt_server.Prelude.{
  ℕ, String, Bool, true, false, not, ◌&&◌, ◌||◌, Option, none, some, List, [], ◌∷◌, ◌++◌, ◌≡◌, refl,
  sym, ◌∙◌, ap, ◌⊎◌, inl, inr, str_eq, if◌then◌else◌, if_rule, Bool-cases, leb, append-nil,
  append_assoc,
}
use pipecat_local_stt_server.Prelude.Text.{strip}
use pipecat_local_stt_server.TextQuality.{Thresholds, Splitter, is_degenerate}
use pipecat_local_stt_server.Backends.Commit.{Decoder}

-- `lower` is `str.lower`
unfoldable pub normalize_language : (String → String) → Option String → Option String
unfolding strip
normalize_language lower none = none
normalize_language lower (some language) =
    let name = lower (strip language) in
    if str_eq name "" || str_eq name "auto" then none else some language

-- "".join and " ".join
unfoldable pub concat : List String → String
concat [] = ""
concat (x ∷ xs) = str_append x (concat xs)

unfoldable pub join_spaced : List String → String
join_spaced [] = ""
join_spaced (x ∷ []) = x
join_spaced (x ∷ y ∷ rest) = str_append x (str_append " " (join_spaced (y ∷ rest)))

-- The result of `mlx_whisper.transcribe`: the texts of its segments and its whole text, "" where
-- there is none.
pub record Transcription : Type 0 where
  pub segments : List String
  pub whole : String

-- what `is_degenerate` reads: the thresholds of the environment, the word test and Python's splits
pub record Filter : Type 0 where
  pub thresholds : Thresholds
  pub is_word : String → Bool
  pub split : Splitter

-- `text and is_degenerate(text)`
unfoldable pub is_dropped : Filter → String → Bool
unfolding is_degenerate
is_dropped f text =
    not (str_eq text "") && is_degenerate f.thresholds f.is_word (f.split.tokens text)

-- the loop over the segments, `kept` so far
unfoldable pub keep_segments : Filter → List String → List String → List String
unfolding is_dropped
keep_segments f [] kept = kept
keep_segments f (seg ∷ segs) kept =
    keep_segments f segs (if is_dropped f seg then kept else kept ++ seg ∷ [])

-- [s.strip() for s in kept if s.strip()]
unfoldable pub stripped : List String → List String
unfolding strip
stripped [] = []
stripped (x ∷ xs) = let rest = stripped xs in if str_eq (strip x) "" then rest else strip x ∷ rest

unfoldable pub check_text : List String → String
unfolding join_spaced stripped strip
check_text kept = strip (join_spaced (stripped kept))

abbrev pub joined : Filter → List String → String
joined f kept = if is_dropped f (check_text kept) then "" else strip (concat kept)

abbrev pub clean_text : Filter → List String → String → String
clean_text f [] whole = if is_dropped f whole then "" else strip whole
clean_text f (seg ∷ segs) whole = joined f (keep_segments f (seg ∷ segs) [])

-- what `_decode_sync` returns for a transcription
unfoldable pub filtered : Filter → Transcription → String
unfolding is_dropped keep_segments check_text concat strip
filtered f r = clean_text f r.segments r.whole

abbrev pub transcribed : Filter → Option Transcription → Option String
transcribed f none = none
transcribed f (some r) = some (filtered f r)

-- `transcribe`: `mlx_whisper.transcribe` on some audio, `none` where it raises
unfoldable pub whisper_decoder : Filter → (List ℕ → Option Transcription) → Decoder
unfolding filtered
whisper_decoder f transcribe = record {
  transcribe = λ pcm. transcribed f (transcribe pcm);
  stops_on_cancel = false;
}
