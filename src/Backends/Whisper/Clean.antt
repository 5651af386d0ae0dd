-- ===== src/Backends/Whisper/Clean.antt =====
-- What the filter of stt_server/backends/mlx_whisper.py lets through.
use pipecat_local_stt_server.Prelude.{
  String, true, false, List, [], ◌∷◌, ◌++◌, ◌≡◌, refl, ◌⊎◌, inl, inr, sym, ◌∙◌, if_rule, Bool-cases,
  append-nil, append_assoc, if◌then◌else◌,
}
use pipecat_local_stt_server.Backends.Whisper.{
  Transcription, Filter, is_dropped, keep_segments, check_text, concat, filtered,
}
use pipecat_local_stt_server.Prelude.Text.{strip}

-- From the segments, the clean ones in their order.
pub data Survive (f : Filter) : List String → List String → Type 0 where
  end : Survive f [] []
  drops :
      {seg : String} {segs kept : List String}
      → is_dropped f seg ≡ true
      → Survive f segs kept
      → Survive f (seg ∷ segs) kept
  keeps :
      {seg : String} {segs kept : List String}
      → is_dropped f seg ≡ false
      → Survive f segs kept
      → Survive f (seg ∷ segs) (seg ∷ kept)

-- A text that is not dropped is shown as it is; one that is dropped is shown as no text.
abbrev pub IsChecked : Filter → String → String → String → Type 0
IsChecked f checked shown text =
    ((is_dropped f checked ≡ true) × (text ≡ ""))
    ⊎ ((is_dropped f checked ≡ false) × (text ≡ shown))

abbrev pub IsFiltered : Filter → List String → String → String → Type 0
IsFiltered f [] whole text = IsChecked f whole (strip whole) text
IsFiltered f (seg ∷ segs) whole text =
    (kept : List String) × Survive f (seg ∷ segs) kept
    × IsChecked f (check_text kept) (strip (concat kept)) text

checks :
    (f : Filter) (checked shown : String)
    → IsChecked f checked shown (if is_dropped f checked then "" else shown)
checks f checked shown =
    if_rule (IsChecked f checked shown) (is_dropped f checked) "" shown (λ e. inl (e, refl))
      (λ e. inr (e, refl))

-- the loop appends the survivors
survivors :
    (f : Filter) (segs kept : List String)
    → (late : List String) × Survive f segs late × (keep_segments f segs kept ≡ kept ++ late)
unfolding keep_segments
survivors f [] kept = ([], end, sym (append-nil kept))
survivors f (seg ∷ segs) kept = elim (Bool-cases (is_dropped f seg)) [
  | inl bad ↦ let (late, s, e) = survivors f segs kept in (late, drops bad s, rw bad e)
  | inr good ↦
      let (late, s, e) = survivors f segs (kept ++ seg ∷ []) in
      (seg ∷ late, keeps good s, rw good (e ∙ append_assoc kept (seg ∷ []) late))
]

filters :
    (f : Filter) (segs : List String) (whole : String)
    → IsFiltered f segs whole (filtered f (record { segments = segs; whole = whole }))
unfolding filtered
filters f [] whole = checks f whole (strip whole)
filters f (seg ∷ segs) whole =
    let (late, s, e) = survivors f (seg ∷ segs) [] in
    (late, s, rw e (checks f (check_text late) (strip (concat late))))

-- The Whisper transcript of a result without segments is its whole text, stripped, but nothing if that
-- text is degenerate. With segments, it is the stripped concatenation of the ones that are not degenerate,
-- each one in its order, but nothing if these, joined by spaces, are degenerate together.
pub filter_exact : (f : Filter) (r : Transcription) → IsFiltered f r.segments r.whole (filtered f r)
filter_exact f r = filters f r.segments r.whole
