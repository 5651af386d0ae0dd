-- ===== src/Backends/Commit/Transcript.antt =====
-- A session of stt_server/server.py that decodes with a stream of stt_server/backends.
use pipecat_local_stt_server.Prelude.{
  ℕ, String, false, some, List, [], ◌∷◌, ◌++◌, ◌≡◌, refl, ◌∙◌, ap, if_rule, str_eq, if◌then◌else◌,
}
use pipecat_local_stt_server.Session.State.{
  ServerEvent, transcript_delta, transcript_completed, opening, DecodeTask, Session, Io,
}
use pipecat_local_stt_server.Session.Decode.{
  DecodeAct, opened, delta, completed, finished, decode_run,
}
use pipecat_local_stt_server.Session.Transcript.{
  KeepsUp, AllStream, deltas, final_text, transcript_order,
}
use pipecat_local_stt_server.Backends.Commit.{
  open_stream, Decoder, decode_sync, Act, feeds, ends, lock_granted, reads, returns, feed, end,
  next, run, shown, shown_result, events,
}

-- what `_run_decode` does with its stream
unfoldable pub commit : List ℕ → List Act
commit audio = feeds audio ∷ ends ∷ lock_granted ∷ reads ∷ returns ∷ []

abbrev pub text_deltas : ℕ → String → List ServerEvent
text_deltas item text = if str_eq text "" then [] else transcript_delta item text ∷ []

record IsShown (item : ℕ) (text : String) (es : List DecodeAct) : Type 0 where
  streams : AllStream es
  said : deltas item es ≡ text_deltas item text
  last : final_text "" es ≡ text

shown-IsShown : (item : ℕ) (text : String) → IsShown item text (shown text)
unfolding shown deltas final_text
shown-IsShown item text =
    if_rule (IsShown item text) (str_eq text "") (completed text ∷ [])
      (delta text ∷ completed text ∷ [])
      (λ e. record { streams = tt; said = rw e refl; last = refl })
      (λ e. record { streams = tt; said = rw e refl; last = refl })

events-commit :
    (d : Decoder) (audio : List ℕ)
    → events (run d (commit audio) open_stream) ≡ shown_result (decode_sync d false audio)
unfolding events run next commit open_stream feed end
events-commit d audio = refl

-- On an open connection that keeps up, a decode by a model backend that gives some text for the
-- audio of its task sends that text once as a delta, but none for the empty text, and once as the
-- completed transcript.
pub commit_transcript :
    (d : Decoder) (io : Io) (t : DecodeTask) (s : Session) (text : String)
    → KeepsUp io
    → s.in_flight ≡ some t
    → t.phase ≡ opening
    → s.socket_closed ≡ false
    → decode_sync d false t.audio ≡ some text
    → (decode_run io
        (opened ∷ (events (run d (commit t.audio) open_stream) ++ finished ∷ []))
        s).sent
      ≡ (s.sent ++ text_deltas t.item text) ++ transcript_completed t.item text ∷ []
commit_transcript d io t s text clear e p unshut gives =
    let k = shown-IsShown t.item text in
    let es = events-commit d t.audio ∙ ap shown_result gives in
    ap (λ acts. (decode_run io (opened ∷ (acts ++ finished ∷ [])) s).sent) es
    ∙ (transcript_order io t (shown text) s clear e p unshut k.streams).0
    ∙ ap (λ ds. (s.sent ++ ds) ++ transcript_completed t.item (final_text "" (shown text)) ∷ [])
        k.said
    ∙ ap (λ f. (s.sent ++ text_deltas t.item text) ++ transcript_completed t.item f ∷ []) k.last
