-- ===== src/Backends/Echo.antt =====
-- The echo backend of stt_server/backend.py, and a session that uses it.
use Prim.Native.String.{◌++◌ as str_append}
use pipecat_local_stt_server.Prelude.{
  ℕ, String, Bool, true, false, some, List, [], ◌∷◌, ◌++◌, ◌≡◌, length, if◌then◌else◌,
}
use pipecat_local_stt_server.Session.State.{
  transcript_delta, transcript_completed, opening, DecodeTask, Session, Io,
}
use pipecat_local_stt_server.Session.Decode.{
  DecodeAct, opened, delta, completed, finished, decode_run,
}
use pipecat_local_stt_server.Session.Transcript.{KeepsUp, deltas, final_text, transcript_order}

pub record EchoStream : Type 0 where
  pub buf : List ℕ
  pub done : Bool
  pub cancelled : Bool

unfoldable pub open_stream : EchoStream
open_stream = record { buf = []; done = false; cancelled = false }

unfoldable pub feed : List ℕ → EchoStream → EchoStream
feed chunk s = record s { buf = s.buf ++ chunk }

unfoldable pub end : EchoStream → EchoStream
end s = record s { done = true }

unfoldable pub cancel : EchoStream → EchoStream
cancel s = record s { cancelled = true; done = true }

-- `show` writes a number in decimal. The events are those of a decode task.
unfoldable pub events : (ℕ → String) → EchoStream → List DecodeAct
events show s =
    if s.cancelled
    then []
    else let text = str_append "echo:" (show (length s.buf)) in delta text ∷ completed text ∷ []

-- On an open connection that keeps up, a decode of some audio by the echo backend sends one delta
-- and one completed transcript, both `echo:` and the number of bytes.
pub echo_transcript :
    (show : ℕ → String) (io : Io) (t : DecodeTask) (s : Session)
    → KeepsUp io
    → s.in_flight ≡ some t
    → t.phase ≡ opening
    → s.socket_closed ≡ false
    → (decode_run io
        (opened ∷ (events show (end (feed t.audio open_stream)) ++ finished ∷ []))
        s).sent
      ≡ (s.sent ++ transcript_delta t.item (str_append "echo:" (show (length t.audio))) ∷ [])
        ++ transcript_completed t.item (str_append "echo:" (show (length t.audio))) ∷ []
unfolding events end feed open_stream deltas final_text
echo_transcript show io t s clear e p unshut =
    (transcript_order io t (events show (end (feed t.audio open_stream))) s clear e p unshut tt).0
