-- ===== src/Session/Decode.antt =====
-- The decode task, `_run_decode`, one step for each thing its backend stream does. A step that the
-- task cannot make where it stands changes nothing.
use pipecat_local_stt_server.Prelude.{String, Bool, true, false, Option, none, some, List, [], ◌∷◌}
use pipecat_local_stt_server.Protocol.{backend_error}
use pipecat_local_stt_server.Session.State.{
  text, transcript_delta, transcript_completed, transcript_failed, Phase, opening, streaming,
  cancelling, done, DecodeTask, Session, Io,
}
use pipecat_local_stt_server.Session.Send.{send, error_object}

-- `assigned`: `open_stream` returned, and the audio is being fed. `opened`: `feed` and `end` returned
-- too; a task that nothing looks at in between makes this step alone. `delta`, `completed`: the
-- next event. `finished`: the events ended. `failed`: any of these raised. `unwound`: the requested
-- cancel reached the task.
pub data DecodeAct : Type 0 where
  assigned opened : DecodeAct
  delta completed : String → DecodeAct
  finished failed unwound : DecodeAct

-- the task's phase, and whether `state.current_stream` is set
unfoldable pub put_phase : Phase → Bool → DecodeTask → Session → Session
put_phase phase stream t s = record s {
  in_flight = some (record t { phase = phase });
  current_stream = stream;
}

unfoldable pub fail_decode : Io → DecodeTask → Session → Session
unfolding put_phase
fail_decode io t s =
    let payload =
      transcript_failed t.item (error_object backend_error (text "backend decode failed") none) in
    put_phase done false t (send io true payload s)

-- by phase and act
unfoldable pub decode_task : Io → DecodeTask → Phase → DecodeAct → Session → Session
unfolding put_phase fail_decode
decode_task io t opening assigned s = put_phase opening true t s
decode_task io t opening opened s = put_phase (streaming "") true t s
decode_task io t opening failed s = fail_decode io t s
decode_task io t (streaming final_text) (delta d) s = send io false (transcript_delta t.item d) s
decode_task io t (streaming final_text) (completed c) s = put_phase (streaming c) true t s
decode_task io t (streaming final_text) finished s =
    put_phase done false t (send io false (transcript_completed t.item final_text) s)
decode_task io t (streaming final_text) failed s = fail_decode io t s
decode_task io t cancelling unwound s = put_phase done false t s
decode_task io t _ _ s = s

unfoldable pub decode_step_of : Io → Option DecodeTask → DecodeAct → Session → Session
unfolding decode_task
decode_step_of io none act s = s
decode_step_of io (some t) act s = decode_task io t t.phase act s

unfoldable pub decode_step : Io → DecodeAct → Session → Session
unfolding decode_step_of
decode_step io act s = decode_step_of io s.in_flight act s

-- what the decode task does while a handler waits
unfoldable pub decode_run : Io → List DecodeAct → Session → Session
unfolding decode_step
decode_run io [] s = s
decode_run io (act ∷ acts) s = decode_run io acts (decode_step io act s)
