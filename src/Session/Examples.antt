-- ===== src/Session/Examples.antt =====
-- The theorems of a session at a concrete configuration and concrete frames.
use pipecat_local_stt_server.Prelude.{
  ℕ, String, true, false, none, some, List, [], ◌∷◌, ◌++◌, ◌≡◌, refl, arith, str_eq, if◌then◌else◌,
}
use pipecat_local_stt_server.Json.{Json, null, str, obj, Fields, end, field}
use pipecat_local_stt_server.Protocol.{backend_error}
use pipecat_local_stt_server.Session.State.{
  text, transcript_completed, transcript_failed, opening, DecodeTask, Session, Loaded, value,
  decode_error, Io,
}
use pipecat_local_stt_server.Session.Send.{over_high_water, error_object}
use pipecat_local_stt_server.Session.Audio.{busy, task_busy, handle_binary_audio, on_commit}
use pipecat_local_stt_server.Session.Decode.{
  DecodeAct, opened, delta, completed, finished, failed, decode_run,
}
use pipecat_local_stt_server.Session.Closing.{on_close, on_cancel, teardown_session}
use pipecat_local_stt_server.Session.Update.{on_session_update}
use pipecat_local_stt_server.Session.Loop.{
  Wait, binary, textual, receive, Act, frame, decode, disconnected, run, connect,
}
use pipecat_local_stt_server.Session.Invariant.{IsSound}
use pipecat_local_stt_server.Session.Soundness.{run-IsSound}
use pipecat_local_stt_server.Session.Silence.{EndsOnce, run-EndsOnce}
use pipecat_local_stt_server.Session.Utterance.{
  IsAdmissible, IsRefusal, concat, append_all, append_exact, upload_reaches_decoder,
}
use pipecat_local_stt_server.Session.Transcript.{KeepsUp, deltas, final_text, transcript_order}
use pipecat_local_stt_server.Session.Requests.{
  names_event, refusal_code, IsError, malformed_answered,
}
use pipecat_local_stt_server.Session.Stops.{IsStopped, closing_stops_decode}
use pipecat_local_stt_server.Session.Configured.{UpdateOutcome, update_outcome}

abbrev typed : String → Json
typed t = obj (field "type" (str t) end)

abbrev demo_loads : String → Loaded
demo_loads raw =
    if str_eq raw "{"
    then decode_error "Expecting property name"
    else if str_eq raw "commit"
    then value (typed "input_audio_buffer.commit")
    else value (typed "session.close")

abbrev demo_io : Io
demo_io = record {
  max_append_bytes = 4;
  max_uncommitted_bytes = 6;
  send_queue_high_water_bytes = 100;
  backend_name = "echo";
  model = none;
  pending_write_bytes = λ n. some n;
  peer_gone = λ _. false;
  uptime_seconds = λ n. n;
  pid = 42;
  rss_bytes = λ n. 1000;
  loads = demo_loads;
  b64decode = λ _. none;
}

abbrev clear_io : Io
clear_io = record demo_io { pending_write_bytes = λ _. none }

abbrev quiet : Wait
quiet = record { shutting_down = false; during = [] }

abbrev utterance : List Act
utterance =
    frame quiet (binary (1 ∷ 2 ∷ []))
    ∷ frame quiet (textual "{")
    ∷ frame quiet (textual "commit")
    ∷ decode opened
    ∷ decode (delta "hel")
    ∷ decode (completed "hello")
    ∷ decode finished
    ∷ frame quiet (binary (1 ∷ 2 ∷ 3 ∷ []))
    ∷ frame quiet (textual "close")
    ∷ disconnected
    ∷ []

abbrev idle_session : Session
idle_session = record {
  session_id = "s1";
  config = record { turn_detection = null; language = none };
  buffer = [];
  in_flight = none;
  current_stream = false;
  closed = false;
  sent = [];
  sends = 0;
  socket_closed = false;
  items = 0;
  ended = false;
}

abbrev demo_task : DecodeTask
demo_task = record { item = 0; audio = 1 ∷ 2 ∷ []; phase = opening }

abbrev decoding : Session
decoding = record idle_session { in_flight = some demo_task; items = 1 }

abbrev shut_session : Session
shut_session = record decoding { closed = true; socket_closed = true }

run-IsSound_example : IsSound demo_io (run demo_io utterance (connect demo_io "s1"))
run-IsSound_example = run-IsSound demo_io "s1" utterance

run-EndsOnce_example : EndsOnce "s1" (run demo_io utterance (connect demo_io "s1"))
run-EndsOnce_example = run-EndsOnce demo_io "s1" utterance

append_exact_example :
    (IsAdmissible demo_io (1 ∷ 2 ∷ []) idle_session
      → handle_binary_audio demo_io (1 ∷ 2 ∷ []) idle_session
        ≡ record idle_session { buffer = 1 ∷ 2 ∷ [] })
    × (¬ IsAdmissible demo_io (1 ∷ 2 ∷ []) idle_session
        → IsRefusal demo_io idle_session (handle_binary_audio demo_io (1 ∷ 2 ∷ []) idle_session))
append_exact_example = append_exact demo_io (1 ∷ 2 ∷ []) idle_session

abbrev two_chunks : List (List ℕ)
two_chunks = (1 ∷ 2 ∷ []) ∷ (3 ∷ 4 ∷ []) ∷ []

upload_reaches_decoder_example :
    ((on_commit demo_io none (append_all demo_io two_chunks idle_session)).in_flight
      ≡ some (record { item = 0; audio = concat two_chunks; phase = opening }))
    × ((on_commit demo_io none (append_all demo_io two_chunks idle_session)).buffer ≡ [])
    × ((on_commit demo_io none (append_all demo_io two_chunks idle_session)).items ≡ 1)
unfolding task_busy
upload_reaches_decoder_example =
    upload_reaches_decoder demo_io none two_chunks idle_session refl refl
      (omega arith, refl, (omega arith, refl, tt)) (omega arith) (omega arith)

clear-KeepsUp : KeepsUp clear_io
unfolding over_high_water
clear-KeepsUp = record { drained = λ n. refl; present = λ n. refl }

abbrev stream : List DecodeAct
stream = delta "hel" ∷ delta "lo" ∷ completed "hello" ∷ []

transcript_order_example :
    ((decode_run clear_io (opened ∷ (stream ++ finished ∷ [])) decoding).sent
      ≡ ([] ++ deltas 0 stream) ++ transcript_completed 0 (final_text "" stream) ∷ [])
    × ((decode_run clear_io (opened ∷ (stream ++ failed ∷ [])) decoding).sent
        ≡ ([] ++ deltas 0 stream)
          ++ transcript_failed 0 (error_object backend_error (text "backend decode failed") none)
            ∷ [])
transcript_order_example =
    transcript_order clear_io demo_task stream decoding clear-KeepsUp refl refl refl tt

malformed_answered_example :
    IsError demo_io
      (refusal_code (demo_loads "{"))
      idle_session
      (receive demo_io quiet (textual "{") idle_session)
unfolding names_event
malformed_answered_example = malformed_answered demo_io quiet "{" idle_session refl refl

abbrev vad_update : Fields
vad_update = field "session" (obj (field "turn_detection" (typed "server_vad") end)) end

update_outcome_example :
    UpdateOutcome demo_io vad_update none idle_session
      (on_session_update demo_io vad_update none idle_session)
update_outcome_example = update_outcome demo_io vad_update none idle_session refl

closing_stops_decode_example :
    IsStopped (on_close demo_io false stream decoding)
    × IsStopped (on_cancel demo_io stream decoding)
    × (busy (teardown_session decoding) ≡ false)
closing_stops_decode_example = closing_stops_decode demo_io stream decoding refl
