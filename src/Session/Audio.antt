-- ===== src/Session/Audio.antt =====
-- The handlers of audio: `_handle_binary_audio`, `_on_audio_append_json`, `_on_commit`, `_on_clear`.
use pipecat_local_stt_server.Prelude.{
  ℕ, suc, ◌+◌, ◌%◌, String, Bool, true, false, not, Option, none, some, List, [], ◌++◌, ltb, ◌==◌,
  length, if◌then◌else◌,
}
use pipecat_local_stt_server.Protocol.{
  invalid_event, payload_too_large, buffer_overflow, buffer_empty, audio_sample_width_bytes,
}
use pipecat_local_stt_server.Json.{Fields, lookup, as_str}
use pipecat_local_stt_server.Session.State.{
  text, base64_error, odd_length, audio_committed, audio_cleared, Phase, opening, done, DecodeTask,
  Session, Io,
}
use pipecat_local_stt_server.Session.Send.{send, send_error, echoed}

-- `task.done()`
unfoldable pub is_done : Phase → Bool
is_done done = true
is_done _ = false

-- `state.in_flight_task is not None and not state.in_flight_task.done()`
unfoldable pub task_busy : Option DecodeTask → Bool
unfolding is_done
task_busy none = false
task_busy (some t) = not (is_done t.phase)

abbrev pub busy : Session → Bool
busy s = task_busy s.in_flight

unfoldable pub handle_binary_audio : Io → List ℕ → Session → Session
handle_binary_audio io bytes s =
    if busy s
    then send_error io invalid_event (text "audio append while previous decode in flight") none s
    else if ltb io.max_append_bytes (length bytes)
    then send_error io payload_too_large (text "binary audio exceeds max_append_bytes") none s
    else if not (length bytes % audio_sample_width_bytes == 0)
    then send_error io invalid_event (odd_length (length bytes)) none s
    else if ltb io.max_uncommitted_bytes (length s.buffer + length bytes)
    then send_error io buffer_overflow (text "uncommitted audio exceeds per-session cap") none s
    else record s { buffer = s.buffer ++ bytes }

-- the text of an `append` event, and what it decodes to
unfoldable pub append_decoded : Io → Option (List ℕ) → Session → Session
append_decoded io none s = send_error io invalid_event base64_error none s
append_decoded io (some bytes) s = handle_binary_audio io bytes s

unfoldable pub append_text : Io → Option String → Session → Session
unfolding append_decoded
append_text io none s =
    send_error io invalid_event (text "input_audio_buffer.append missing audio") none s
append_text io (some audio_b64) s = append_decoded io (io.b64decode audio_b64) s

unfoldable pub on_audio_append_json : Io → Fields → Session → Session
unfolding append_text lookup as_str
on_audio_append_json io msg s = append_text io (as_str (lookup "audio" msg)) s

-- the buffer becomes the audio of a new task
unfoldable pub start_decode : List ℕ → ℕ → Session → Session
start_decode audio item s = record s {
  in_flight = some (record { item = item; audio = audio; phase = opening });
}

unfoldable pub accept_commit : Io → Option String → Session → Session
unfolding start_decode
accept_commit io client_event_id s =
    let cleared : Session = record s { buffer = []; items = suc s.items } in
    start_decode s.buffer s.items
      (send io false (audio_committed s.items (echoed client_event_id)) cleared)

unfoldable pub on_commit : Io → Option String → Session → Session
on_commit io client_event_id s =
    if length s.buffer == 0
    then send_error io buffer_empty (text "commit on empty buffer") client_event_id s
    else if busy s
    then send_error io invalid_event (text "commit while previous decode in flight") client_event_id
        s
    else accept_commit io client_event_id s

unfoldable pub on_clear : Io → Option String → Session → Session
on_clear io client_event_id s =
    if busy s
    then send_error io invalid_event
        (text "clear while decode in flight; use session.cancel to abort") client_event_id s
    else send io false (audio_cleared (echoed client_event_id)) (record s { buffer = [] })
