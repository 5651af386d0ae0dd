-- ===== src/Session/Loop.antt =====
-- `_handle_text` and `_handle_connection`: frames are dispatched, the decode task runs between them.
use pipecat_local_stt_server.Prelude.{
  ℕ, String, Bool, true, false, ◌||◌, Option, none, some, List, [], ◌∷◌, str_eq, str_contains,
  length, ltb, if◌then◌else◌,
}
use pipecat_local_stt_server.Protocol.{
  invalid_json, invalid_event, unsupported_event, internal_error, client_event_types,
  evt_session_update, evt_transcription_session_update, evt_audio_append, evt_audio_commit,
  evt_audio_clear, evt_server_status_req, evt_session_close, evt_session_cancel,
}
use pipecat_local_stt_server.Json.{Json, null, str, arr, obj, Fields, lookup, as_str}
use pipecat_local_stt_server.Session.State.{
  text, json_error, unknown_event, server_hello, session_created, transcription_session_created,
  Session, Loaded, value, decode_error, fails, Io,
}
use pipecat_local_stt_server.Session.Send.{send, send_error, session_snapshot}
use pipecat_local_stt_server.Session.Audio.{
  handle_binary_audio, on_audio_append_json, on_commit, on_clear,
}
use pipecat_local_stt_server.Session.Update.{on_session_update}
use pipecat_local_stt_server.Session.Decode.{DecodeAct, decode_step}
use pipecat_local_stt_server.Session.Closing.{
  on_status, on_close, on_cancel, request_cancel, teardown_session,
}

-- What a handler meets while it waits: whether the server is shutting down, and what the decode
-- task does meanwhile.
pub record Wait : Type 0 where
  pub shutting_down : Bool
  pub during : List DecodeAct

-- a handler that does not raise
abbrev pub returns : Session → Session × Bool
returns s = (s, false)

-- the ladder of `_handle_text`, for a type that `client_event_types` has
unfoldable pub dispatch : Io → Wait → String → Fields → Option String → Session → Session × Bool
dispatch io w t msg ev s =
    if str_eq t evt_session_update || str_eq t evt_transcription_session_update
    then on_session_update io msg ev s
    else if str_eq t evt_audio_append
    then returns (on_audio_append_json io msg s)
    else if str_eq t evt_audio_commit
    then returns (on_commit io ev s)
    else if str_eq t evt_audio_clear
    then returns (on_clear io ev s)
    else if str_eq t evt_server_status_req
    then returns (on_status io s)
    else if str_eq t evt_session_close
    then returns (on_close io w.shutting_down w.during s)
    else if str_eq t evt_session_cancel
    then returns (on_cancel io w.during s)
    else returns s

unfoldable pub unsupported : Io → Json → Option String → Session → Session
unsupported io t ev s = send_error io unsupported_event (unknown_event t) ev s

-- `t not in CLIENT_EVENT_TYPES`: a list or a dict cannot be hashed, so the test raises
unfoldable pub handle_typed : Io → Wait → Json → Fields → Option String → Session → Session × Bool
unfolding dispatch unsupported
handle_typed io w (str t) msg ev s =
    if str_contains client_event_types t
    then dispatch io w t msg ev s
    else returns (unsupported io (str t) ev s)
handle_typed io w (arr xs) msg ev s = (s, true)
handle_typed io w (obj fs) msg ev s = (s, true)
handle_typed io w t msg ev s = returns (unsupported io t ev s)

unfoldable pub missing_type : Io → Session → Session
missing_type io s = send_error io invalid_event (text "missing type") none s

unfoldable pub handle_fields : Io → Wait → Option Json → Fields → Session → Session × Bool
unfolding missing_type handle_typed as_str lookup
handle_fields io w none msg s = returns (missing_type io s)
handle_fields io w (some t) msg s = handle_typed io w t msg (as_str (lookup "event_id" msg)) s

unfoldable pub handle_value : Io → Wait → Json → Session → Session × Bool
unfolding handle_fields lookup missing_type
handle_value io w (obj msg) s = handle_fields io w (lookup "type" msg) msg s
handle_value io w _ s = returns (missing_type io s)

unfoldable pub handle_loaded : Io → Wait → Loaded → Session → Session × Bool
unfolding handle_value
handle_loaded io w (value v) s = handle_value io w v s
handle_loaded io w (decode_error m) s = returns (send_error io invalid_json (json_error m) none s)
handle_loaded io w fails s = (s, true)

unfoldable pub handle_text : Io → Wait → String → Session → Session × Bool
unfolding handle_loaded
handle_text io w raw s = handle_loaded io w (io.loads raw) s

pub data Frame : Type 0 where
  binary : List ℕ → Frame
  textual : String → Frame

unfoldable pub handle_frame : Io → Wait → Frame → Session → Session × Bool
unfolding handle_text
handle_frame io w (binary bytes) s = returns (handle_binary_audio io bytes s)
handle_frame io w (textual raw) s = handle_text io w raw s

-- `except Exception`: a generic error, and the loop goes on
unfoldable pub contain : Io → Session × Bool → Session
contain io (s, raised) =
    if raised then send_error io internal_error (text "internal error") none s else s

-- one round of `async for raw in ws`
unfoldable pub receive : Io → Wait → Frame → Session → Session
unfolding contain
receive io w f s = if s.closed then teardown_session s else contain io (handle_frame io w f s)

-- What may happen to a session: a frame arrives, its decode task makes a step, the peer or the
-- server ends the connection (`disconnected`), or a server drain cancels the decode task.
pub data Act : Type 0 where
  frame : Wait → Frame → Act
  decode : DecodeAct → Act
  cancelled : Act
  disconnected : Act

-- The bytes of a message; `utf8_size` is the length of a text in UTF-8.
abbrev pub frame_size : (String → ℕ) → Frame → ℕ
frame_size utf8_size (binary bytes) = length bytes
frame_size utf8_size (textual raw) = utf8_size raw

-- `max_size` of the listening socket: websockets gives no message above it to the handler, but ends the
-- connection (1009). `receive` is for messages up to it.
unfoldable pub arrival : Io → (String → ℕ) → Wait → Frame → Act
arrival io utf8_size w f =
    if ltb io.max_append_bytes (frame_size utf8_size f) then disconnected else frame w f

unfoldable pub live_step : Io → Act → Session → Session
unfolding receive
live_step io (frame w f) s = receive io w f s
live_step io (decode act) s = decode_step io act s
live_step io cancelled s = request_cancel s
live_step io disconnected s = teardown_session s

-- After the connection's handler returned, nothing happens any more.
unfoldable pub step : Io → Act → Session → Session
unfolding live_step
step io act s = if s.ended then s else live_step io act s

unfoldable pub run : Io → List Act → Session → Session
unfolding step
run io [] s = s
run io (act ∷ acts) s = run io acts (step io act s)

unfoldable pub new_session : String → Session
new_session id = record {
  session_id = id;
  config = record { turn_detection = null; language = none };
  buffer = [];
  in_flight = none;
  current_stream = false;
  closed = false;
  sent = [];
  sends = 0;
  socket_closed = false;
  items = 0;
  ended = false;
}

-- the start of `_handle_connection`: hello, and the session under both its names
unfoldable pub connect : Io → String → Session
unfolding new_session
connect io id =
    let s = send io false (server_hello io.backend_name io.model) (new_session id) in
    let shot = session_snapshot s in
    send io false (transcription_session_created shot) (send io false (session_created shot) s)
