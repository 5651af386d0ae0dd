-- ===== src/Session/Send.antt =====
-- `_send`, `_error` and `_session_snapshot`.
use pipecat_local_stt_server.Prelude.{
  ℕ, suc, String, Bool, true, false, not, ◌&&◌, ◌||◌, Option, none, some, [], ◌∷◌, ◌++◌, str_eq,
  ltb, if◌then◌else◌,
}
use pipecat_local_stt_server.Protocol.{ErrorCode, error_type_for_code}
use pipecat_local_stt_server.Session.State.{
  Message, ErrorObject, Snapshot, ServerEvent, error, Session, Io,
}

-- `pending is not None and pending > high_water`
unfoldable pub over_high_water : Io → ℕ → Bool
over_high_water io n = elim (io.pending_write_bytes n) [
  | none ↦ false
  | some pending ↦ ltb io.send_queue_high_water_bytes pending
]

-- `ws.send`: once the connection is closed it raises `ConnectionClosed`, which `_send` drops
unfoldable pub ws_send : Io → ServerEvent → Session → Session
ws_send io payload s =
    if s.socket_closed || io.peer_gone s.sends
    then record s { sends = suc s.sends }
    else record s { sent = s.sent ++ payload ∷ []; sends = suc s.sends }

-- a slow consumer: close with 1011 "send_queue_overflow"
unfoldable pub overflow : Session → Session
overflow s = record s { closed = true; socket_closed = true; sends = suc s.sends }

unfoldable pub send : Io → Bool → ServerEvent → Session → Session
unfolding over_high_water ws_send overflow
send io force payload s =
    if not force && not s.closed && over_high_water io s.sends
    then overflow s
    else ws_send io payload s

-- a client's event id is echoed when it is a non-empty text
unfoldable pub echoed : Option String → Option String
echoed none = none
echoed (some e) = if str_eq e "" then none else some e

unfoldable pub error_object : ErrorCode → Message → Option String → ErrorObject
unfolding error_type_for_code echoed
error_object code message client_event_id = record {
  error_type = error_type_for_code code;
  code = code;
  message = message;
  event_id = echoed client_event_id;
}

unfoldable pub send_error : Io → ErrorCode → Message → Option String → Session → Session
unfolding send error_object
send_error io code message client_event_id s =
    send io true (error (error_object code message client_event_id)) s

unfoldable pub session_snapshot : Session → Snapshot
session_snapshot s = record {
  id = s.session_id;
  turn_detection = s.config.turn_detection;
  language = s.config.language;
}
