-- ===== src/Client/Handshake.antt =====
-- What a client reads: `connect` and `events` of stt_server/client.py, and the status probe that uses them,
-- `_probe_status` of stt_server/__main__.py.
use pipecat_local_stt_server.Prelude.{
  String, Bool, false, Option, none, some, List, [], ◌∷◌, if◌then◌else◌,
}
use pipecat_local_stt_server.Json.{Json, str, obj, Fields, field, lookup, eq_str}
use pipecat_local_stt_server.Session.State.{
  ServerEvent, server_hello, session_created, transcription_session_created, session_updated,
  transcription_session_updated, session_closed, audio_committed, audio_cleared, transcript_delta,
  transcript_completed, transcript_failed, server_status, error, Loaded, value, decode_error, fails,
}

-- a frame from the server: a binary one, or a text as `json.loads` takes it
pub data Incoming : Type 0 where
  bytes : Incoming
  text_frame : Loaded → Incoming

abbrev pub evt_server_hello : String
evt_server_hello = "server.hello"

abbrev pub evt_session_created : String
evt_session_created = "session.created"

abbrev pub evt_server_status : String
evt_server_status = "server.status"

-- v.get("type") == name; `none` where the value is no dict, and `.get` raises
abbrev pub is_named : String → Option Json → Bool
is_named name none = false
is_named name (some v) = eq_str name v

unfoldable pub has_type : String → Json → Option Bool
unfolding lookup eq_str
has_type name (obj msg) = some (is_named name (lookup "type" msg))
has_type name _ = none

-- `_recv_json`: `none` where it raises, at the end of the connection too
abbrev pub loaded_json : Loaded → Option Json
loaded_json (value v) = some v
loaded_json _ = none

abbrev pub recv_json : List Incoming → Option (Json × List Incoming)
recv_json [] = none
recv_json (bytes ∷ frames) = none
recv_json (text_frame l ∷ frames) = elim (loaded_json l) [ none ↦ none | some v ↦ some (v, frames) ]

-- a value with the type that is expected, or an exception
abbrev pub expect : String → Option (Json × List Incoming) → Option (Json × List Incoming)
expect name none = none
expect name (some (v, frames)) = elim (has_type name v) [
  | none ↦ none
  | some same ↦ if same then some (v, frames) else none
]

abbrev pub created_after : Option (Json × List Incoming) → Option (Json × List Incoming)
created_after none = none
created_after (some (hello, frames)) = elim (expect evt_session_created (recv_json frames)) [
  | none ↦ none
  | some next ↦ some (hello, next.1)
]

-- `connect`: the hello, and the frames that are left, or `none` where it raises
unfoldable pub handshake : List Incoming → Option (Json × List Incoming)
unfolding has_type
handshake frames = created_after (expect evt_server_hello (recv_json frames))

-- `events`: binary frames and texts that are no JSON are skipped; `none` is where it raises
unfoldable pub events : List Incoming → List (Option Json)
events [] = []
events (bytes ∷ frames) = events frames
events (text_frame (value v) ∷ frames) = some v ∷ events frames
events (text_frame (decode_error m) ∷ frames) = events frames
events (text_frame fails ∷ frames) = none ∷ []

-- the loop over them until the status comes
abbrev pub status_or : Option Bool → Json → Option Json → Option Json
status_or none v later = none
status_or (some same) v later = if same then some v else later

unfoldable pub await_status : List (Option Json) → Option Json
unfolding has_type
await_status [] = none
await_status (none ∷ evs) = none
await_status (some v ∷ evs) =
    let later = await_status evs in status_or (has_type evt_server_status v) v later

-- `_run` of `_probe_status`: the hello and the status
unfoldable pub with_status : Option (Json × List Incoming) → Option (Json × Json)
unfolding events await_status
with_status none = none
with_status (some (hello, frames)) = elim (await_status (events frames)) [
  | none ↦ none
  | some status ↦ some (hello, status)
]

unfoldable pub probe : List Incoming → Option (Json × Json)
unfolding handshake with_status
probe frames = with_status (handshake frames)

-- the "type" of what the server sends
unfoldable pub event_type : ServerEvent → String
event_type (server_hello name model) = evt_server_hello
event_type (session_created shot) = evt_session_created
event_type (transcription_session_created shot) = "transcription_session.created"
event_type (session_updated shot) = "session.updated"
event_type (transcription_session_updated shot) = "transcription_session.updated"
event_type (session_closed id reason) = "session.closed"
event_type (audio_committed item id) = "input_audio_buffer.committed"
event_type (audio_cleared id) = "input_audio_buffer.cleared"
event_type (transcript_delta item delta) = "conversation.item.input_audio_transcription.delta"
event_type (transcript_completed item transcript) =
    "conversation.item.input_audio_transcription.completed"
event_type (transcript_failed item e) = "conversation.item.input_audio_transcription.failed"
event_type (server_status status) = evt_server_status
event_type (error e) = "error"

-- a payload, with its other fields as a parameter
abbrev pub payload : (ServerEvent → Fields) → ServerEvent → Json
payload rest e = obj (field "type" (str (event_type e)) (rest e))

abbrev pub incoming : (ServerEvent → Fields) → ServerEvent → Incoming
incoming rest e = text_frame (value (payload rest e))
