-- ===== src/Session/State.antt =====
-- What one session keeps (`_SessionState` and its socket), what it sends, and what it asks of its
-- surroundings.
use pipecat_local_stt_server.Prelude.{ℕ, String, Bool, Option, List}
use pipecat_local_stt_server.Json.{Json}
use pipecat_local_stt_server.Protocol.{ErrorCode, ErrorType}

-- The text of an error: fixed, or with the value that the source formats into it.
pub data Message : Type 0 where
  text : String → Message
  json_error : String → Message
  base64_error : Message
  unknown_event : Json → Message
  odd_length : ℕ → Message

pub record ErrorObject : Type 0 where
  pub error_type : ErrorType
  pub code : ErrorCode
  pub message : Message
  pub event_id : Option String

-- `state.config`: a dict with `turn_detection` from the start and `language` once a client set it
pub record SessionConfig : Type 0 where
  pub turn_detection : Json
  pub language : Option Json

pub record Snapshot : Type 0 where
  pub id : String
  pub turn_detection : Json
  pub language : Option Json

pub record Status : Type 0 where
  pub session_id : String
  pub backend_name : String
  pub model : Option String
  pub queue_depth : ℕ
  pub uncommitted_bytes : ℕ
  pub uptime_seconds : ℕ
  pub pid : ℕ
  pub rss_bytes : ℕ

pub data Reason : Type 0 where
  client_close client_cancel : Reason

-- The payloads, without the `event_id` that the server mints for each and never reads again.
pub data ServerEvent : Type 0 where
  server_hello : String → Option String → ServerEvent
  session_created transcription_session_created : Snapshot → ServerEvent
  session_updated transcription_session_updated : Snapshot → ServerEvent
  session_closed : String → Reason → ServerEvent
  audio_committed : ℕ → Option String → ServerEvent
  audio_cleared : Option String → ServerEvent
  transcript_delta transcript_completed : ℕ → String → ServerEvent
  transcript_failed : ℕ → ErrorObject → ServerEvent
  server_status : Status → ServerEvent
  error : ErrorObject → ServerEvent

-- Where `_run_decode` stands: the stream is not open yet; its events are read, `final_text` being
-- the last completed text; a cancel was requested; the task is done.
pub data Phase : Type 0 where
  opening : Phase
  streaming : String → Phase
  cancelling : Phase
  done : Phase

pub record DecodeTask : Type 0 where
  pub item : ℕ
  pub audio : List ℕ
  pub phase : Phase

pub record Session : Type 0 where
  pub session_id : String
  pub config : SessionConfig
  pub buffer : List ℕ
  pub in_flight : Option DecodeTask
  pub current_stream : Bool
  pub closed : Bool
  pub sent : List ServerEvent  -- what reached the socket, oldest first
  pub sends : ℕ  -- calls of `_send` so far
  pub socket_closed : Bool  -- `ws.close` was called
  pub items : ℕ  -- item ids minted so far
  pub ended : Bool  -- `_handle_connection` returned

-- What `json.loads` does: a value, a `JSONDecodeError`, or another exception (too deep a nesting).
pub data Loaded : Type 0 where
  value : Json → Loaded
  decode_error : String → Loaded
  fails : Loaded

-- The configuration, and what a session reads from its surroundings. Functions of a number are
-- read at the number of sends so far, so each call of `_send` may see another value.
pub record Io : Type 0 where
  pub max_append_bytes : ℕ
  pub max_uncommitted_bytes : ℕ
  pub send_queue_high_water_bytes : ℕ
  pub backend_name : String
  pub model : Option String
  pub pending_write_bytes : ℕ → Option ℕ
  pub peer_gone : ℕ → Bool
  pub uptime_seconds : ℕ → ℕ
  pub pid : ℕ
  pub rss_bytes : ℕ → ℕ
  pub loads : String → Loaded
  pub b64decode : String → Option (List ℕ)
