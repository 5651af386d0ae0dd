-- ===== src/Protocol.antt =====
-- stt_server/protocol.py: constants, event type names and error codes; and the "type" of an error
-- object, a table of stt_server/server.py.
use pipecat_local_stt_server.Prelude.{ℕ, ◌*◌, String, List, [], ◌∷◌}

abbrev pub audio_sample_rate_hz : ℕ
audio_sample_rate_hz = 16000

abbrev pub audio_channels : ℕ
audio_channels = 1

abbrev pub audio_sample_width_bytes : ℕ
audio_sample_width_bytes = 2

abbrev pub audio_format : String
audio_format = "pcm16"

abbrev pub max_append_bytes : ℕ
max_append_bytes = 1 * 1024 * 1024

abbrev pub max_uncommitted_seconds : ℕ
max_uncommitted_seconds = 300

abbrev pub max_uncommitted_bytes : ℕ
max_uncommitted_bytes =
    max_uncommitted_seconds * audio_sample_rate_hz * audio_channels * audio_sample_width_bytes

abbrev pub send_queue_high_water_bytes : ℕ
send_queue_high_water_bytes = 1 * 1024 * 1024

abbrev pub evt_session_update : String
evt_session_update = "session.update"

abbrev pub evt_transcription_session_update : String
evt_transcription_session_update = "transcription_session.update"

abbrev pub evt_audio_append : String
evt_audio_append = "input_audio_buffer.append"

abbrev pub evt_audio_commit : String
evt_audio_commit = "input_audio_buffer.commit"

abbrev pub evt_audio_clear : String
evt_audio_clear = "input_audio_buffer.clear"

abbrev pub evt_server_status_req : String
evt_server_status_req = "server.status"

abbrev pub evt_session_close : String
evt_session_close = "session.close"

abbrev pub evt_session_cancel : String
evt_session_cancel = "session.cancel"

abbrev pub client_event_types : List String
client_event_types =
    evt_session_update ∷ evt_transcription_session_update ∷ evt_audio_append ∷ evt_audio_commit
    ∷ evt_audio_clear ∷ evt_server_status_req ∷ evt_session_close ∷ evt_session_cancel ∷ []

pub data ErrorCode : Type 0 where
  invalid_json invalid_event unsupported_event invalid_config buffer_empty buffer_overflow
        payload_too_large backend_error unauthorized internal_error :
      ErrorCode

-- the "type" field of an error object
pub data ErrorType : Type 0 where
  invalid_request_error authentication_error server_error : ErrorType

unfoldable pub error_type_for_code : ErrorCode → ErrorType
error_type_for_code backend_error = server_error
error_type_for_code internal_error = server_error
error_type_for_code unauthorized = authentication_error
error_type_for_code _ = invalid_request_error
