-- ===== src/Client/Requests.antt =====
-- What a client's methods send, as the server's session takes it: `TranscriptionClient` of
-- stt_server/client.py beside `_handle_text` and `_handle_binary_audio` of stt_server/server.py.
use pipecat_local_stt_server.Prelude.{
  ℕ, String, false, Option, none, some, List, ◌≡◌, refl, sym, ◌∙◌, ap, ltb, Bool-cases, inl, inr,
  if_rule, if◌then◌else◌, false≢true,
}
use pipecat_local_stt_server.Protocol.{
  audio_sample_rate_hz, audio_channels, audio_format, evt_session_update, evt_audio_append,
  evt_audio_commit, evt_server_status_req, evt_session_close, evt_session_cancel,
}
use pipecat_local_stt_server.Json.{
  Json, null, num, str, obj, Fields, end, field, lookup, truthy, or_dict, eq_str, eq_nat, as_str,
}
use pipecat_local_stt_server.Session.State.{Session, Io, value}
use pipecat_local_stt_server.Session.Audio.{
  handle_binary_audio, append_decoded, append_text, on_audio_append_json, on_commit,
}
use pipecat_local_stt_server.Session.Update.{
  as_dict, check_root, absent_or, check_fields, check_format, read_update, check_turn_detection,
  set_language, nested_language, update_languages, turn_detection_error, announce_update,
  apply_update, updated, on_session_update,
}
use pipecat_local_stt_server.Session.Closing.{on_status, on_close, on_cancel, teardown_session}
use pipecat_local_stt_server.Session.Loop.{
  Wait, dispatch, handle_typed, handle_fields, handle_value, handle_loaded, handle_text, Frame,
  binary, textual, handle_frame, returns, disconnected, frame, frame_size, arrival, contain,
  receive, live_step, step,
}

-- The methods that send, with their arguments.
pub data Request : Type 0 where
  update_session : Option String → Option String → Request
  send_audio send_audio_base64 : List ℕ → Request
  commit status close_session cancel : Request

-- json.dumps, and base64.b64encode with its text
pub record Codec : Type 0 where
  pub dumps : Json → String
  pub b64encode : List ℕ → String

abbrev pub or_null : Option String → Json
or_null none = null
or_null (some val) = str val

abbrev pub audio_format_fields : Fields
audio_format_fields = field "encoding" (str audio_format) (
    field "rate" (num false audio_sample_rate_hz 0)
      (field "channels" (num false audio_channels 0) end))

abbrev pub language_field : Option String → Fields
language_field none = end
language_field (some language) = field "language" (str language) end

-- `session` of `update_session`
abbrev pub session_fields : Option String → Option String → Fields
session_fields turn_detection language = field "type" (str "transcription") (
    field "audio"
      (obj (
        field "input"
          (obj (
            field "format" (obj audio_format_fields)
              (field "turn_detection" (or_null turn_detection) (language_field language))))
          end))
      end)

-- {"type": name, ...}
abbrev pub event : String → Fields → Json
event name rest = obj (field "type" (str name) rest)

-- what is dumped; nothing is, where the audio goes as it is
abbrev pub message : Codec → Request → Json
message codec (update_session turn_detection language) =
    event evt_session_update (field "session" (obj (session_fields turn_detection language)) end)
message codec (send_audio pcm) = null
message codec (send_audio_base64 pcm) =
    event evt_audio_append (field "audio" (str (codec.b64encode pcm)) end)
message codec commit = event evt_audio_commit end
message codec status = event evt_server_status_req end
message codec close_session = event evt_session_close end
message codec cancel = event evt_session_cancel end

unfoldable pub frame_of : Codec → Request → Frame
frame_of codec (send_audio pcm) = binary pcm
frame_of codec r = textual (codec.dumps (message codec r))

-- The server's decoders read what the client's encoders give for a request.
pub record Reads (io : Io) (codec : Codec) (r : Request) : Type 0 where
  pub json : io.loads (codec.dumps (message codec r)) ≡ value (message codec r)
  pub base64 :
      (pcm : List ℕ) → r ≡ send_audio_base64 pcm → io.b64decode (codec.b64encode pcm) ≡ some pcm

abbrev pub or_language : Option String → Option Json → Option Json
or_language none before = before
or_language (some language) before = some (str language)

-- What a request asks of a session.
unfoldable pub asked : Io → Wait → Request → Session → Session
unfolding announce_update turn_detection_error
asked io w (update_session none language) s = announce_update io (record s {
  config = record { turn_detection = null; language = or_language language s.config.language };
})
asked io w (update_session (some turn_detection) language) s = turn_detection_error io none s
asked io w (send_audio pcm) s = handle_binary_audio io pcm s
asked io w (send_audio_base64 pcm) s = handle_binary_audio io pcm s
asked io w commit s = on_commit io none s
asked io w status s = on_status io s
asked io w close_session s = on_close io w.shutting_down w.during s
asked io w cancel s = on_cancel io w.during s

-- None of them raises.
pub request_handled :
    (io : Io) (codec : Codec) (w : Wait) (r : Request) (s : Session)
    → Reads io codec r
    → handle_frame io w (frame_of codec r) s ≡ returns (asked io w r s)
unfolding asked handle_frame frame_of handle_text handle_loaded handle_value handle_fields
    handle_typed dispatch lookup as_str on_session_update read_update or_dict as_dict truthy
    check_root check_format check_fields absent_or eq_str eq_nat updated apply_update
    check_turn_detection set_language nested_language update_languages on_audio_append_json
    append_text append_decoded
request_handled io codec w (update_session none none) s reads = rw (reads.json) refl
request_handled io codec w (update_session none (some language)) s reads = rw (reads.json) refl
request_handled io codec w (update_session (some turn_detection) none) s reads =
    rw (reads.json) refl
request_handled io codec w (update_session (some turn_detection) (some language)) s reads =
    rw (reads.json) refl
request_handled io codec w (send_audio pcm) s reads = refl
request_handled io codec w (send_audio_base64 pcm) s reads =
    rw (reads.json) (rw (reads.base64 pcm refl) refl)
request_handled io codec w commit s reads = rw (reads.json) refl
request_handled io codec w status s reads = rw (reads.json) refl
request_handled io codec w close_session s reads = rw (reads.json) refl
request_handled io codec w cancel s reads = rw (reads.json) refl

step-received :
    (io : Io) (w : Wait) (f : Frame) (s : Session)
    → s.ended ≡ false
    → s.closed ≡ false
    → step io (frame w f) s ≡ contain io (handle_frame io w f s)
unfolding step live_step receive
step-received io w f s live open_session =
    if_rule (λ t. t ≡ contain io (handle_frame io w f s)) s.ended _ _
      (λ over. absurd (false≢true (sym live ∙ over)))
      λ _.
        if_rule (λ t. t ≡ contain io (handle_frame io w f s)) s.closed _ _
          (λ shut. absurd (false≢true (sym open_session ∙ shut))) (λ _. refl)

step-disconnected :
    (io : Io) (s : Session) → s.ended ≡ false → step io disconnected s ≡ teardown_session s
unfolding step live_step
step-disconnected io s live =
    if_rule (λ t. t ≡ teardown_session s) s.ended _ _
      (λ over. absurd (false≢true (sym live ∙ over))) (λ _. refl)

-- What becomes of a client's request, on a session that is not closed and where the server's decoders read
-- what the client encodes. A message above the server's `max_append_bytes` ends the connection: audio
-- sent as base64 is longer than in a binary frame, so it may where that does not. Any other is understood:
-- an update without turn detection is accepted and sets the language, if one is given, an update with it is
-- refused, audio is appended, as base64 like in a binary frame, and a commit, a status request, a close and
-- a cancel reach their handlers.
pub request_understood :
    (io : Io) (codec : Codec) (utf8_size : String → ℕ) (w : Wait) (r : Request) (s : Session)
    → Reads io codec r
    → s.ended ≡ false
    → s.closed ≡ false
    → step io (arrival io utf8_size w (frame_of codec r)) s ≡ (
        if ltb io.max_append_bytes (frame_size utf8_size (frame_of codec r))
        then teardown_session s
        else asked io w r s)
unfolding arrival contain
request_understood io codec utf8_size w r s reads live open_session =
    elim (Bool-cases (ltb io.max_append_bytes (frame_size utf8_size (frame_of codec r)))) [
      | inl long ↦ rw long (step-disconnected io s live)
      | inr short ↦ rw short (
          step-received io w (frame_of codec r) s live open_session
          ∙ ap (contain io) (request_handled io codec w r s reads))
    ]
