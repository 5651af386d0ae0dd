-- ===== src/Session/Requests.antt =====
-- How text frames are answered: those that name no client event, and session updates.
use pipecat_local_stt_server.Prelude.{
  String, Bool, false, Option, none, some, ◌≡◌, refl, ◌∙◌, if_rule, str_contains, false≢true, sym,
}
use pipecat_local_stt_server.Protocol.{
  ErrorCode, client_event_types, invalid_json, invalid_event, unsupported_event, internal_error,
}
use pipecat_local_stt_server.Json.{Json, str, arr, obj, Fields, lookup, as_str}
use pipecat_local_stt_server.Session.State.{
  Message, text, json_error, unknown_event, Session, Loaded, value, decode_error, fails, Io,
}
use pipecat_local_stt_server.Session.Send.{send_error}
use pipecat_local_stt_server.Session.Loop.{
  Wait, handle_fields, handle_loaded, handle_frame, textual, contain, receive,
}

-- whether the type of an object is a client event's
pub names_type : Option Json → Bool
names_type (some (str name)) = str_contains client_event_types name
names_type _ = false

-- whether a frame is an object whose type is a client event
unfoldable pub names_event : Loaded → Bool
unfolding names_type
names_event (value (obj msg)) = names_type (lookup "type" msg)
names_event _ = false

-- the error code for an object whose type is none
pub type_code : Option Json → ErrorCode
type_code none = invalid_event
type_code (some (arr xs)) = internal_error
type_code (some (obj fs)) = internal_error
type_code (some _) = unsupported_event

-- the error code for a frame that names no client event
pub refusal_code : Loaded → ErrorCode
unfolding type_code
refusal_code (value (obj msg)) = type_code (lookup "type" msg)
refusal_code (value _) = invalid_event
refusal_code (decode_error m) = invalid_json
refusal_code fails = internal_error

abbrev pub IsError : Io → ErrorCode → Session → Session → Type 0
IsError io c s t = (m : Message) × (ev : Option String) × (t ≡ send_error io c m ev s)

module _ (io : Io) (w : Wait) (s : Session) where
  fields_refused :
      (msg : Fields) (o : Option Json)
      → names_type o ≡ false
      → IsError io (type_code o) s (contain io (handle_fields io w o msg s))
  unfolding names_type type_code handle_fields contain
  fields_refused msg none h = (text "missing type", none, refl)
  fields_refused msg (some (str t)) h =
      rw h (unknown_event (str t), as_str (lookup "event_id" msg), refl)
  fields_refused msg (some (arr xs)) h = (text "internal error", none, refl)
  fields_refused msg (some (obj fs)) h = (text "internal error", none, refl)
  fields_refused msg (some t) h = (unknown_event t, as_str (lookup "event_id" msg), refl)

  loaded_refused :
      (l : Loaded)
      → names_event l ≡ false
      → IsError io (refusal_code l) s (contain io (handle_loaded io w l s))
  unfolding names_event refusal_code handle_loaded contain
  loaded_refused (value (obj msg)) h = fields_refused msg (lookup "type" msg) h
  loaded_refused (value _) h = (text "missing type", none, refl)
  loaded_refused (decode_error m) h = (json_error m, none, refl)
  loaded_refused fails h = (text "internal error", none, refl)

-- On a session that is not closed, a text frame that is no object with the type of a client event
-- is answered by one error and changes nothing else. The code is `invalid_json` for text that is
-- no JSON, `invalid_event` for a value that is no object or has no type, `unsupported_event` for
-- another type, and `internal_error` where the type is a list or an object or `loads` fails
-- otherwise.
pub malformed_answered :
    (io : Io) (w : Wait) (raw : String) (s : Session)
    → s.closed ≡ false
    → names_event (io.loads raw) ≡ false
    → IsError io (refusal_code (io.loads raw)) s (receive io w (textual raw) s)
unfolding receive handle_frame
malformed_answered io w raw s not_closed h =
    if_rule (IsError io (refusal_code (io.loads raw)) s) s.closed _ _
      (λ shut. absurd (false≢true (sym not_closed ∙ shut)))
      λ _. loaded_refused io w s (io.loads raw) h
