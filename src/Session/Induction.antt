-- ===== src/Session/Induction.antt =====
-- What every handler keeps, every run of `_handle_connection` keeps: the induction over its frames,
-- the dispatch of `_handle_text` and the steps of the decode task, done once.
use pipecat_local_stt_server.Prelude.{
  ℕ, String, Bool, Option, none, some, List, [], ◌∷◌, ◌||◌, if_rule, str_eq, str_contains,
}
use pipecat_local_stt_server.Protocol.{
  ErrorCode, client_event_types, evt_session_update, evt_transcription_session_update,
  evt_audio_append, evt_audio_commit, evt_audio_clear, evt_server_status_req, evt_session_close,
  evt_session_cancel,
}
use pipecat_local_stt_server.Json.{Json, str, arr, obj, Fields, lookup}
use pipecat_local_stt_server.Session.State.{
  Message, Session, Loaded, value, decode_error, fails, Io,
}
use pipecat_local_stt_server.Session.Send.{send_error}
use pipecat_local_stt_server.Session.Audio.{
  handle_binary_audio, on_audio_append_json, on_commit, on_clear,
}
use pipecat_local_stt_server.Session.Update.{on_session_update}
use pipecat_local_stt_server.Session.Decode.{DecodeAct, decode_step}
use pipecat_local_stt_server.Session.Closing.{
  on_status, on_close, on_cancel, request_cancel, teardown_session,
}
use pipecat_local_stt_server.Session.Loop.{
  Wait, dispatch, handle_typed, handle_fields, handle_value, handle_loaded, Frame, binary, textual,
  handle_frame, contain, receive, Act, frame, decode, cancelled, disconnected, live_step, step, run,
}

-- `P` is kept by each handler, by each step of the decode task, and by the ends of a session.
pub record IsKept (io : Io) (P : Session → Type 0) : Type 0 where
  pub error :
      (c : ErrorCode) (m : Message) (ev : Option String) (s : Session)
      → P s
      → P (send_error io c m ev s)
  pub audio : (bytes : List ℕ) (s : Session) → P s → P (handle_binary_audio io bytes s)
  pub append : (msg : Fields) (s : Session) → P s → P (on_audio_append_json io msg s)
  pub commit : (ev : Option String) (s : Session) → P s → P (on_commit io ev s)
  pub clear : (ev : Option String) (s : Session) → P s → P (on_clear io ev s)
  pub status : (s : Session) → P s → P (on_status io s)
  pub update :
      (msg : Fields) (ev : Option String) (s : Session) → P s → P (on_session_update io msg ev s).0
  pub close :
      (shutting_down : Bool) (during : List DecodeAct) (s : Session)
      → P s
      → P (on_close io shutting_down during s)
  pub cancel : (during : List DecodeAct) (s : Session) → P s → P (on_cancel io during s)
  pub decoding : (act : DecodeAct) (s : Session) → P s → P (decode_step io act s)
  pub cancelling : (s : Session) → P s → P (request_cancel s)
  pub teardown : (s : Session) → P s → P (teardown_session s)

module _ {io : Io} (P : Session → Type 0) (k : IsKept io P) where
  -- the state that a handler returns, raised or not
  abbrev After : Session × Bool → Type 0
  After r = P r.0

  dispatch_kept :
      (w : Wait) (t : String) (msg : Fields) (ev : Option String) (s : Session)
      → P s
      → P (dispatch io w t msg ev s).0
  unfolding dispatch
  dispatch_kept w t msg ev s p =
      if_rule After (str_eq t evt_session_update || str_eq t evt_transcription_session_update) _ _
        (λ _. k.update msg ev s p)
        λ _.
          if_rule After (str_eq t evt_audio_append) _ _ (λ _. k.append msg s p)
            λ _.
              if_rule After (str_eq t evt_audio_commit) _ _ (λ _. k.commit ev s p)
                λ _.
                  if_rule After (str_eq t evt_audio_clear) _ _ (λ _. k.clear ev s p)
                    λ _.
                      if_rule After (str_eq t evt_server_status_req) _ _ (λ _. k.status s p)
                        λ _.
                          if_rule After (str_eq t evt_session_close) _ _
                            (λ _. k.close w.shutting_down w.during s p)
                            λ _.
                              if_rule After (str_eq t evt_session_cancel) _ _
                                (λ _. k.cancel w.during s p) λ _. p

  handle_typed_kept :
      (w : Wait) (t : Json) (msg : Fields) (ev : Option String) (s : Session)
      → P s
      → P (handle_typed io w t msg ev s).0
  unfolding handle_typed
  handle_typed_kept w (str t) msg ev s p =
      if_rule After (str_contains client_event_types t) _ _ (λ _. dispatch_kept w t msg ev s p)
        λ _. k.error _ _ _ s p
  handle_typed_kept w (arr xs) msg ev s p = p
  handle_typed_kept w (obj fs) msg ev s p = p
  handle_typed_kept w _ msg ev s p = k.error _ _ _ s p

  handle_fields_kept :
      (w : Wait) (t : Option Json) (msg : Fields) (s : Session)
      → P s
      → P (handle_fields io w t msg s).0
  unfolding handle_fields
  handle_fields_kept w none msg s p = k.error _ _ _ s p
  handle_fields_kept w (some t) msg s p = handle_typed_kept w t msg _ s p

  handle_value_kept : (w : Wait) (v : Json) (s : Session) → P s → P (handle_value io w v s).0
  unfolding handle_value
  handle_value_kept w (obj msg) s p = handle_fields_kept w (lookup "type" msg) msg s p
  handle_value_kept w _ s p = k.error _ _ _ s p

  handle_loaded_kept : (w : Wait) (l : Loaded) (s : Session) → P s → P (handle_loaded io w l s).0
  unfolding handle_loaded
  handle_loaded_kept w (value v) s p = handle_value_kept w v s p
  handle_loaded_kept w (decode_error m) s p = k.error _ _ _ s p
  handle_loaded_kept w fails s p = p

  handle_frame_kept : (w : Wait) (f : Frame) (s : Session) → P s → P (handle_frame io w f s).0
  unfolding handle_frame
  handle_frame_kept w (binary bytes) s p = k.audio bytes s p
  handle_frame_kept w (textual raw) s p = handle_loaded_kept w (io.loads raw) s p

  contain_kept : (r : Session × Bool) → P r.0 → P (contain io r)
  unfolding contain
  contain_kept (s, raised) p = if_rule P raised _ _ (λ _. k.error _ _ _ s p) λ _. p

  live_step_kept : (act : Act) (s : Session) → P s → P (live_step io act s)
  unfolding live_step receive
  live_step_kept (frame w f) s p =
      if_rule P s.closed _ _ (λ _. k.teardown s p)
        λ _. contain_kept (handle_frame io w f s) (handle_frame_kept w f s p)
  live_step_kept (decode act) s p = k.decoding act s p
  live_step_kept cancelled s p = k.cancelling s p
  live_step_kept disconnected s p = k.teardown s p

  pub step_kept : (act : Act) (s : Session) → P s → P (step io act s)
  unfolding step
  step_kept act s p = if_rule P s.ended _ _ (λ _. p) λ _. live_step_kept act s p

  pub run_kept : (acts : List Act) (s : Session) → P s → P (run io acts s)
  unfolding run
  run_kept [] s p = p
  run_kept (act ∷ acts) s p = run_kept acts (step io act s) (step_kept act s p)
