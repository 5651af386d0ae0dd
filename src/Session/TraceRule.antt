-- ===== src/Session/TraceRule.antt =====
-- The rest of the handlers, for a property of the sent events: with Session.Traces, every run keeps it.
use pipecat_local_stt_server.Prelude.{
  String, Bool, false, Option, none, some, List, [], refl, if_rule,
}
use pipecat_local_stt_server.Json.{Fields, lookup, as_str}
use pipecat_local_stt_server.Session.State.{
  SessionConfig, client_close, client_cancel, done, DecodeTask, Session, Io,
}
use pipecat_local_stt_server.Session.Audio.{busy, is_done, on_audio_append_json}
use pipecat_local_stt_server.Session.Update.{
  Check, accepts, refuses, raises, read_update, check_turn_detection, apply_update, announce_update,
  updated, on_session_update,
}
use pipecat_local_stt_server.Session.Decode.{DecodeAct}
use pipecat_local_stt_server.Session.Closing.{
  on_status, request_cancel_of, request_cancel, cancel_decode_of, cancel_decode, on_close,
  on_cancel, teardown_session,
}
use pipecat_local_stt_server.Session.Induction.{IsKept}
use pipecat_local_stt_server.Session.Traces.{
  IsStable, error_stable, audio_stable, append_text_stable, working_on, commit_stable, clear_stable,
  put_stable, decode_step_stable, decode_run_stable,
}

module _ {io : Io} (P : Session → Type 0) (k : IsStable io P) where
  configured_stable : (c : SessionConfig) (s : Session) → P s → P (record s { config = c })
  configured_stable c s p =
      k.working s _
        (record {
          session_id = refl;
          sent = refl;
          sends = refl;
          closed = refl;
          socket_closed = refl;
        })
        p

  announce_stable : (s : Session) → P s → P (announce_update io s)
  unfolding announce_update
  announce_stable s p = k.sending _ _ _ tt (k.sending _ _ s tt p)

  apply_update_stable :
      (ev : Option String) (session audio_in : Fields) (s : Session)
      → P s
      → P (apply_update io ev session audio_in s)
  unfolding apply_update
  apply_update_stable ev session audio_in s p =
      let first = check_turn_detection (lookup "turn_detection" session) s.config in
      let second = check_turn_detection (lookup "turn_detection" audio_in) first.1 in
      if_rule P first.0 _ _ (λ _. error_stable P k _ _ _ _ (configured_stable first.1 s p))
        λ _.
          if_rule P second.0 _ _ (λ _. error_stable P k _ _ _ _ (configured_stable second.1 s p))
            λ _. announce_stable _ (configured_stable _ s p)

  updated_stable :
      (ev : Option String) (c : Check (Fields × Fields)) (s : Session)
      → P s
      → P (updated io ev c s).0
  unfolding updated
  updated_stable ev (accepts (session, audio_in)) s p = apply_update_stable ev session audio_in s p
  updated_stable ev (refuses m) s p = error_stable P k _ _ _ s p
  updated_stable ev raises s p = p

  update_stable :
      (msg : Fields) (ev : Option String) (s : Session) → P s → P (on_session_update io msg ev s).0
  unfolding on_session_update
  update_stable msg ev s p = updated_stable ev (read_update msg) s p

  request_cancel_of_stable : (o : Option DecodeTask) (s : Session) → P s → P (request_cancel_of o s)
  unfolding request_cancel_of
  request_cancel_of_stable none s p = p
  request_cancel_of_stable (some t) s p =
      if_rule P (is_done t.phase) _ _ (λ _. p)
        λ _. working_on P k s s.buffer _ s.current_stream s.items p

  request_cancel_stable : (s : Session) → P s → P (request_cancel s)
  unfolding request_cancel
  request_cancel_stable s p = request_cancel_of_stable s.in_flight s p

  cancel_decode_of_stable : (o : Option DecodeTask) (s : Session) → P s → P (cancel_decode_of o s)
  unfolding cancel_decode_of
  cancel_decode_of_stable none s p = p
  cancel_decode_of_stable (some t) s p =
      if_rule P (is_done t.phase) _ _ (λ _. p) λ _. put_stable P k done false t s p

  cancel_decode_stable : (s : Session) → P s → P (cancel_decode s)
  unfolding cancel_decode
  cancel_decode_stable s p = cancel_decode_of_stable s.in_flight s p

  close_stable :
      (shutting_down : Bool) (during : List DecodeAct) (s : Session)
      → P s
      → P (on_close io shutting_down during s)
  unfolding on_close
  close_stable shutting_down during s p =
      if_rule P s.closed _ _ (λ _. p)
        λ _. k.saying client_close _ (
          if_rule P (busy s) _ _
            (λ _.
              if_rule P shutting_down _ _ (λ _. request_cancel_stable s p)
                λ _. cancel_decode_stable _ (decode_run_stable P k during s p))
            λ _. p)

  cancel_stable : (during : List DecodeAct) (s : Session) → P s → P (on_cancel io during s)
  unfolding on_cancel
  cancel_stable during s p =
      let emptied = working_on P k s [] s.in_flight s.current_stream s.items p in
      if_rule P s.closed _ _ (λ _. p)
        λ _. k.saying client_cancel _ (
          cancel_decode_stable _ (
            if_rule P s.current_stream _ _ (λ _. decode_run_stable P k during _ emptied)
              λ _. emptied))

  teardown_stable : (s : Session) → P s → P (teardown_session s)
  unfolding teardown_session
  teardown_stable s p =
      k.working _ _
        (record {
          session_id = refl;
          sent = refl;
          sends = refl;
          closed = refl;
          socket_closed = refl;
        })
        (k.closing _ (cancel_decode_stable s p))

  -- What sends and `say_closed` keep, every handler keeps.
  pub IsStable-IsKept : IsKept io P
  unfolding on_status on_audio_append_json
  IsStable-IsKept = record {
    error = error_stable P k;
    audio = audio_stable P k;
    append = λ msg s p. append_text_stable P k (as_str (lookup "audio" msg)) s p;
    commit = commit_stable P k;
    clear = clear_stable P k;
    status = λ s p. k.sending _ _ s tt p;
    update = update_stable;
    close = close_stable;
    cancel = cancel_stable;
    decoding = decode_step_stable P k;
    cancelling = request_cancel_stable;
    teardown = teardown_stable;
  }
