-- ===== src/Session/Preserved.antt =====
-- The decode task and the closing handlers keep the invariant.
use pipecat_local_stt_server.Prelude.{
  Bool, true, false, Option, none, some, List, [], ◌∷◌, ◌≡◌, ◌∙◌, subst, refl, if_rule,
}
use pipecat_local_stt_server.Session.State.{
  session_closed, ServerEvent, client_close, client_cancel, Phase, opening, streaming, cancelling,
  done, DecodeTask, Session, Reason, Io,
}
use pipecat_local_stt_server.Session.Send.{send}
use pipecat_local_stt_server.Session.Audio.{busy, is_done}
use pipecat_local_stt_server.Session.Decode.{
  DecodeAct, assigned, opened, delta, completed, finished, failed, unwound, put_phase, decode_task,
  decode_step_of, decode_step, decode_run,
}
use pipecat_local_stt_server.Session.Closing.{
  request_cancel_of, request_cancel, cancel_decode_of, cancel_decode, say_closed, on_close,
  on_cancel, teardown_session,
}
use pipecat_local_stt_server.Session.Sending.{send-SameWork}
use pipecat_local_stt_server.Session.Invariant.{IsTask, IsSound, send-IsSound, emptied-IsSound}

module _ {io : Io} where
  -- A task may change its phase, after sends.
  put_phase-IsSound :
      (p : Phase) (b : Bool) (t : DecodeTask) (s : Session)
      → s.in_flight ≡ some t
      → IsSound io s
      → IsSound io (put_phase p b t s)
  unfolding put_phase
  put_phase-IsSound p b t s e sound = record {
    buffered = sound.buffered;
    task = subst (IsTask io s.items) e sound.task;
    no_vad = sound.no_vad;
  }

  send_put-IsSound :
      (p : Phase) (force : Bool) (e : ServerEvent) (t : DecodeTask) (s : Session)
      → s.in_flight ≡ some t
      → IsSound io s
      → IsSound io (put_phase p false t (send io force e s))
  send_put-IsSound p force e t s running sound =
      put_phase-IsSound p false t _ ((send-SameWork io s force e).in_flight ∙ running)
        (send-IsSound s force e sound)

  decode_task-IsSound :
      (t : DecodeTask) (p : Phase) (act : DecodeAct) (s : Session)
      → s.in_flight ≡ some t
      → IsSound io s
      → IsSound io (decode_task io t p act s)
  unfolding decode_task
  decode_task-IsSound t opening assigned s e sound = put_phase-IsSound _ _ t s e sound
  decode_task-IsSound t opening opened s e sound = put_phase-IsSound _ _ t s e sound
  decode_task-IsSound t opening failed s e sound = send_put-IsSound _ _ _ t s e sound
  decode_task-IsSound t (streaming f) (delta d) s e sound = send-IsSound s _ _ sound
  decode_task-IsSound t (streaming f) (completed c) s e sound = put_phase-IsSound _ _ t s e sound
  decode_task-IsSound t (streaming f) finished s e sound = send_put-IsSound _ _ _ t s e sound
  decode_task-IsSound t (streaming f) failed s e sound = send_put-IsSound _ _ _ t s e sound
  decode_task-IsSound t cancelling unwound s e sound = put_phase-IsSound _ _ t s e sound
  decode_task-IsSound t _ _ s e sound = sound

  decode_step_of-IsSound :
      (o : Option DecodeTask) (act : DecodeAct) (s : Session)
      → s.in_flight ≡ o
      → IsSound io s
      → IsSound io (decode_step_of io o act s)
  unfolding decode_step_of
  decode_step_of-IsSound none act s e sound = sound
  decode_step_of-IsSound (some t) act s e sound = decode_task-IsSound t t.phase act s e sound

  pub decode_step-IsSound :
      (act : DecodeAct) (s : Session) → IsSound io s → IsSound io (decode_step io act s)
  unfolding decode_step
  decode_step-IsSound act s sound = decode_step_of-IsSound s.in_flight act s refl sound

  decode_run-IsSound :
      (acts : List DecodeAct) (s : Session) → IsSound io s → IsSound io (decode_run io acts s)
  unfolding decode_run
  decode_run-IsSound [] s sound = sound
  decode_run-IsSound (act ∷ acts) s sound =
      decode_run-IsSound acts (decode_step io act s) (decode_step-IsSound act s sound)

  request_cancel_of-IsSound :
      (o : Option DecodeTask) (s : Session)
      → s.in_flight ≡ o
      → IsSound io s
      → IsSound io (request_cancel_of o s)
  unfolding request_cancel_of put_phase
  request_cancel_of-IsSound none s e sound = sound
  request_cancel_of-IsSound (some t) s e sound =
      if_rule (IsSound io) (is_done t.phase) _ _ (λ _. sound)
        λ _. put_phase-IsSound cancelling s.current_stream t s e sound

  pub request_cancel-IsSound : (s : Session) → IsSound io s → IsSound io (request_cancel s)
  unfolding request_cancel
  request_cancel-IsSound s sound = request_cancel_of-IsSound s.in_flight s refl sound

  cancel_decode_of-IsSound :
      (o : Option DecodeTask) (s : Session)
      → s.in_flight ≡ o
      → IsSound io s
      → IsSound io (cancel_decode_of o s)
  unfolding cancel_decode_of
  cancel_decode_of-IsSound none s e sound = sound
  cancel_decode_of-IsSound (some t) s e sound =
      if_rule (IsSound io) (is_done t.phase) _ _ (λ _. sound)
        λ _. put_phase-IsSound done false t s e sound

  pub cancel_decode-IsSound : (s : Session) → IsSound io s → IsSound io (cancel_decode s)
  unfolding cancel_decode
  cancel_decode-IsSound s sound = cancel_decode_of-IsSound s.in_flight s refl sound

  -- `closed` and the like are no part of the invariant.
  say_closed-IsSound : (r : Reason) (s : Session) → IsSound io s → IsSound io (say_closed io r s)
  unfolding say_closed
  say_closed-IsSound r s sound =
      let same =
        send-SameWork io (record s { closed = true }) true (session_closed s.session_id r) in
      record {
        buffered = rw same.buffer sound.buffered;
        task = rw same.items (rw same.in_flight sound.task);
        no_vad = rw same.config sound.no_vad;
      }

  pub on_close-IsSound :
      (shutting_down : Bool) (during : List DecodeAct) (s : Session)
      → IsSound io s
      → IsSound io (on_close io shutting_down during s)
  unfolding on_close
  on_close-IsSound shutting_down during s sound =
      if_rule (IsSound io) s.closed _ _ (λ _. sound)
        λ _. say_closed-IsSound client_close _ (
          if_rule (IsSound io) (busy s) _ _
            (λ _.
              if_rule (IsSound io) shutting_down _ _ (λ _. request_cancel-IsSound s sound)
                λ _. cancel_decode-IsSound _ (decode_run-IsSound during s sound))
            λ _. sound)

  pub on_cancel-IsSound :
      (during : List DecodeAct) (s : Session) → IsSound io s → IsSound io (on_cancel io during s)
  unfolding on_cancel
  on_cancel-IsSound during s sound =
      if_rule (IsSound io) s.closed _ _ (λ _. sound)
        λ _. say_closed-IsSound client_cancel _ (
          cancel_decode-IsSound _ (
            if_rule (IsSound io) s.current_stream _ _
              (λ _. decode_run-IsSound during _ (emptied-IsSound s sound))
              λ _. emptied-IsSound s sound))

  pub teardown_session-IsSound : (s : Session) → IsSound io s → IsSound io (teardown_session s)
  unfolding teardown_session
  teardown_session-IsSound s sound =
      let kept = cancel_decode-IsSound s sound in
      record { buffered = kept.buffered; task = kept.task; no_vad = kept.no_vad }
