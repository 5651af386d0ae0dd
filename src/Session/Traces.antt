-- ===== src/Session/Traces.antt =====
-- What is sent: a property of the sent events and of the closing flags that sends and `say_closed`
-- keep is kept by every handler.
use pipecat_local_stt_server.Prelude.{
  ℕ, ◌+◌, ◌%◌, String, Bool, true, false, not, Option, none, some, List, [], ◌∷◌, ◌≡◌, refl, suc,
  if_rule, ltb, ◌==◌, length,
}
use pipecat_local_stt_server.Protocol.{ErrorCode}
use pipecat_local_stt_server.Session.State.{
  Message, error, session_closed, ServerEvent, Reason, Phase, opening, streaming, cancelling,
  DecodeTask, Session, Io, audio_committed,
}
use pipecat_local_stt_server.Session.Send.{send, send_error, error_object, echoed}
use pipecat_local_stt_server.Session.Audio.{
  busy, handle_binary_audio, append_decoded, append_text, accept_commit, on_commit, on_clear,
}
use pipecat_local_stt_server.Session.Decode.{
  DecodeAct, assigned, opened, delta, completed, finished, failed, unwound, put_phase, decode_task,
  decode_step_of, decode_step, decode_run,
}
use pipecat_local_stt_server.Session.Closing.{say_closed}

-- Two states with the same events sent and the same closing flags.
pub record SameTrace (s t : Session) : Type 0 where
  pub session_id : t.session_id ≡ s.session_id
  pub sent : t.sent ≡ s.sent
  pub sends : t.sends ≡ s.sends
  pub closed : t.closed ≡ s.closed
  pub socket_closed : t.socket_closed ≡ s.socket_closed

-- every event but `session.closed`
abbrev pub IsReport : ServerEvent → Type 0
IsReport (session_closed id r) = ⊥
IsReport _ = Unit

pub record IsStable (io : Io) (P : Session → Type 0) : Type 0 where
  pub sending :
      (force : Bool) (e : ServerEvent) (s : Session) → IsReport e → P s → P (send io force e s)
  pub saying : (r : Reason) (s : Session) → P s → P (say_closed io r s)
  pub working : (s t : Session) → SameTrace s t → P s → P t
  pub closing : (s : Session) → P s → P (record s { closed = true })

module _ {io : Io} (P : Session → Type 0) (k : IsStable io P) where
  pub error_stable :
      (c : ErrorCode) (m : Message) (ev : Option String) (s : Session)
      → P s
      → P (send_error io c m ev s)
  unfolding send_error
  error_stable c m ev s p = k.sending true (error (error_object c m ev)) s tt p

  pub audio_stable : (bytes : List ℕ) (s : Session) → P s → P (handle_binary_audio io bytes s)
  unfolding handle_binary_audio
  audio_stable bytes s p =
      if_rule P (busy s) _ _ (λ _. error_stable _ _ _ s p)
        λ _.
          if_rule P (ltb io.max_append_bytes (length bytes)) _ _ (λ _. error_stable _ _ _ s p)
            λ _.
              if_rule P (not (length bytes % 2 == 0)) _ _ (λ _. error_stable _ _ _ s p)
                λ _.
                  if_rule P (ltb io.max_uncommitted_bytes (length s.buffer + length bytes)) _ _
                    (λ _. error_stable _ _ _ s p)
                    λ _.
                      k.working s _
                        (record {
                          session_id = refl;
                          sent = refl;
                          sends = refl;
                          closed = refl;
                          socket_closed = refl;
                        })
                        p

  append_decoded_stable : (o : Option (List ℕ)) (s : Session) → P s → P (append_decoded io o s)
  unfolding append_decoded
  append_decoded_stable none s p = error_stable _ _ _ s p
  append_decoded_stable (some bytes) s p = audio_stable bytes s p

  pub append_text_stable : (o : Option String) (s : Session) → P s → P (append_text io o s)
  unfolding append_text
  append_text_stable none s p = error_stable _ _ _ s p
  append_text_stable (some a) s p = append_decoded_stable (io.b64decode a) s p

  pub working_on :
      (s : Session) (buffer : List ℕ) (task : Option DecodeTask) (stream : Bool) (items : ℕ)
      → P s
      → P (record s { buffer = buffer; in_flight = task; current_stream = stream; items = items })
  working_on s buffer task stream items p =
      k.working s _
        (record {
          session_id = refl;
          sent = refl;
          sends = refl;
          closed = refl;
          socket_closed = refl;
        })
        p

  pub commit_stable : (ev : Option String) (s : Session) → P s → P (on_commit io ev s)
  unfolding on_commit accept_commit
  commit_stable ev s p =
      if_rule P (length s.buffer == 0) _ _ (λ _. error_stable _ _ _ s p)
        λ _.
          if_rule P (busy s) _ _ (λ _. error_stable _ _ _ s p)
            λ _. working_on _ _ _ _ _ (
              k.sending false (audio_committed s.items (echoed ev)) _ tt
                (working_on s [] s.in_flight s.current_stream (suc s.items) p))

  pub clear_stable : (ev : Option String) (s : Session) → P s → P (on_clear io ev s)
  unfolding on_clear
  clear_stable ev s p =
      if_rule P (busy s) _ _ (λ _. error_stable _ _ _ s p)
        λ _. k.sending _ _ _ tt (working_on s [] s.in_flight s.current_stream s.items p)

  pub put_stable :
      (p : Phase) (b : Bool) (t : DecodeTask) (s : Session) → P s → P (put_phase p b t s)
  unfolding put_phase
  put_stable p b t s h = working_on s s.buffer _ b s.items h

  decode_task_stable :
      (t : DecodeTask) (p : Phase) (act : DecodeAct) (s : Session)
      → P s
      → P (decode_task io t p act s)
  unfolding decode_task
  decode_task_stable t opening assigned s h = put_stable _ _ t s h
  decode_task_stable t opening opened s h = put_stable _ _ t s h
  decode_task_stable t opening failed s h = put_stable _ _ t _ (k.sending _ _ s tt h)
  decode_task_stable t (streaming f) (delta d) s h = k.sending _ _ s tt h
  decode_task_stable t (streaming f) (completed c) s h = put_stable _ _ t s h
  decode_task_stable t (streaming f) finished s h = put_stable _ _ t _ (k.sending _ _ s tt h)
  decode_task_stable t (streaming f) failed s h = put_stable _ _ t _ (k.sending _ _ s tt h)
  decode_task_stable t cancelling unwound s h = put_stable _ _ t s h
  decode_task_stable t _ _ s h = h

  decode_step_of_stable :
      (o : Option DecodeTask) (act : DecodeAct) (s : Session) → P s → P (decode_step_of io o act s)
  unfolding decode_step_of
  decode_step_of_stable none act s h = h
  decode_step_of_stable (some t) act s h = decode_task_stable t t.phase act s h

  pub decode_step_stable : (act : DecodeAct) (s : Session) → P s → P (decode_step io act s)
  unfolding decode_step
  decode_step_stable act s h = decode_step_of_stable s.in_flight act s h

  pub decode_run_stable : (acts : List DecodeAct) (s : Session) → P s → P (decode_run io acts s)
  unfolding decode_run
  decode_run_stable [] s h = h
  decode_run_stable (act ∷ acts) s h =
      decode_run_stable acts (decode_step io act s) (decode_step_stable act s h)
