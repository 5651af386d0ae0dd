-- ===== src/Session/Stops.antt =====
-- `session.close`, `session.cancel` and the end of a connection leave no decode running.
use pipecat_local_stt_server.Prelude.{if◌then◌else◌}
use pipecat_local_stt_server.Prelude.{
  true, false, Option, none, some, List, [], ◌≡◌, refl, ◌∙◌, sym, if_rule, false≢true,
}
use pipecat_local_stt_server.Session.State.{
  session_closed, Reason, client_close, client_cancel, DecodeTask, Session, Io,
}
use pipecat_local_stt_server.Session.Audio.{busy, is_done, task_busy}
use pipecat_local_stt_server.Session.Decode.{DecodeAct, decode_run}
use pipecat_local_stt_server.Session.Closing.{
  cancel_decode_of, cancel_decode, say_closed, on_close, on_cancel, teardown_session,
}
use pipecat_local_stt_server.Session.Sending.{send-SameWork, closed-send}

-- no decode runs, and both the session and its socket are closed
pub record IsStopped (s : Session) : Type 0 where
  pub idle : busy s ≡ false
  pub closed : s.closed ≡ true
  pub socket_closed : s.socket_closed ≡ true

cancel_decode_of-idle :
    (o : Option DecodeTask) (s : Session) → s.in_flight ≡ o → busy (cancel_decode_of o s) ≡ false
unfolding cancel_decode_of task_busy
cancel_decode_of-idle none s e = rw e refl
cancel_decode_of-idle (some t) s e =
    if_rule (λ r. busy r ≡ false) (is_done t.phase) _ _ (λ d. rw e (rw d refl)) λ _. refl

cancel_decode-idle : (s : Session) → busy (cancel_decode s) ≡ false
unfolding cancel_decode
cancel_decode-idle s = cancel_decode_of-idle s.in_flight s refl

say_closed-IsStopped :
    (io : Io) (r : Reason) (s : Session) → busy s ≡ false → IsStopped (say_closed io r s)
unfolding say_closed
say_closed-IsStopped io r s idle =
    let closing : Session = record s { closed = true } in
    record {
      idle = rw (send-SameWork io closing true (session_closed s.session_id r)).in_flight idle;
      closed = closed-send io closing true (session_closed s.session_id r) refl;
      socket_closed = refl;
    }

-- After `session.close` outside a shutdown, and after `session.cancel`, on a session that was not
-- closed, whatever the decode task did meanwhile: no decode runs, and the session and its socket
-- are closed. The end of a connection stops the decode too.
pub closing_stops_decode :
    (io : Io) (during : List DecodeAct) (s : Session)
    → s.closed ≡ false
    → IsStopped (on_close io false during s)
      × IsStopped (on_cancel io during s)
      × (busy (teardown_session s) ≡ false)
unfolding on_close on_cancel teardown_session
closing_stops_decode io during s fresh =
    let emptied : Session = record s { buffer = [] } in
    let ended : Session = if busy s then cancel_decode (decode_run io during s) else s in
    let waited : Session = if s.current_stream then decode_run io during emptied else emptied in
    (
      if_rule IsStopped s.closed s (say_closed io client_close ended)
          (λ shut. absurd (false≢true (sym fresh ∙ shut)))
          (λ _. say_closed-IsStopped io client_close ended (
            if_rule (λ r. busy r ≡ false) (busy s) (cancel_decode (decode_run io during s)) s
              (λ _. cancel_decode-idle (decode_run io during s)) (λ idle. idle))),
      if_rule IsStopped s.closed s (say_closed io client_cancel (cancel_decode waited))
          (λ shut. absurd (false≢true (sym fresh ∙ shut)))
          (λ _.
            say_closed-IsStopped io client_cancel (cancel_decode waited)
              (cancel_decode-idle waited)),
      cancel_decode-idle s,
    )
