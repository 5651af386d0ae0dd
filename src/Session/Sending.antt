-- ===== src/Session/Sending.antt =====
-- What a send leaves alone: all but `sent`, `sends`, `closed` and `socket_closed`.
use pipecat_local_stt_server.Prelude.{
  String, Bool, true, false, Option, ◌≡◌, ◌++◌, [], ◌∷◌, arith, ◌⊎◌,
}
use pipecat_local_stt_server.Protocol.{ErrorCode}
use pipecat_local_stt_server.Session.State.{Message, ServerEvent, error, Session, Io}
use pipecat_local_stt_server.Session.Send.{send, send_error, error_object}

-- Two states of a session with the same audio, decode task, configuration and counters.
pub record SameWork (s t : Session) : Type 0 where
  pub session_id : t.session_id ≡ s.session_id
  pub config : t.config ≡ s.config
  pub buffer : t.buffer ≡ s.buffer
  pub in_flight : t.in_flight ≡ s.in_flight
  pub current_stream : t.current_stream ≡ s.current_stream
  pub items : t.items ≡ s.items
  pub ended : t.ended ≡ s.ended

module _ (io : Io) (s : Session) where
  pub send-SameWork : (force : Bool) (e : ServerEvent) → SameWork s (send io force e s)
  unfolding send
  send-SameWork force e = ground arith

  pub send_error-SameWork :
      (c : ErrorCode) (m : Message) (ev : Option String) → SameWork s (send_error io c m ev s)
  unfolding send_error
  send_error-SameWork c m ev = send-SameWork true (error (error_object c m ev))

  -- On an open socket whose peer is there, a forced send appends its event.
  pub sent-send_open :
      (e : ServerEvent)
      → s.socket_closed ≡ false
      → io.peer_gone s.sends ≡ false
      → (send io true e s).sent ≡ s.sent ++ e ∷ []
  unfolding send
  sent-send_open e unshut here = ground arith

  -- On a closed socket nothing is sent.
  pub sent-send_closed :
      (force : Bool) (e : ServerEvent)
      → s.socket_closed ≡ true
      → ((send io force e s).sent ≡ s.sent) × ((send io force e s).socket_closed ≡ true)
  unfolding send
  sent-send_closed force e shut = ground arith

  -- A send appends its event or nothing.
  pub sent-send_cases :
      (force : Bool) (e : ServerEvent)
      → ((send io force e s).sent ≡ s.sent) ⊎ ((send io force e s).sent ≡ s.sent ++ e ∷ [])
  unfolding send
  sent-send_cases force e = ground arith

  pub closed-send :
      (force : Bool) (e : ServerEvent) → s.closed ≡ true → (send io force e s).closed ≡ true
  unfolding send
  closed-send force e h = ground arith

  -- A send closes the socket only with the session.
  pub send_closes_both :
      (force : Bool) (e : ServerEvent)
      → (s.socket_closed ≡ true → s.closed ≡ true)
      → (send io force e s).socket_closed ≡ true
      → (send io force e s).closed ≡ true
  unfolding send
  send_closes_both force e h k = ground arith
