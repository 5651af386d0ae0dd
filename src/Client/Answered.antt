-- ===== src/Client/Answered.antt =====
-- The status probe against the server's own session.
use pipecat_local_stt_server.Prelude.{
  ℕ, suc, String, false, none, some, List, [], ◌∷◌, ◌++◌, ◌≡◌, refl, ◌∙◌, ap, map,
}
use pipecat_local_stt_server.Json.{null, Fields, lookup, eq_str}
use pipecat_local_stt_server.Session.State.{
  Status, ServerEvent, server_hello, session_created, transcription_session_created, server_status,
  Session, Io,
}
use pipecat_local_stt_server.Session.Send.{over_high_water, ws_send, send, session_snapshot}
use pipecat_local_stt_server.Session.Audio.{task_busy}
use pipecat_local_stt_server.Session.Closing.{on_status}
use pipecat_local_stt_server.Session.Loop.{Wait, contain, receive, new_session, connect}
use pipecat_local_stt_server.Client.Requests.{
  status, Codec, frame_of, Reads, asked, request_handled,
}
use pipecat_local_stt_server.Client.Handshake.{
  has_type, handshake, with_status, events, await_status, probe, event_type, payload, incoming,
}

-- The peer reads what it is sent.
pub record IsListening (io : Io) : Type 0 where
  pub keeps_up : (n : ℕ) → over_high_water io n ≡ false
  pub there : (n : ℕ) → io.peer_gone n ≡ false

-- a session that has only sent
abbrev greeting : String → List ServerEvent → ℕ → Session
greeting id told n = record (new_session id) { sent = told; sends = n }

send-greeting :
    (io : Io)
    → IsListening io
    → (id : String) (told : List ServerEvent) (n : ℕ) (e : ServerEvent)
    → send io false e (greeting id told n) ≡ greeting id (told ++ e ∷ []) (suc n)
unfolding send ws_send new_session
send-greeting io clear id told n e = rw (clear.keeps_up n) (rw (clear.there n) refl)

abbrev greetings : Io → String → List ServerEvent
greetings io id =
    server_hello io.backend_name io.model
    ∷ session_created (record { id = id; turn_detection = null; language = none })
    ∷ transcription_session_created (record { id = id; turn_detection = null; language = none })
    ∷ []

connect-greeting :
    (io : Io) → IsListening io → (id : String) → connect io id ≡ greeting id (greetings io id) 3
unfolding connect session_snapshot new_session
connect-greeting io clear id =
    ap
      (λ (s : Session).
        send io false (transcription_session_created (session_snapshot s))
          (send io false (session_created (session_snapshot s)) s))
      (send-greeting io clear id [] 0 (server_hello io.backend_name io.model))
    ∙ ap
        (send io false (
          transcription_session_created
            (record { id = id; turn_detection = null; language = none })))
        (send-greeting io clear id (server_hello io.backend_name io.model ∷ []) 1
          (session_created (record { id = id; turn_detection = null; language = none })))
    ∙ send-greeting io clear id _ 2
        (transcription_session_created (record { id = id; turn_detection = null; language = none }))

-- the status of a session that has only sent its greetings
abbrev pub idle_status : Io → String → Status
idle_status io id = record {
  session_id = id;
  backend_name = io.backend_name;
  model = io.model;
  queue_depth = 0;
  uncommitted_bytes = 0;
  uptime_seconds = io.uptime_seconds 3;
  pid = io.pid;
  rss_bytes = io.rss_bytes 3;
}

status-greeting :
    (io : Io)
    → IsListening io
    → (id : String)
    → on_status io (greeting id (greetings io id) 3)
      ≡ greeting id (greetings io id ++ server_status (idle_status io id) ∷ []) 4
unfolding on_status new_session task_busy
status-greeting io clear id =
    send-greeting io clear id (greetings io id) 3 (server_status (idle_status io id))

receive-greeting :
    (io : Io) (codec : Codec) (w : Wait)
    → Reads io codec status
    → IsListening io
    → (id : String)
    → receive io w (frame_of codec status) (greeting id (greetings io id) 3)
      ≡ greeting id (greetings io id ++ server_status (idle_status io id) ∷ []) 4
unfolding receive contain new_session asked
receive-greeting io codec w reads clear id =
    ap (contain io) (request_handled io codec w status (greeting id (greetings io id) 3) reads)
    ∙ status-greeting io clear id

-- A status probe of an idle server is answered: where the peer keeps up and the server's decoder reads the
-- request, the client that connects and asks for the status finds, in the frames that the session has
-- sent, the hello of the server and its status, with the session's id and no work.
pub status_answered :
    (io : Io) (codec : Codec) (w : Wait) (rest : ServerEvent → Fields) (id : String)
    → Reads io codec status
    → IsListening io
    → probe (map (incoming rest) (receive io w (frame_of codec status) (connect io id)).sent)
      ≡ some (
        payload rest (server_hello io.backend_name io.model),
        payload rest (server_status (idle_status io id)),
      )
unfolding probe handshake with_status events await_status has_type event_type lookup eq_str
    new_session
status_answered io codec w rest id reads clear =
    ap (λ (s : Session). probe (map (incoming rest) (receive io w (frame_of codec status) s).sent))
      (connect-greeting io clear id)
    ∙ ap (λ (s : Session). probe (map (incoming rest) s.sent))
        (receive-greeting io codec w reads clear id)
