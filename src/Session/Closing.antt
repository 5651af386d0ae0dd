-- ===== src/Session/Closing.antt =====
-- `_on_status`, `_on_close`, `_on_cancel` and `_teardown_session`.
use pipecat_local_stt_server.Prelude.{
  Bool, true, false, Option, none, some, List, [], length, if◌then◌else◌,
}
use pipecat_local_stt_server.Session.State.{
  Reason, client_close, client_cancel, session_closed, server_status, cancelling, done, DecodeTask,
  Session, Io,
}
use pipecat_local_stt_server.Session.Send.{send}
use pipecat_local_stt_server.Session.Audio.{busy, is_done}
use pipecat_local_stt_server.Session.Decode.{DecodeAct, put_phase, decode_run}

unfoldable pub on_status : Io → Session → Session
on_status io s =
    send io false
      (server_status (record {
        session_id = s.session_id;
        backend_name = io.backend_name;
        model = io.model;
        queue_depth = if busy s then 1 else 0;
        uncommitted_bytes = length s.buffer;
        uptime_seconds = io.uptime_seconds s.sends;
        pid = io.pid;
        rss_bytes = io.rss_bytes s.sends;
      }))
      s

-- `task.cancel()`, not waited for
unfoldable pub request_cancel_of : Option DecodeTask → Session → Session
unfolding is_done
request_cancel_of none s = s
request_cancel_of (some t) s =
    if is_done t.phase then s else record s { in_flight = some (record t { phase = cancelling }) }

unfoldable pub request_cancel : Session → Session
unfolding request_cancel_of
request_cancel s = request_cancel_of s.in_flight s

-- `if task and not task.done(): task.cancel(); await task`: the task unwinds and sends nothing
unfoldable pub cancel_decode_of : Option DecodeTask → Session → Session
unfolding is_done put_phase
cancel_decode_of none s = s
cancel_decode_of (some t) s = if is_done t.phase then s else put_phase done false t s

unfoldable pub cancel_decode : Session → Session
unfolding cancel_decode_of
cancel_decode s = cancel_decode_of s.in_flight s

-- `session.closed`, then `ws.close()`
unfoldable pub say_closed : Io → Reason → Session → Session
say_closed io reason s =
    let told = send io true (session_closed s.session_id reason) (record s { closed = true }) in
    record told { socket_closed = true }

-- `during`: what the decode task does while the handler waits for it. A task that is still busy
-- after it has outlived the drain timeout.
unfoldable pub on_close : Io → Bool → List DecodeAct → Session → Session
unfolding request_cancel cancel_decode say_closed
on_close io shutting_down during s =
    if s.closed
    then s
    else say_closed io client_close (
        if busy s
        then if shutting_down then request_cancel s else cancel_decode (decode_run io during s)
        else s)

-- `during`: what the decode task does while the handler waits for `stream.cancel()`
unfoldable pub on_cancel : Io → List DecodeAct → Session → Session
unfolding cancel_decode say_closed
on_cancel io during s =
    let cleared : Session = record s { buffer = [] } in
    let waited = if s.current_stream then decode_run io during cleared else cleared in
    if s.closed then s else say_closed io client_cancel (cancel_decode waited)

unfoldable pub teardown_session : Session → Session
unfolding cancel_decode
teardown_session s = record (cancel_decode s) { closed = true; ended = true }
