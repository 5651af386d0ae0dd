-- ===== src/Examples/Client.antt =====
-- The theorems on the client and the probe at concrete inputs.
use pipecat_local_stt_server.Prelude.{
  map, String, length, ltb, if◌then◌else◌, ℕ, Bool, true, false, none, some, [], ◌≡◌, refl, ap,
  false≢true,
}
use pipecat_local_stt_server.Session.State.{Io, value, server_hello, server_status}
use pipecat_local_stt_server.Session.Loop.{
  Wait, frame_size, arrival, step, new_session, receive, connect,
}
use pipecat_local_stt_server.Client.{Python, Endpoint}
use pipecat_local_stt_server.Client.Probe.{resolve_probe_endpoint}
use pipecat_local_stt_server.Client.Guard.{Guarded, warning_exact}
use pipecat_local_stt_server.Client.Requests.{
  Request, update_session, send_audio_base64, status, Codec, message, frame_of, Reads, asked,
  request_understood,
}
use pipecat_local_stt_server.Json.{end}
use pipecat_local_stt_server.Session.Send.{over_high_water}
use pipecat_local_stt_server.Client.Handshake.{probe, payload, incoming}
use pipecat_local_stt_server.Client.Answered.{IsListening, idle_status, status_answered}
use pipecat_local_stt_server.Prelude.Text.{codes}
use pipecat_local_stt_server.Session.Closing.{teardown_session}

abbrev python : Python ℕ
python = record {
  lower = λ s. s;
  urlsplit = λ uri. some (record { scheme = "ws"; hostname = some "gpu" });
  ip_address = λ host. none;
  int = λ s. none;
  str = λ n. "8765";
}

abbrev remote : Endpoint ℕ
remote = record { uri = none; socket_path = none; host = some "gpu"; port = some 8765 }

warning_exact_example :
    Guarded python (λ path. path) (some "t0k") (resolve_probe_endpoint python (λ name. none) remote)
warning_exact_example =
    warning_exact python (λ path. path) (λ name. none) (some "t0k") remote
      (record { uri = tt; socket_path = tt; host = refl })

abbrev codec : Codec
codec = record { dumps = λ v. "{}"; b64encode = λ pcm. "AAA=" }

abbrev in_english : Request
in_english = update_session none (some "en")

abbrev io : Io
io = record {
  max_append_bytes = 4;
  max_uncommitted_bytes = 6;
  send_queue_high_water_bytes = 100;
  backend_name = "echo";
  model = none;
  pending_write_bytes = λ n. some n;
  peer_gone = λ _. false;
  uptime_seconds = λ n. n;
  pid = 42;
  rss_bytes = λ n. 1000;
  loads = λ raw. value (message codec in_english);
  b64decode = λ _. none;
}

abbrev is_audio : Request → Bool
is_audio (send_audio_base64 pcm) = true
is_audio _ = false

in_english-Reads : Reads io codec in_english
in_english-Reads = record {
  json = refl;
  base64 = λ pcm same. absurd (false≢true (ap is_audio same));
}

abbrev idle : Wait
idle = record { shutting_down = false; during = [] }

-- a text's length in characters
abbrev text_size : String → ℕ
text_size raw = length (codes raw)

request_understood_example :
    step io (arrival io text_size idle (frame_of codec in_english)) (new_session "s1") ≡ (
      if ltb io.max_append_bytes (frame_size text_size (frame_of codec in_english))
      then teardown_session (new_session "s1")
      else asked io idle in_english (new_session "s1"))
unfolding new_session
request_understood_example =
    request_understood io codec text_size idle in_english (new_session "s1") in_english-Reads refl
      refl

-- a peer that keeps up, and a decoder that reads a status request
abbrev status_io : Io
status_io = record io {
  pending_write_bytes = λ n. none;
  loads = λ raw. value (message codec status);
}

status-Reads : Reads status_io codec status
status-Reads = record { json = refl; base64 = λ pcm same. absurd (false≢true (ap is_audio same)) }

status_io-IsListening : IsListening status_io
unfolding over_high_water
status_io-IsListening = record { keeps_up = λ n. refl; there = λ n. refl }

status_answered_example :
    probe (
      map
        (incoming (λ e. end))
        (receive status_io idle (frame_of codec status) (connect status_io "s1")).sent)
    ≡ some (
      payload (λ e. end) (server_hello "echo" none),
      payload (λ e. end) (server_status (idle_status status_io "s1")),
    )
status_answered_example =
    status_answered status_io codec idle (λ e. end) "s1" status-Reads status_io-IsListening
