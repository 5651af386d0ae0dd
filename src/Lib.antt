-- ===== src/Lib.antt =====
-- A model of the local speech-to-text server: a WebSocket server that takes audio from a client,
-- hands each committed utterance to a backend, and streams the transcript back.
--
-- Parts, and the files that model them:
-- * Protocol (stt_server/protocol.py): limits, client event types, error codes and their types.
--   Json: parsed JSON values as the handlers read them, with Python's truthiness and `==`.
-- * Session (stt_server/server.py, `_handle_connection` to `_error`): one connection. State holds
--   `_SessionState` with its socket; Send is `_send` and `_error` with the send-queue limit; Audio
--   is `_handle_binary_audio`, `_on_audio_append_json`, `_on_commit` and `_on_clear`; Decode is
--   `_run_decode`, one step for each thing the backend stream does; Closing is `_on_status`,
--   `_on_close`, `_on_cancel` and `_teardown_session`; Update is `_on_session_update`; Loop is
--   `_handle_text` and the receive loop. The other modules of Session hold proofs.
-- * Lifecycle (stt_server/server.py, `TranscriptionServer`): Ledger is the live-work ledger and
--   `_live_reasons`; Server is the state with `_transition`, `_settle`, `_track`, `_retire`; Drain
--   is `_drain` to `_close_backend`; Start is `start()` and `_bind`; Events is `shutdown()`,
--   `adopt()` and what may happen between two turns of the event loop. Spec is an abstract view, the
--   state and the lock, with its legal moves; Moved and Refinement relate the server to it, and
--   SingleUse draws from it. SocketFile is the socket's inode, recorded and unlinked. The rest are proofs.
-- * Serve (stt_server/server.py, `serve`): one call as the list of its actions.
-- * SocketLock (stt_server/server.py, `acquire_socket_lock` and `socket_lock_held`), Config
--   (`ServerConfig.__post_init__`), Startup (stt_server/supervise.py, `_walk` and
--   `classify_startup_error`; stt_server/errors.py).
-- * Backends (stt_server/backends, stt_server/backend.py): Registry is `BACKENDS` and
--   `import_backend`; Echo is `_EchoStream`; Guard is `DecodeGuardMixin`; Commit is the stream that
--   `_MLXStream`, `_ParakeetStream`, `_NemotronStream` and `_KyutaiStream` have in common, each wait
--   of `end` a step of its own; Whisper is the filter of mlx_whisper.py on what it transcribed.
-- * Prefetch (stt_server/prefetch.py, stt_server/snapshot.py): `check_spec`; its Fetch is
--   `fetch_spec`, with the disk passed on from one download to the next, and its Run is
--   `run_prefetch`. Backends.Snapshots has the backends' `prefetch_specs`.
-- * CommandLine (stt_server/__main__.py, `_resolve_model` and `_resolve_auth_token`; stt_server/auth.py,
--   `read_token_file`); its Serving is `_cmd_serve` with `_preflight_listener`, `_run_serve` and
--   `_report_fatal`, and what each prints.
-- * Client (stt_server/client.py): the endpoint of a client and where it connects; its Requests is what
--   `TranscriptionClient` sends, its Handshake what `connect`, `events` and the probe read, its Probe
--   `_resolve_probe_endpoint` and the start of `_probe_status`
--   (stt_server/__main__.py).
-- * Scripts (scripts/): Plist is read_stt_plist.py, which reads the property list of an installed
--   agent, and its Render is render_stt_plist.py, which writes one; Squat is squat_check.py, the
--   readers of lsof and launchctl, with `check` in its Check; Benchmark is the word error rate of
--   benchmark_asr_ab.py.
-- * PeerCred (stt_server/_peercred.py): the uid of a peer, which the gate compares.
-- * Gate (stt_server/server.py, `_process_request`): who may open a connection.
-- * SocketDir (stt_server/server.py, `_enforce_socket_dir_secure`): the socket's directories.
-- * TokenFile (stt_server/auth.py): the token file's policy and `load_token_file`.
-- * TextQuality (stt_server/text_quality.py): degenerate transcripts; the threshold is a fraction,
--   compared exactly where the code compares floats.
-- * Env (stt_server/env.py): settings from environment variables.
-- Prelude holds what they share. Examples (also under Session and Lifecycle) apply the theorems.
--
-- A client's frames are those that the session's receive loop takes. An agent's property list holds the
-- flags and the environment from which CommandLine resolves the token and Config takes the
-- endpoint.
--
-- The gate decides before a session starts. A session is part of the server's ledger as the
-- `session` entries of its handler and its decode task: the lifecycle sees only that they run, and
-- a session sees of the lifecycle only whether it is shutting down (`Wait.shutting_down`) and that
-- a drain cancels its decode (`Act.cancelled`). The start of the server runs the directory check
-- and takes the lock; the lifecycle has the outcome as an argument (`LockOutcome`).
--
-- A message above the WebSocket's `max_size` is a disconnect for the session (`arrival` of its Loop).
--
-- How the code is read: a session's events are a list of `Act`s, each handled to its end, with what
-- the decode task does while a handler waits given as a list (`during`). Item ids are a counter in
-- place of random texts. The event ids that the server mints are left out, since nothing reads
-- them. What `json.loads` and base64 do, how full the socket's write buffer is and whether the peer
-- is gone are functions in `Io`; the last two are read at the number of sends so far. The
-- cancellation of a handler is modelled between two frames only.
-- Turns of the server's event loop are `Event`s; backend outcomes, timeouts and the results of
-- binding are in the event. Tasks, listeners and step tokens are numbered keys of the ledger. The
-- first turn of a drain is taken together with the call that creates it. A task is `finished` from
-- its end until its done-callback has run.
-- Two loops run on fuel. The walk along exceptions takes one step for each exception at most, so one
-- more than their number is enough. The socket lock waits 10 ms at least after each of its attempts,
-- and for 250 ms at most, so 26 attempts are enough. Other loops run over lists of steps or names.
-- Numbers of bytes are unbounded naturals, as in Python.
--
-- A backend's stream reaches a session as a list of `DecodeAct`s; Backends.Echo and
-- Backends.Commit.Transcript put the two together.
--
-- Not modelled: logging; binding to TCP, `wait_stopped` and `abort_sync`; signal handlers, the JSON channel and the stdin watcher; the loading and calling of
-- the models, their temporary files and the resampling of audio, which are calls of libraries; the
-- closing of the client's socket; the warm-up and the parser of the command line; the
-- smoke tests, the launchd harness and the installation scripts, which start programs and read
-- files for the most part.
pub mod Prelude
pub mod Json
pub mod Prefetch
pub mod Protocol
pub mod Session
pub mod Lifecycle
pub mod PeerCred
pub mod Client
pub mod CommandLine
pub mod Gate
pub mod Env
pub mod SocketDir
pub mod TokenFile
pub mod TextQuality
pub mod Startup
pub mod SocketLock
pub mod Serve
pub mod Config
pub mod Backends
pub mod Scripts
pub mod Examples
