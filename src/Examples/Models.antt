-- ===== src/Examples/Models.antt =====
-- The theorems on the backends, their streams and their snapshots at concrete inputs.
use pipecat_local_stt_server.Prelude.{
  ℕ, String, true, false, Option, none, some, List, [], ◌∷◌, ◌++◌, ◌≡◌, refl, str_eq, if◌then◌else◌,
}
use pipecat_local_stt_server.Json.{null}
use pipecat_local_stt_server.Session.State.{
  transcript_completed, opening, DecodeTask, Session, Io, value,
}
use pipecat_local_stt_server.Session.Send.{over_high_water}
use pipecat_local_stt_server.Session.Decode.{opened, finished, decode_run}
use pipecat_local_stt_server.Session.Transcript.{KeepsUp}
use pipecat_local_stt_server.Backends.Registry.{import_backend}
use pipecat_local_stt_server.Backends.Commit.{
  Act, feeds, ends, lock_granted, reads, returns, open_stream, Decoder, decode_sync, is_empty, run,
  events,
}
use pipecat_local_stt_server.Backends.Commit.Explained.{IsExplained, offered, events-IsExplained}
use pipecat_local_stt_server.Backends.Commit.Transcript.{commit, text_deltas, commit_transcript}
use pipecat_local_stt_server.Backends.Whisper.{
  Transcription, Filter, filtered, whisper_decoder, is_dropped, keep_segments, check_text, concat,
  join_spaced, stripped,
}
use pipecat_local_stt_server.Prelude.Text.{strip, lstrip, rstrip}
use pipecat_local_stt_server.Backends.Whisper.Clean.{IsFiltered, filter_exact}
use pipecat_local_stt_server.Prefetch.{
  SnapshotSpec, Blob, absent, incomplete, whole, Disk, found, listed, Hub, complete, resolved,
  validated, cached, row, check_spec,
}
use pipecat_local_stt_server.Prefetch.Fetch.{
  fetched, fetch_spec, fetch_weights, fetch_files, finish, report, last_events, pending_files,
  measure, total_size,
}
use pipecat_local_stt_server.Prefetch.Run.{System, wanted_specs, run_prefetch}
use pipecat_local_stt_server.Prefetch.Run.Verdict.{HasVerdict, run_prefetch-HasVerdict}
use pipecat_local_stt_server.Backends.Snapshots.{ModelConfig, name, spec_of, weight_files}
use pipecat_local_stt_server.Prefetch.Progress.{AreBounded, progress_bounded}
use pipecat_local_stt_server.Prefetch.Cached.{Remembers, fetched_is_cached}

abbrev some_module : String → Option ℕ
some_module path = some 7

abbrev fast_io : Io
fast_io = record {
  max_append_bytes = 4;
  max_uncommitted_bytes = 6;
  send_queue_high_water_bytes = 100;
  backend_name = "mlx";
  model = none;
  pending_write_bytes = λ n. some 0;
  peer_gone = λ _. false;
  uptime_seconds = λ n. n;
  pid = 42;
  rss_bytes = λ n. 1000;
  loads = λ _. value null;
  b64decode = λ _. none;
}

fast-KeepsUp : KeepsUp fast_io
unfolding over_high_water
fast-KeepsUp = record { drained = λ n. refl; present = λ n. refl }

abbrev four_bytes : List ℕ
four_bytes = 1 ∷ 2 ∷ 3 ∷ 4 ∷ []

abbrev first_task : DecodeTask
first_task = record { item = 0; audio = four_bytes; phase = opening }

abbrev decoding : Session
decoding = record {
  session_id = "s1";
  config = record { turn_detection = null; language = none };
  buffer = [];
  in_flight = some first_task;
  current_stream = false;
  closed = false;
  sent = [];
  sends = 0;
  socket_closed = false;
  items = 1;
  ended = false;
}

abbrev show_four : ℕ → String
show_four n = "4"

abbrev demo_filter : Filter
demo_filter = record {
  thresholds = record { ratio_num = 1; ratio_den = 2; min_tokens = 3 };
  is_word = λ token. true;
  split = record {
    tokens = λ text. if str_eq text " hi hi hi" then "hi" ∷ "hi" ∷ "hi" ∷ [] else "fine" ∷ [];
    paragraphs = λ text. text ∷ [];
    lines = λ text. text ∷ [];
  };
}

abbrev two_segments : Transcription
two_segments = record { segments = " hi hi hi" ∷ " ok " ∷ []; whole = " hi hi hi ok " }

filter_exact_example :
    IsFiltered demo_filter
      (" hi hi hi" ∷ " ok " ∷ [])
      " hi hi hi ok "
      (filtered demo_filter two_segments)
filter_exact_example = filter_exact demo_filter two_segments

abbrev whisper : Decoder
whisper = whisper_decoder demo_filter (λ pcm. some two_segments)

whisper_text : decode_sync whisper false four_bytes ≡ some "ok"
unfolding decode_sync is_empty whisper_decoder filtered is_dropped keep_segments check_text concat
    strip lstrip rstrip join_spaced stripped
whisper_text = refl

commit_transcript_example :
    (decode_run fast_io
      (opened ∷ (events (run whisper (commit four_bytes) open_stream) ++ finished ∷ []))
      decoding).sent
    ≡ ([] ++ text_deltas 0 "ok") ++ transcript_completed 0 "ok" ∷ []
commit_transcript_example =
    commit_transcript whisper fast_io first_task decoding "ok" fast-KeepsUp refl refl refl
      whisper_text

-- audio that comes after the end, before the decode reads it
abbrev late_audio : List Act
late_audio =
    feeds (1 ∷ []) ∷ ends ∷ feeds (2 ∷ []) ∷ lock_granted ∷ reads ∷ feeds (3 ∷ []) ∷ returns ∷ []

events-IsExplained_example :
    IsExplained whisper (offered late_audio) (events (run whisper late_audio open_stream))
events-IsExplained_example = events-IsExplained whisper late_audio

abbrev weights : SnapshotSpec ℕ
weights = record {
  repo_id = "org/model";
  revision = none;
  allow_patterns = none;
  required = ("config.json" ∷ []) ∷ ("weights.npz" ∷ "weights.safetensors" ∷ []) ∷ [];
  kind = "model";
  local_path = none;
  resolve = none;
}

-- the snapshot's two files, of 30 bytes
abbrev full_disk : Disk ℕ
full_disk = record {
  is_dir = λ path. true;
  files = λ path. "config.json" ∷ "weights.safetensors" ∷ [];
  snapshot_size = λ path. 30;
  config = λ path. none;
  blob = λ repo blob_id. whole;
}

abbrev empty_disk : Disk ℕ
empty_disk = record {
  is_dir = λ path. false;
  files = λ path. [];
  snapshot_size = λ path. 0;
  config = λ path. none;
  blob = λ repo blob_id. absent;
}

abbrev half_written : String → Blob
half_written blob_id = incomplete 15

abbrev demo_hub : Hub ℕ
demo_hub = record {
  download = λ spec disk. record {
    result = found "/hub/model";
    disk = full_disk;
    ticks = half_written ∷ [];
  };
  probe = λ spec disk. found "/hub/model";
  remote_files = λ spec disk.
      listed (
        record { size = 10; blob_id = some "b1" } ∷ record { size = 20; blob_id = some "b2" } ∷ []);
  cache_dir_fails = none;
  matches = str_eq;
}

progress_bounded_example : AreBounded (fetch_spec demo_hub true weights empty_disk).events
progress_bounded_example = progress_bounded demo_hub true weights empty_disk

demo-Remembers : Remembers demo_hub
demo-Remembers = record { again = λ spec disk path e. e }

demo_fetched : (fetch_spec demo_hub true weights empty_disk).outcome ≡ fetched "/hub/model" 30
unfolding fetch_spec fetch_weights fetch_files finish report last_events pending_files measure
    total_size validated resolved complete
demo_fetched = refl

fetched_is_cached_example :
    check_spec demo_hub (fetch_spec demo_hub true weights empty_disk).disk weights
    ≡ row (cached "/hub/model" 30)
fetched_is_cached_example =
    fetched_is_cached demo_hub true weights empty_disk "/hub/model" 30 demo-Remembers refl
      demo_fetched

-- one kind of backend module, whose snapshot is the one above
abbrev demo_system : System ℕ ℕ
demo_system = record {
  load = some_module;
  prefetch_specs = λ m model. weights ∷ [];
  exists_path = λ path. false;
  expand = some;
}

run_prefetch-HasVerdict_example :
    HasVerdict demo_hub full_disk true
      (wanted_specs demo_system (import_backend (demo_system.load) "mlx") none)
      (run_prefetch demo_system demo_hub full_disk "mlx" none true)
run_prefetch-HasVerdict_example =
    run_prefetch-HasVerdict demo_system demo_hub full_disk "mlx" none true

abbrev kyutai : SnapshotSpec ModelConfig
kyutai =
    spec_of "kyutai/other" (some ("config.json" ∷ [])) (("config.json" ∷ []) ∷ [])
      (some weight_files)

abbrev kyutai_disk : Disk ModelConfig
kyutai_disk = record {
  is_dir = λ path. true;
  files = λ path. "config.json" ∷ [];
  snapshot_size = λ path. 1;
  config = λ path. some (record {
    mimi_name = name "mimi.safetensors";
    moshi_name = name "model.q4.safetensors";
    tokenizer_name = name "tokenizer.model";
  });
  blob = λ repo blob_id. absent;
}
