-- ===== src/Backends.antt =====
-- What the server knows of its backends: the registry (stt_server/backends/__init__.py), the echo
-- backend (stt_server/backend.py), the decode guard (stt_server/backends/_thread_util.py), and the
-- streams of the model backends with the filter of the Whisper one (stt_server/backends).
pub mod Registry
pub mod Echo
pub mod Guard
pub mod Commit
pub mod Whisper
pub mod Snapshots
