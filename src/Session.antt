-- ===== src/Session.antt =====
-- One WebSocket session of stt_server/server.py.
pub mod State
pub mod Send
pub mod Audio
pub mod Decode
pub mod Closing
pub mod Update
pub mod Loop
pub mod Sending
pub mod Invariant
pub mod Induction
pub mod Silence
pub mod Utterance
pub mod Transcript
pub mod Requests
pub mod Refusals
pub mod Configured
pub mod Stops
pub mod Traces
pub mod TraceRule
pub mod Preserved
pub mod Soundness
mod Examples
