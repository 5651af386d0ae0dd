-- ===== src/Lifecycle.antt =====
-- The lifecycle of `TranscriptionServer` (stt_server/server.py): its states, the single-server lock
-- and the live-work ledger.
pub mod Ledger
pub mod Server
pub mod Drain
pub mod Start
pub mod Events
pub mod LedgerLaws
pub mod Anchored
pub mod Mild
pub mod Invariant
pub mod Steps
pub mod StartSteps
pub mod EventSteps
pub mod BindSteps
pub mod Consistency
pub mod Runs
pub mod Always
pub mod Spec
pub mod Moved
pub mod Refinement
pub mod SingleUse
pub mod SocketFile
mod Examples
