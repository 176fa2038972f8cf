-- ===== src/Session.antt =====
-- scrybe-core/src/session.rs and session/: a session from its first frame to its last, and the
-- boundary that every final transcript chunk passes.
pub mod AcceptedFinal
pub mod State
pub mod View
pub mod Journals
pub mod Persist
pub mod Streaming
pub mod Batch
pub mod Drive
pub mod Opening
pub mod Ledger
pub mod Heard
pub mod Fed
pub mod Notes
mod Samples
mod Tests
