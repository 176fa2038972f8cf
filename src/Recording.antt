-- ===== src/Recording.antt =====
-- The recording state model of scrybe-application/src/recording: the contract's types and the one
-- process-wide controller that every surface drives.
pub mod Contract
pub mod Controller
mod Tests
