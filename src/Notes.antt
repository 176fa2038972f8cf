-- ===== src/Notes.antt =====
-- scrybe-core/src/notes.rs and notes_*.rs: the lines of a transcript, their packing into map requests,
-- and the map-reduce run.
pub mod Transcript
pub mod Document
pub mod Segments
pub mod MapReduce
pub mod Prompts
pub mod Body
pub mod Title
pub mod Runtime
pub mod Generate
mod Tests
