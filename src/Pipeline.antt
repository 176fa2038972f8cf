-- ===== src/Pipeline.antt =====
-- scrybe-core/src/pipeline: chunking, normalization, the crash journal and the offline merge.
pub mod Chunker
pub mod Normalize
pub mod Journal
pub mod Merge
mod Tests
