-- ===== src/Storage.antt =====
-- scrybe-core/src/storage: the write-ahead log of transcript chunks.
pub mod TranscriptLog
