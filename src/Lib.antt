-- ===== src/Lib.antt =====
-- Scrybe records a call's two channels on one machine, transcribes them chunk by chunk, writes the
-- transcript as it goes, and summarizes it. This library models the core of that pipeline and of
-- the services around it, one module for each part. Paths are from the repository's root.
--
-- How the parts interact. A surface drives the recording controller
-- (scrybe-application/src/recording). While it records, each channel's frames go through a chunker
-- (scrybe-core/src/pipeline/chunker.rs); a chunk is transcribed, and its final transcript is
-- written ahead to the log of the session (scrybe-core/src/storage/transcript_log.rs) and held in
-- the accepted-final boundary (scrybe-core/src/session/accepted_final.rs), which orders the two
-- channels, drops the echoes of one in the other, and hands on what goes to the transcript; the log
-- then marks it. In the batch path a diarizer (scrybe-core/src/diarize) merges the channels.
-- Afterwards the transcript's segments are packed and summarized by map requests and one reduction
-- (scrybe-core/src/notes_segments.rs and notes_map_reduce.rs), which retry where the provider is
-- remote (scrybe-core/src/providers/retry.rs), at the end of a session or again from its transcript
-- (scrybe-application/src/sessions/generator.rs). The journal that the recording leaves is merged
-- into one audio track (scrybe-core/src/pipeline/merge.rs). Listings are paged
-- (scrybe-application/src/paging.rs).
--
-- Which file models which part.
--  Common, Text: what the parts share of the standard library: numbers with the limits of their
--   machine types (Common/Words, Common/Int), sorting (Common/Sorting), texts as lists of code
--   points and their lines (Text, Text/Lines), results (Common/Results), the runs of an operation
--   that may fail on a state, with the rules of their specifications (Common/Action,
--   Common/Throughout), and counting (Common/Counting).
--  Types, Errors: scrybe-core/src/types/audio.rs and transcript.rs, context/mod.rs, and error.rs.
--  Recording/Contract, Recording/Controller: contract.rs and controller.rs. The controller is a
--   record of its observers, its retention gate, its locked state and what was delivered so far; a
--   method is a function of the same name, which takes its one reading of the clock.
--   Recording/Controller/Transitions gathers the methods as a step function over calls, Invariant
--   holds for each call, and History for every sequence of calls. There a call is one step, with
--   the calls of its observers; Threads lets other calls come between, since the observers are
--   called after the lock is let go; one call tells all of its observers in one step there.
--  Session/AcceptedFinal: push, advance, finish, release_resolved, resolve_release. Conservation,
--   Release and Echo are about what is handed on, when, and what is dropped. Tokens has what an
--   echo compares; lower-casing is a parameter.
--  Storage/TranscriptLog: open (open_log), append_pending, mark_flushed, mark_suppressed,
--   append_partial, write_line, scan_recovery, last_seq. The log's file is its text; the JSON form
--   of a record is a parameter with the hypothesis that a record is written as one nonempty line
--   and read back (IsLineCodec). Latest gives the reading of a log for one number, Report ties the
--   scan's report to it, File ties the text to the records, and Lifecycle follows a chunk through a
--   crash. Torn has the scan from the file's bytes, which fails where they are not UTF-8; elsewhere
--   the file is UTF-8. LineFormat instantiates the parameter with a small line format.
--  Session/State: the environment of drive_session (providers, disk, clock and voice detector,
--   each of which may fail and keeps a hidden world), its state and its effects. A text is appended
--   durably, or a fault leaves a first part of it.
--  Session/Journals: SessionJournals and the horizons of the sources. Session/Persist:
--   persist_final, release_ready, release_streaming_resolved. Session/Streaming: LiveStreaming and
--   process_streaming_chunk. Session/Batch: process_chunk and build_audio_chunk. Session/Drive: the
--   loop of drive_session over its frames and what closes it, in both modes. Session/Opening: how
--   drive_session begins (begin), and the whole of it (drive) up to the closing of its journals,
--   which comes when the last finals have been decided; Opening/Fresh and Opening/Granted are about
--   the first, Opening/Whole about the second. Session/Fed, the Unfed and Fed modules and
--   Opening/Journaled follow the frames into the journals and out by the merge.
--  Session/Notes: how the notes of the session are written.
--  Session/View, Session/Ledger: what of a session its disk shows, and the account that a
--   streaming session keeps on it. The Quiet modules say which operations leave it alone, Account
--   which keep it; Ledger/Recovery and Drive/Crash say what a recovery finds. Session/Heard and the
--   Heard modules follow a final from the chunk to the transcript in both modes, Drive/Going and
--   the Returns modules a batch session that nothing ends early.
--  Pipeline/Normalize: SourceNormalizer, validate_frame_format, downmix_to_mono. Pipeline/Journal:
--   run_writer, close_segment and write_manifest.
--  Pipeline/Chunker: push, finish, flush, frame_duration. The voice detector and the double
--   precision quotient of a duration are parameters. Buffer is about the counters, Splits about one
--   frame, Heard about the split on silence by what the detector said of each frame, and Frames
--   about a stream.
--  Pipeline/Merge: scrybe-core/src/pipeline/merge.rs: read_segments, interleave_stereo and
--   center_stereo_in_place (center_stereo). The journal's files are a function from a segment's
--   number to its bytes; the numbers do not wrap, and no segment that is there fails to be read.
--   Segments is about reading them, Stereo about the track.
--  Notes/Transcript: scrybe-core/src/notes.rs and notes_segments.rs: render_transcript_line and
--   parse_segment_line. Decimal is about its numbers, RoundTrip about the line.
--  Notes/Document: parse_canonical_transcript of notes_segments.rs, with skip_header; Parsed is
--   about what was rendered, Numbered about the numbers of the segments.
--  Notes/Segments, Notes/MapReduce: pack_segments, map_reduce, capped_reduce_prompt. The model may
--   answer by everything that it was sent before. MapReduce/Units says what unit, a group or a gap,
--   each chunk comes to, Coverage and Returns are about a whole run.
--  Notes/Prompts, Notes/Body, Notes/Runtime, Notes/Generate: the texts of the requests and of the
--   two documents (scrybe-core/src/notes.rs); NotesRuntime with its configuration (Runtime/Loaded
--   is about its loading); and the generator of scrybe-application/src/sessions/generator.rs, which
--   loads, parses, counts, packs, runs and renders. Generate/Prepared is about what comes before
--   the run, Covers and Fits about the whole. Notes/Title: clean_generated_title. Document/Whole is
--   about a transcript with its header.
--  Diarize: BinaryChannelDiarizer::diarize (diarize), requires_neural, select_kind, and the
--   diarizers' names.
--  Providers/Retry: retry_with_policy and backoff_for. The operation has a state of its own, and a
--   run records its calls and its sleeps.
--  Sessions/Retention: scrybe-application/src/sessions/retention.rs. Index is the index as an
--   ordered map, Disk the operations of the file system, Staging what authorizes and does a
--   removal, Retain the move of a session to the trash or the archive, Sweep the sweep. The file
--   system answers from a state of its own, and any operation of it may fail. Sweep/Spares,
--   Sweep/Removals, Sweep/Steps and Sweep/Safety are about what a sweep takes away, Retain/Placed
--   and Retain/Safety about where a move leaves a session, Window about a move and a later sweep.
--   Sessions/Scan: classify of scrybe-application/src/sessions/scan.rs. Sessions/Identity:
--   scrybe-application/src/identity.rs.
--  Sessions/Paging: PageRequest and Page::paginate.
--  The Tests module beside each part applies its theorems to concrete values.
--
-- Bounds and fuel. Sequence numbers of the controller and the boundary wrap at 2 ^ 64 as in a
-- release build, the log's saturate there, instants in milliseconds are i64 with their saturating
-- operations, and durations saturate at Duration::MAX. Every function is structurally recursive.
-- The walk over pages and the loop over segment files take fuel, and the theorems about them say
-- how much is enough; a decimal number has fuel for twenty digits, which no u64 exceeds. An index
-- into the token counts that is out of range, where the code would panic, gives 0.
--
-- Not modelled: audio capture, encoding and the platforms' backends, the neural providers and other
-- code outside of the repository, the resampler's arithmetic, the texts of most error messages, and
-- the surfaces (CLI and desktop), which only call what is modelled here; of drive_session the
-- closing of the journals with the final manifest, the merge of the journal, the call of the
-- diarizer, the metadata and the renaming of the folder; the repair of a crashed journal, the
-- repository's listings, the model manager, the agent protocol, and the configuration but for its
-- block of the notes. The model manager and the agent protocol are the repository's own logic and
-- are left out for the size of the development; the rest is wiring of the operations above, or the
-- work of other libraries.

pub mod Common
pub mod Diarize
pub mod Errors
pub mod Notes
pub mod Pipeline
pub mod Providers
pub mod Recording
pub mod Session
pub mod Sessions
pub mod Storage
pub mod Text
pub mod Types
