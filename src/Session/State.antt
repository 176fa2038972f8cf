-- ===== src/Session/State.antt =====
-- scrybe-core/src/session.rs: the state of a running session, and what it does to the outside. The
-- clock, the storage and the speech providers are parameters that answer from a state of their own.
-- A durable append that fails has written some first part of its text; an atomic replacement that
-- fails has changed nothing. What observers and hooks are told is one list, in order.
pub mod Returns
use scrybe.Common.{ℕ, ◌/◌, Bool, Option, none, some, List, [], ◌∷◌, ◌++◌, take, min}
use scrybe.Common.Int.{ℤ}
use scrybe.Common.Words.{u64_max}
use scrybe.Common.Action.{Result, ok, err, Action}
use scrybe.Errors.{SttError, io, PipelineError, CoreError, stt, storage, pipeline}
use scrybe.Text.{Text}
use scrybe.Types.{FrameSource, TranscriptChunk, AttributedChunk}
use scrybe.Pipeline.Chunker.{Listening, Chunker}
use scrybe.Pipeline.Normalize.{Resampling, SourceNormalizer}
use scrybe.Pipeline.Journal.{JournalManifest}
use scrybe.Storage.TranscriptLog.{
  TranscriptPartialRecord, TranscriptPartialLog, JsonCodec, contents,
}
use scrybe.Session.AcceptedFinal.{AcceptedFinalBoundary}

pub record AudioChunk : Type 0 where
  pub samples : List ℕ
  pub source : FrameSource
  pub start : ℕ
  pub duration : ℕ

pub data StreamingStage : Type 0 where
  partial final : StreamingStage

pub record StreamingUpdate : Type 0 where
  pub stage : StreamingStage
  pub chunk : TranscriptChunk

-- What the session is given and does not implement. `streams` tells whether a streaming provider
-- is wired.
pub record Env : Type 1 where
  pub listening : Listening
  pub resampling : Resampling
  pub codec : JsonCodec
  pub to_lowercase : Text → Text
  pub streams : Bool
  pub World : Type 0
  pub now_ms : World → World × ℤ
  pub spawns : World → World × Bool
  pub write_fault : World → World × Option ℕ
  pub read_fails : World → World × Bool
  pub transcribe : AudioChunk → World → World × Result SttError TranscriptChunk
  pub accept : AudioChunk → World → World × Result SttError (Option StreamingUpdate)
  pub finalize : FrameSource → ℕ → ℕ → World → World × Result SttError (Option StreamingUpdate)

pub data SessionProgress : Type 0 where
  recording encoding_audio writing_metadata : SessionProgress
  transcript_accepted : AttributedChunk → SessionProgress
  finalizing_transcript generating_notes : ℕ → SessionProgress

pub data LifecycleEvent : Type 0 where
  session_start consent_recorded session_end notes_generated : LifecycleEvent
  chunk_transcribed : AttributedChunk → LifecycleEvent
  session_failed : CoreError → LifecycleEvent

pub data Notice : Type 0 where
  progress : SessionProgress → Notice
  hook : LifecycleEvent → Notice

-- the writer is the frames that were sent to it
pub record JournalSlot : Type 0 where
  pub first_frame_epoch_ms : ℤ
  pub first_frame_timestamp_ns : ℕ
  pub last_frame_end_timestamp_ns : ℕ
  pub sample_rate : ℕ
  pub channels : ℕ
  pub writer : List (List ℕ)
  pub captured_ms : ℕ

-- a manifest being written in the background is written when it is joined
pub record SessionJournals : Type 0 where
  pub mic : Option JournalSlot
  pub system : Option JournalSlot
  pub partial_manifest_writer : Option JournalManifest
  pub manifest_file : Option JournalManifest

abbrev pub no_journals : SessionJournals
no_journals = record {
  mic = none;
  system = none;
  partial_manifest_writer = none;
  manifest_file = none;
}

module _ (env : Env) where
  open env use {listening, resampling, World, write_fault}

  pub record LiveStreaming : Type 0 where
    pub wal : TranscriptPartialLog
    pub mic : SourceNormalizer resampling
    pub system : SourceNormalizer resampling

  pub record SessionState : Type 0 where
    pub world : World
    pub transcript : Text
    pub notices : List Notice
    pub journals : SessionJournals
    pub boundary : AcceptedFinalBoundary
    pub live : LiveStreaming
    pub mic_chunker : Chunker listening
    pub system_chunker : Option (Chunker listening)
    pub mic_text_chunks : List TranscriptChunk
    pub sys_text_chunks : List TranscriptChunk

  abbrev pub Session : Type 0 → Type 0
  Session A = Action SessionState CoreError A

  abbrev pub set_wal : TranscriptPartialLog → SessionState → SessionState
  set_wal wal s = record s { live = record s.live { wal = wal } }

  -- `append_durable` on transcript.md
  appended : Text → World → Option ℕ → SessionState → Result CoreError (Unit {0}) × SessionState
  appended line world none s =
      (ok tt, record s { world = world; transcript = s.transcript ++ line })
  appended line world (some n) s =
      (err (storage io), record s { world = world; transcript = s.transcript ++ take n line })

  unfoldable pub append_durable : Text → Session (Unit {0})
  unfolding appended
  append_durable line s = let (world, fault) = write_fault s.world in appended line world fault s

  -- the log after a line of it was cut off
  abbrev pub tear : ℕ → TranscriptPartialRecord → TranscriptPartialLog → TranscriptPartialLog
  tear n r log = record log {
    file = some (contents log.file ++ take n (env.codec.to_string r ++ 10 ∷ []));
  }

  logged :
      {A : Type 0}
      → TranscriptPartialRecord
      → TranscriptPartialLog × A
      → World
      → Option ℕ
      → SessionState
      → Result CoreError A × SessionState
  logged r (wal, a) world none s = (ok a, set_wal wal (record s { world = world }))
  logged r (wal, a) world (some n) s =
      (err (storage io), set_wal (tear n r s.live.wal) (record s { world = world }))

  -- an operation of the log that appends this record
  unfoldable pub log_durable :
      {A : Type 0}
      → (TranscriptPartialLog → TranscriptPartialRecord)
      → (TranscriptPartialLog → TranscriptPartialLog × A)
      → Session A
  unfolding logged
  log_durable r whole s =
      let (world, fault) = write_fault s.world in
      logged (r s.live.wal) (whole s.live.wal) world fault s

  abbrev pub tell : Notice → Session (Unit {0})
  tell notice s = (ok tt, record s { notices = s.notices ++ notice ∷ [] })

  -- `report_progress`
  abbrev pub report_progress : SessionProgress → Session (Unit {0})
  report_progress p = tell (progress p)

  -- `dispatch_hooks`: a hook that fails does not stop the session
  abbrev pub dispatch_hooks : LifecycleEvent → Session (Unit {0})
  dispatch_hooks event = tell (hook event)

  settled :
      {A : Type 0}
      → (SttError → CoreError)
      → World × Result SttError A
      → SessionState
      → Result CoreError A × SessionState
  settled wrap (world, ok a) s = (ok a, record s { world = world })
  settled wrap (world, err e) s = (err (wrap e), record s { world = world })

  -- a call of a speech provider
  unfoldable pub ask_stt : {A : Type 0} → (World → World × Result SttError A) → Session A
  unfolding settled
  ask_stt call s = settled stt (call s.world) s

  abbrev pub lift_pipeline : {A : Type 0} → Result PipelineError A → Session A
  lift_pipeline (ok a) s = (ok a, s)
  lift_pipeline (err e) s = (err (pipeline e), s)

  abbrev pub ask : {A : Type 0} → (World → World × A) → Session A
  ask call s = let (world, a) = call s.world in (ok a, record s { world = world })

-- `duration_to_ms`
abbrev pub duration_to_ms : ℕ → ℕ
duration_to_ms duration = min (duration / 1000000) u64_max
