-- ===== src/Session/Streaming.antt =====
-- scrybe-core/src/session.rs: the live streaming path, from a native frame to the recognizer, and from
-- a closed segment to the log and the boundary.
pub mod Quiet
pub mod Account
pub mod Heard
pub mod Unfed
use scrybe.Common.{ℕ, true, false, ◌*◌, ◌/◌, Option, none, some, List, [], ◌∷◌, length, min}
use scrybe.Common.Words.{u64_max}
use scrybe.Common.Action.{Result, pure, raise, gets, modify, ◌>>=◌, ◌>>◌}
use scrybe.Errors.{PipelineError, stt, decoding}
use scrybe.Types.{AudioFrame, FrameSource, mic, system, mixed, TranscriptChunk, AttributedChunk}
use scrybe.Pipeline.Chunker.{EmittedChunk}
use scrybe.Pipeline.Normalize
use scrybe.Pipeline.Normalize.{SourceNormalizer, stt_sample_rate}
use scrybe.Storage.TranscriptLog
use scrybe.Storage.TranscriptLog.{TranscriptPartialRecord, append_pending, append_partial}
use scrybe.Session.AcceptedFinal
use scrybe.Session.AcceptedFinal.{AcceptedFinal, Resolved}
use scrybe.Session.State.{
  Env, Session, LiveStreaming, StreamingStage, partial, final, StreamingUpdate, log_durable,
  ask_stt, lift_pipeline, duration_to_ms,
}
use scrybe.Session.Journals.{anchors, elapsed_ms, source_horizon}
use scrybe.Session.Persist.{StoreTarget, store_target, speaker_for, release_streaming_resolved}

-- both sides of the provider use one key for the microphone's frames and the mixed ones
abbrev pub stream_source : FrameSource → FrameSource
stream_source system = system
stream_source mic = mic
stream_source mixed = mic

abbrev pub stt_samples_duration : ℕ → ℕ
stt_samples_duration samples = min (samples * 1000000) u64_max / stt_sample_rate * 1000

pub record ChunkOutcome : Type 0 where
  pub text : TranscriptChunk
  pub target : StoreTarget

abbrev pub attributed_to : FrameSource → TranscriptChunk → AttributedChunk
attributed_to source chunk = record { chunk = chunk; speaker = speaker_for source }

abbrev pub pending_record : ℕ → AttributedChunk → TranscriptPartialRecord
pending_record seq chunk = record {
  seq = seq;
  flushed_to_transcript = false;
  kind = TranscriptLog.final;
  chunk = chunk;
}

abbrev pub partial_record : ℕ → AttributedChunk → TranscriptPartialRecord
partial_record seq chunk = record {
  seq = seq;
  flushed_to_transcript = true;
  kind = TranscriptLog.partial;
  chunk = chunk;
}

module _ (env : Env) where
  abbrev Normalizer : Type 0
  Normalizer = SourceNormalizer env.resampling

  abbrev pub normalizer : FrameSource → LiveStreaming env → Normalizer
  normalizer system live = live.system
  normalizer mic live = live.mic
  normalizer mixed live = live.mic

  abbrev pub set_normalizer : FrameSource → Normalizer → LiveStreaming env → LiveStreaming env
  set_normalizer system n live = record live { system = n }
  set_normalizer mic n live = record live { mic = n }
  set_normalizer mixed n live = record live { mic = n }

  -- what the log takes of an update while capture is live
  log_partial : FrameSource → StreamingStage → TranscriptChunk → Session env (Unit {0})
  log_partial source final chunk = raise (stt decoding)
  log_partial source partial chunk =
      log_durable env (λ log. partial_record log.next_seq (attributed_to source chunk))
        (append_partial env.codec (attributed_to source chunk))
      >>= λ _. pure tt

  heard : FrameSource → Option StreamingUpdate → Session env (Unit {0})
  unfolding log_partial
  heard source none = pure tt
  heard source (some update) = log_partial source update.stage update.chunk

  -- `LiveStreaming::accept`
  unfoldable pub accept : FrameSource → List ℕ → ℕ → Session env (Unit {0})
  unfolding heard
  accept source [] offset_samples = pure tt
  accept source (w ∷ ws) offset_samples = do
    update ← ask_stt env (
        env.accept (record {
          start = stt_samples_duration offset_samples;
          duration = stt_samples_duration (length (w ∷ ws));
          samples = w ∷ ws;
          source = source;
        }))
    heard source update

  pub keep_normalizer :
      {A : Type 0} → FrameSource → Result PipelineError A × Normalizer → Session env A
  keep_normalizer source (result, n) = do
    modify (λ s. record s { live = set_normalizer source n s.live })
    lift_pipeline env result

  -- `LiveStreaming::push_frame`
  unfoldable pub push_frame : AudioFrame → Session env (Unit {0})
  unfolding keep_normalizer
  push_frame frame = do
    n ← gets (λ s. normalizer frame.source s.live)
    samples ← keep_normalizer frame.source (Normalize.push env.resampling frame n)
    accept (stream_source frame.source) samples n.emitted_samples

  -- `LiveStreaming::flush_source`
  unfoldable pub flush_source : FrameSource → Session env (Unit {0})
  flush_source source = do
    n ← gets (λ s. normalizer source s.live)
    let (n', samples) = Normalize.finish env.resampling n
    modify (λ s. record s { live = set_normalizer source n' s.live })
    accept (stream_source source) samples n.emitted_samples

  staged : StreamingStage → TranscriptChunk → Session env (Option TranscriptChunk)
  staged partial chunk = raise (stt decoding)
  staged final chunk = pure (some chunk)

  final_only : Option StreamingUpdate → Session env (Option TranscriptChunk)
  unfolding staged
  final_only none = pure none
  final_only (some update) = staged update.stage update.chunk

  -- `LiveStreaming::finalize`
  unfoldable pub finalize : EmittedChunk → Session env (Option TranscriptChunk)
  unfolding final_only
  finalize chunk = do
    update ← ask_stt env (env.finalize (stream_source chunk.source) chunk.start chunk.duration)
    final_only update

  -- the boundary's `push`, with the chunk's two horizons
  unfoldable pub push_boundary : AcceptedFinal → ℕ → Session env Resolved
  push_boundary f duration s =
      let known = anchors s.journals in
      let elapsed = elapsed_ms s.journals f.source in
      let (b, resolved) =
        AcceptedFinal.push env.to_lowercase f
          (source_horizon known f.source elapsed (duration_to_ms duration))
          (source_horizon known f.source elapsed 0) s.boundary in
      pure resolved (record s { boundary = b })

  route : EmittedChunk → Option TranscriptChunk → Session env (Option ChunkOutcome)
  route chunk none = pure none
  route chunk (some transcript) = do
    seq ←
        log_durable env (λ log. pending_record log.next_seq (attributed_to chunk.source transcript))
          (append_pending env.codec (attributed_to chunk.source transcript))
    ready ←
        push_boundary
          (record {
            transcript = transcript;
            source = chunk.source;
            ended_on = chunk.ended_on;
            wal_seq = some seq;
          })
          chunk.duration
    release_streaming_resolved env ready
    pure (some (record { text = transcript; target = store_target chunk.source }))

  unfoldable pub process_streaming_chunk : EmittedChunk → Session env (Option ChunkOutcome)
  unfolding route
  process_streaming_chunk chunk = do transcript ← finalize chunk; route chunk transcript
