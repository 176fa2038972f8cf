-- ===== src/Session/Batch.antt =====
-- scrybe-core/src/session.rs: the batch path, from a whole chunk to one transcription.
pub mod Returns
pub mod Heard
pub mod Unfed
use scrybe.Common.{ℕ, ◌+◌, ◌%◌, Option, none, some, List, [], ◌∷◌, ◌++◌}
use scrybe.Common.Words.{u64_mod}
use scrybe.Common.Action.{Result, ok, err, pure, raise, ◌>>=◌, ◌>>◌}
use scrybe.Errors.{PipelineError, empty_chunk, resample, pipeline}
use scrybe.Types.{AudioFrame}
use scrybe.Pipeline.Chunker.{EmittedChunk}
use scrybe.Pipeline.Normalize.{downmix_to_mono, validate_frame_format, stt_sample_rate}
use scrybe.Session.State.{Env, Session, AudioChunk, ask_stt}
use scrybe.Session.Persist.{store_target, release_ready}
use scrybe.Session.Streaming.{ChunkOutcome, push_boundary}

after_valid :
    Result PipelineError (Unit {0})
    → Result PipelineError (Unit {0})
    → Result PipelineError (Unit {0})
after_valid (err e) rest = err e
after_valid (ok _) rest = rest

-- the first frame whose format differs is an error
unfoldable pub validate_frames : ℕ → ℕ → ℕ → List AudioFrame → Result PipelineError (Unit {0})
unfolding after_valid
validate_frames index channels sample_rate [] = ok tt
validate_frames index channels sample_rate (frame ∷ frames) =
    after_valid (validate_frame_format index frame.channels frame.sample_rate channels sample_rate)
      (validate_frames ((index + 1) % u64_mod) channels sample_rate frames)

abbrev pub interleaved : List AudioFrame → List ℕ
interleaved [] = []
interleaved (frame ∷ frames) = frame.samples ++ interleaved frames

module _ (env : Env) where
  resampled : EmittedChunk → ℕ → Option (List ℕ) → Result PipelineError AudioChunk
  resampled chunk source_rate none = err (resample source_rate)
  resampled chunk source_rate (some samples) = ok (record {
    samples = samples;
    source = chunk.source;
    start = chunk.start;
    duration = chunk.duration;
  })

  build_valid :
      EmittedChunk → AudioFrame → Result PipelineError (Unit {0}) → Result PipelineError AudioChunk
  unfolding resampled
  build_valid chunk first (err e) = err e
  build_valid chunk first (ok _) = resampled chunk first.sample_rate (
      env.resampling.resample_linear
        (downmix_to_mono env.resampling (interleaved chunk.frames) first.channels) first.sample_rate
        stt_sample_rate)

  unfoldable pub build_audio_chunk : EmittedChunk → Result PipelineError AudioChunk
  unfolding build_valid
  build_audio_chunk chunk = elim chunk.frames [
    | [] ↦ err empty_chunk
    | first ∷ rest ↦
        build_valid chunk first (validate_frames 0 first.channels first.sample_rate (first ∷ rest))
  ]

  transcribe : EmittedChunk → AudioChunk → Session env (Option ChunkOutcome)
  transcribe chunk audio = do
    transcript ← ask_stt env (env.transcribe audio)
    ready ←
        push_boundary env
          (record {
            transcript = transcript;
            source = chunk.source;
            ended_on = chunk.ended_on;
            wal_seq = none;
          })
          chunk.duration
    release_ready env ready.accepted
    pure (some (record { text = transcript; target = store_target chunk.source }))

  -- an empty chunk is dropped, any other error ends the session
  built : EmittedChunk → Result PipelineError AudioChunk → Session env (Option ChunkOutcome)
  unfolding transcribe
  built chunk (ok audio) = transcribe chunk audio
  built chunk (err empty_chunk) = pure none
  built chunk (err e) = raise (pipeline e)

  unfoldable pub process_chunk : EmittedChunk → Session env (Option ChunkOutcome)
  unfolding built
  process_chunk chunk = built chunk (build_audio_chunk chunk)
