-- ===== src/Session/Batch/Unfed.antt =====
-- The batch path gives the journals nothing.
use scrybe.Common.Action.{Result, ok, err}
use scrybe.Errors.{PipelineError, empty_chunk}
use scrybe.Pipeline.Chunker.{EmittedChunk}
use scrybe.Session.State.{Env, AudioChunk}
use scrybe.Session.Fed.{Unfed, unfed_rules}
use scrybe.Session.Persist.Unfed.{release_ready-Unfed}
use scrybe.Session.Streaming.Unfed.{push_boundary-Unfed}
use scrybe.Session.Batch.{transcribe, built, build_audio_chunk, process_chunk}

module _ (env : Env) where
  transcribe-Unfed :
      (chunk : EmittedChunk) (audio : AudioChunk) → Unfed (transcribe env chunk audio)
  unfolding transcribe
  transcribe-Unfed chunk audio = search (unfed_rules, push_boundary-Unfed, release_ready-Unfed)

  built-Unfed :
      (chunk : EmittedChunk) (r : Result PipelineError AudioChunk) → Unfed (built env chunk r)
  unfolding built
  built-Unfed chunk (ok audio) = transcribe-Unfed chunk audio
  built-Unfed chunk (err empty_chunk) = search unfed_rules
  built-Unfed chunk (err _) = search unfed_rules

  pub process_chunk-Unfed : (chunk : EmittedChunk) → Unfed (process_chunk env chunk)
  unfolding process_chunk
  process_chunk-Unfed chunk = built-Unfed chunk (build_audio_chunk env chunk)
