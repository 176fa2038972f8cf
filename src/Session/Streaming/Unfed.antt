-- ===== src/Session/Streaming/Unfed.antt =====
-- The recognizer and the boundary give the journals nothing.
use scrybe.Common.{ℕ, refl, Option, none, some, List, [], ◌∷◌}
use scrybe.Common.Action.{Result, modify}
use scrybe.Errors.{PipelineError}
use scrybe.Types.{AudioFrame, FrameSource, mic, system, mixed, TranscriptChunk}
use scrybe.Pipeline.Chunker.{EmittedChunk}
use scrybe.Pipeline.Normalize.{SourceNormalizer}
use scrybe.Session.AcceptedFinal.{AcceptedFinal}
use scrybe.Session.State.{Env, StreamingStage, partial, final, StreamingUpdate}
use scrybe.Session.Fed.{Unfed, unfed_rules}
use scrybe.Session.Persist.Unfed.{release_streaming_resolved-Unfed}
use scrybe.Session.Streaming.{
  log_partial, heard, accept, set_normalizer, keep_normalizer, push_frame, flush_source, staged,
  final_only, finalize, push_boundary, route, process_streaming_chunk,
}

module _ (env : Env) where
  log_partial-Unfed :
      (source : FrameSource) (stage : StreamingStage) (chunk : TranscriptChunk)
      → Unfed (log_partial env source stage chunk)
  unfolding log_partial
  log_partial-Unfed source partial chunk = search unfed_rules
  log_partial-Unfed source final chunk = search unfed_rules

  heard-Unfed :
      (source : FrameSource) (update : Option StreamingUpdate) → Unfed (heard env source update)
  unfolding heard
  heard-Unfed source none = search unfed_rules
  heard-Unfed source (some update) = log_partial-Unfed source update.stage update.chunk

  accept-Unfed :
      (source : FrameSource) (samples : List ℕ) (offset : ℕ)
      → Unfed (accept env source samples offset)
  unfolding accept
  accept-Unfed source [] offset = search unfed_rules
  accept-Unfed source (w ∷ ws) offset = search (unfed_rules, heard-Unfed)

  set_normalizer-Unfed :
      (source : FrameSource) (n : SourceNormalizer env.resampling)
      → Unfed {env = env} (modify (λ s. record s { live = set_normalizer env source n s.live }))
  set_normalizer-Unfed mic n = record { same = λ s. refl }
  set_normalizer-Unfed system n = record { same = λ s. refl }
  set_normalizer-Unfed mixed n = record { same = λ s. refl }

  keep_normalizer-Unfed :
      {A : Type 0} (source : FrameSource)
      (r : Result PipelineError A × SourceNormalizer env.resampling)
      → Unfed (keep_normalizer env source r)
  unfolding keep_normalizer
  keep_normalizer-Unfed source (result, n) = search (unfed_rules, set_normalizer-Unfed)

  pub push_frame-Unfed : (frame : AudioFrame) → Unfed (push_frame env frame)
  unfolding push_frame
  push_frame-Unfed frame = search (unfed_rules, keep_normalizer-Unfed, accept-Unfed)

  pub flush_source-Unfed : (source : FrameSource) → Unfed (flush_source env source)
  unfolding flush_source
  flush_source-Unfed source = search (unfed_rules, set_normalizer-Unfed, accept-Unfed)

  staged-Unfed : (stage : StreamingStage) (chunk : TranscriptChunk) → Unfed (staged env stage chunk)
  unfolding staged
  staged-Unfed partial chunk = search unfed_rules
  staged-Unfed final chunk = search unfed_rules

  final_only-Unfed : (update : Option StreamingUpdate) → Unfed (final_only env update)
  unfolding final_only
  final_only-Unfed none = search unfed_rules
  final_only-Unfed (some update) = staged-Unfed update.stage update.chunk

  finalize-Unfed : (chunk : EmittedChunk) → Unfed (finalize env chunk)
  unfolding finalize
  finalize-Unfed chunk = search (unfed_rules, final_only-Unfed)

  pub push_boundary-Unfed :
      (f : AcceptedFinal) (duration : ℕ) → Unfed (push_boundary env f duration)
  unfolding push_boundary
  push_boundary-Unfed f duration = record { same = λ s. refl }

  route-Unfed :
      (chunk : EmittedChunk) (transcript : Option TranscriptChunk)
      → Unfed (route env chunk transcript)
  unfolding route
  route-Unfed chunk none = search unfed_rules
  route-Unfed chunk (some transcript) =
      search (unfed_rules, push_boundary-Unfed, release_streaming_resolved-Unfed)

  pub process_streaming_chunk-Unfed :
      (chunk : EmittedChunk) → Unfed (process_streaming_chunk env chunk)
  unfolding process_streaming_chunk
  process_streaming_chunk-Unfed chunk = search (unfed_rules, finalize-Unfed, route-Unfed)
