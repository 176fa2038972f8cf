-- ===== src/Session/Streaming/Quiet.antt =====
-- Normalizing a frame and closing a segment leave the transcript, the log and the boundary alone.
use scrybe.Common.{refl, Option, none, some}
use scrybe.Common.Action.{Result, modify}
use scrybe.Errors.{PipelineError}
use scrybe.Types.{FrameSource, mic, system, mixed, TranscriptChunk}
use scrybe.Pipeline.Chunker.{EmittedChunk}
use scrybe.Pipeline.Normalize.{SourceNormalizer}
use scrybe.Session.State.{Env, StreamingStage, partial, final, StreamingUpdate}
use scrybe.Session.View.{Leaves, Leaves-modify, leaves_rules}
use scrybe.Session.Streaming.{set_normalizer, keep_normalizer, finalize, final_only, staged}

module _ (env : Env) where
  pub set_normalizer-Leaves :
      (source : FrameSource) (n : SourceNormalizer env.resampling)
      → Leaves {env = env} (modify (λ s. record s { live = set_normalizer env source n s.live }))
  set_normalizer-Leaves mic n = Leaves-modify _ (λ s. refl)
  set_normalizer-Leaves system n = Leaves-modify _ (λ s. refl)
  set_normalizer-Leaves mixed n = Leaves-modify _ (λ s. refl)

  pub keep_normalizer-Leaves :
      {A : Type 0} (source : FrameSource)
      (r : Result PipelineError A × SourceNormalizer env.resampling)
      → Leaves (keep_normalizer env source r)
  unfolding keep_normalizer
  keep_normalizer-Leaves source (result, n) = search (leaves_rules, set_normalizer-Leaves)

  staged-Leaves :
      (stage : StreamingStage) (chunk : TranscriptChunk) → Leaves (staged env stage chunk)
  unfolding staged
  staged-Leaves partial chunk = search leaves_rules
  staged-Leaves final chunk = search leaves_rules

  final_only-Leaves : (update : Option StreamingUpdate) → Leaves (final_only env update)
  unfolding final_only
  final_only-Leaves none = search leaves_rules
  final_only-Leaves (some update) = staged-Leaves update.stage update.chunk

  pub finalize-Leaves : (chunk : EmittedChunk) → Leaves (finalize env chunk)
  unfolding finalize
  finalize-Leaves chunk = search (leaves_rules, final_only-Leaves)
