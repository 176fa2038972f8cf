-- ===== src/Session/Streaming/Heard.antt =====
-- On the streaming path, a closed segment's text is one that the session has heard.
use scrybe.Common.{Option, none, some, List, [], ◌∷◌, ℕ}
use scrybe.Common.Action.{
  Keeps, Keeps-bind, Keeps-pure, Keeps-raise, Ensures, Ensures-bind, Ensures-pure,
}
use scrybe.Text.{Text}
use scrybe.Types.{AudioFrame, FrameSource, TranscriptChunk}
use scrybe.Pipeline.Chunker.{EmittedChunk}
use scrybe.Session.State.{Env, StreamingStage, partial, final, StreamingUpdate}
use scrybe.Session.View.{leaves_rules, Leaves-ask_stt}
use scrybe.Session.Streaming.{
  ChunkOutcome, accept, heard, log_partial, push_frame, flush_source, route,
  process_streaming_chunk,
}
use scrybe.Session.Streaming.Quiet.{set_normalizer-Leaves, keep_normalizer-Leaves, finalize-Leaves}
use scrybe.Session.Heard.{said, Leaves-said}
use scrybe.Session.Heard.Release.{Hears, Stopped, Keeps-Hears, log_durable-said}
use scrybe.Session.Heard.Boundary.{push_boundary-Hears}
use scrybe.Session.Persist.Heard.{release_streaming-Hears}

-- the text of an outcome
abbrev pub text_of : Option ChunkOutcome → List TranscriptChunk
text_of none = []
text_of (some outcome) = outcome.text ∷ []

module _ (env : Env) where
  log_partial-said :
      (source : FrameSource) (stage : StreamingStage) (chunk : TranscriptChunk)
      → Keeps (said env) (log_partial env source stage chunk)
  unfolding log_partial
  log_partial-said source final chunk = Keeps-raise _
  log_partial-said source partial chunk =
      Keeps-bind _ _ (log_durable-said env _ _) (λ _. Keeps-pure tt)

  heard-said :
      (source : FrameSource) (update : Option StreamingUpdate)
      → Keeps (said env) (heard env source update)
  unfolding heard
  heard-said source none = Keeps-pure tt
  heard-said source (some update) = log_partial-said source update.stage update.chunk

  accept-said :
      (source : FrameSource) (samples : List ℕ) (offset : ℕ)
      → Keeps (said env) (accept env source samples offset)
  unfolding accept
  accept-said source [] offset = Keeps-pure tt
  accept-said source (w ∷ ws) offset =
      Keeps-bind _ _ (Leaves-said _ (Leaves-ask_stt _)) (heard-said source)

  pub push_frame-said : (frame : AudioFrame) → Keeps (said env) (push_frame env frame)
  unfolding push_frame
  push_frame-said frame = Keeps-bind _ _ (Leaves-said _ (search leaves_rules)) λ n.
      Keeps-bind _ _ (Leaves-said _ (keep_normalizer-Leaves env frame.source _))
        λ samples. accept-said _ samples _

  pub flush_source-said : (source : FrameSource) → Keeps (said env) (flush_source env source)
  unfolding flush_source
  flush_source-said source = Keeps-bind _ _ (Leaves-said _ (search leaves_rules)) λ n.
      Keeps-bind _ _ (Leaves-said _ (set_normalizer-Leaves env source _)) λ _. accept-said _ _ _

module _ (env : Env) (header : Text) where
  route-Hears :
      (chunk : EmittedChunk) (o : Option TranscriptChunk)
      → Ensures
          (Stopped env header)
          (λ outcome. Hears env header [] (text_of outcome))
          (Hears env header [] [])
          (route env chunk o)
  unfolding route
  route-Hears chunk none = Ensures-pure _ (λ s h. h)
  route-Hears chunk (some transcript) =
      Ensures-bind _ _ (Keeps-Hears env header [] [] _ (log_durable-said env _ _)) λ seq.
        Ensures-bind _ _ (push_boundary-Hears env header _ chunk.duration) λ ready.
          Ensures-bind _ _ (release_streaming-Hears env header (transcript ∷ []) ready)
            λ _. Ensures-pure _ (λ s h. h)

  pub process_streaming_chunk-Hears :
      (chunk : EmittedChunk)
      → Ensures
          (Stopped env header)
          (λ outcome. Hears env header [] (text_of outcome))
          (Hears env header [] [])
          (process_streaming_chunk env chunk)
  unfolding process_streaming_chunk
  process_streaming_chunk-Hears chunk =
      Ensures-bind _ _ (Keeps-Hears env header [] [] _ (Leaves-said _ (finalize-Leaves env chunk)))
        (route-Hears chunk)
