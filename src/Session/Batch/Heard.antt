-- ===== src/Session/Batch/Heard.antt =====
-- On the batch path, a transcribed chunk's text is one that the session has heard.
use scrybe.Common.{[], ◌∷◌}
use scrybe.Common.Action.{Result, ok, err, Ensures, Ensures-bind, Ensures-pure, Ensures-raise}
use scrybe.Errors.{PipelineError, empty_chunk}
use scrybe.Text.{Text}
use scrybe.Pipeline.Chunker.{EmittedChunk}
use scrybe.Session.State.{Env, AudioChunk}
use scrybe.Session.View.{Leaves-ask_stt}
use scrybe.Session.Streaming.Heard.{text_of}
use scrybe.Session.Batch.{transcribe, built, process_chunk, build_audio_chunk}
use scrybe.Session.Heard.{Leaves-said}
use scrybe.Session.Heard.Release.{Hears, Stopped, Keeps-Hears, release_ready-Hears}
use scrybe.Session.Heard.Boundary.{push_boundary-Hears}

module _ (env : Env) (header : Text) where
  transcribe-Hears :
      (chunk : EmittedChunk) (audio : AudioChunk)
      → Ensures
          (Stopped env header)
          (λ outcome. Hears env header [] (text_of outcome))
          (Hears env header [] [])
          (transcribe env chunk audio)
  unfolding transcribe
  transcribe-Hears chunk audio =
      Ensures-bind _ _ (Keeps-Hears env header [] [] _ (Leaves-said _ (Leaves-ask_stt _)))
        λ transcript. Ensures-bind _ _ (push_boundary-Hears env header _ chunk.duration) λ ready.
          Ensures-bind _ _ (release_ready-Hears env header ready.accepted (transcript ∷ []))
            λ _. Ensures-pure _ (λ s h. h)

  built-Hears :
      (chunk : EmittedChunk) (result : Result PipelineError AudioChunk)
      → Ensures
          (Stopped env header)
          (λ outcome. Hears env header [] (text_of outcome))
          (Hears env header [] [])
          (built env chunk result)
  unfolding built
  built-Hears chunk (ok audio) = transcribe-Hears chunk audio
  built-Hears chunk (err empty_chunk) = Ensures-pure _ (λ s h. h)
  built-Hears chunk (err _) = Ensures-raise _ (λ s h. tt)

  pub process_chunk-Hears :
      (chunk : EmittedChunk)
      → Ensures
          (Stopped env header)
          (λ outcome. Hears env header [] (text_of outcome))
          (Hears env header [] [])
          (process_chunk env chunk)
  unfolding process_chunk
  process_chunk-Hears chunk = built-Hears chunk (build_audio_chunk env chunk)
