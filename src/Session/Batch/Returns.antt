-- ===== src/Session/Batch/Returns.antt =====
-- A chunk whose frames have one format is transcribed, where the outside grants it.
use scrybe.Common.{
  ℕ, ◌<◌, ◌≡◌, ◌⊎◌, inl, inr, refl, sym, ◌∙◌, Option, none, some, List, [], ◌∷◌, All, arith,
}
use mathlib.Core.Path.{subst}
use scrybe.Common.Action.{Result, ok, err, Ensures-bind, Ensures-pure, Ensures-for_each}
use scrybe.Errors.{PipelineError, empty_chunk}
use scrybe.Types.{AudioFrame, FrameSource}
use scrybe.Pipeline.Chunker.{EmittedChunk, ChunkBoundary}
use scrybe.Pipeline.Normalize.{validate_frame_format, downmix_to_mono}
use scrybe.Session.AcceptedFinal.{AcceptedFinal}
use scrybe.Session.State.{Env, AudioChunk}
use scrybe.Session.State.Returns.{
  Chunkers, chunkers, Grants, Returns, append_durable-Returns, tell-Returns, transcribed-Returns,
}
use scrybe.Session.Persist.{persist_final, release_ready}
use scrybe.Session.Streaming.{push_boundary}
use scrybe.Session.Batch.{
  after_valid, validate_frames, interleaved, resampled, build_valid, build_audio_chunk, transcribe,
  built, process_chunk,
}

-- one sample rate and one number of channels, neither of them 0
pub record Format : Type 0 where
  pub sample_rate : ℕ
  pub channels : ℕ
  pub has_rate : 0 < sample_rate
  pub has_channels : 0 < channels

abbrev pub IsFormed : Format → AudioFrame → Type 0
IsFormed format frame =
    (frame.sample_rate ≡ format.sample_rate) × (frame.channels ≡ format.channels)

format_accepted :
    (index rate channels r c : ℕ)
    → 0 < r
    → 0 < c
    → rate ≡ r
    → channels ≡ c
    → validate_frame_format index channels rate c r ≡ ok tt
unfolding validate_frame_format
format_accepted index rate channels r c hr hc er ec = ground arith

validate_frames-ok :
    (format : Format) (frames : List AudioFrame) (index r c : ℕ)
    → r ≡ format.sample_rate
    → c ≡ format.channels
    → All (IsFormed format) frames
    → validate_frames index c r frames ≡ ok tt
unfolding validate_frames after_valid
validate_frames-ok format [] index r c er ec h = refl
validate_frames-ok format (frame ∷ frames) index r c er ec h =
    rw
      (format_accepted index frame.sample_rate frame.channels r c
        (omega (arith, er, format.has_rate)) (omega (arith, ec, format.has_channels))
        (h.0.0 ∙ sym er) (h.0.1 ∙ sym ec))
      (validate_frames-ok format frames _ r c er ec h.1)

module _ (env : Env) (grants : Grants env) (format : Format) where
  resampled-ok :
      (chunk : EmittedChunk) (rate : ℕ) (samples : List ℕ) (o : Option (List ℕ))
      → o ≡ some samples
      → (audio : AudioChunk) × (resampled env chunk rate o ≡ ok audio)
  unfolding resampled
  resampled-ok chunk rate samples none e = absurd (cc)
  resampled-ok chunk rate samples (some out) e = (_, refl)

  build_valid-ok :
      (chunk : EmittedChunk) (first : AudioFrame) (r : Result PipelineError (Unit {0}))
      → 0 < first.sample_rate
      → r ≡ ok tt
      → (audio : AudioChunk) × (build_valid env chunk first r ≡ ok audio)
  unfolding build_valid
  build_valid-ok chunk first (ok _) h e =
      let (out, f) =
        grants.resamples (downmix_to_mono env.resampling (interleaved chunk.frames) first.channels)
          first.sample_rate h in
      resampled-ok chunk first.sample_rate out _ f
  build_valid-ok chunk first (err _) h e = absurd (cc)

  build_frames :
      (frames : List AudioFrame) (start duration : ℕ) (source : FrameSource)
      (ended_on : ChunkBoundary)
      → All (IsFormed format) frames
      → (build_audio_chunk env (record {
        frames = frames;
        start = start;
        duration = duration;
        source = source;
        ended_on = ended_on;
      })
          ≡ err empty_chunk)
        ⊎ ((audio : AudioChunk) × (build_audio_chunk env (record {
          frames = frames;
          start = start;
          duration = duration;
          source = source;
          ended_on = ended_on;
        })
              ≡ ok audio))
  unfolding build_audio_chunk
  build_frames [] start duration source ended_on h = inl refl
  build_frames (first ∷ rest) start duration source ended_on h = inr (
      build_valid-ok
        (record {
          frames = first ∷ rest;
          start = start;
          duration = duration;
          source = source;
          ended_on = ended_on;
        })
        first _ (omega (arith, h.0.0, format.has_rate))
        (validate_frames-ok format (first ∷ rest) 0 first.sample_rate first.channels h.0.0 h.0.1 h))

  module _ (K : Chunkers env → Type 0) where
    persist_final-Returns : (f : AcceptedFinal) → Returns env K (persist_final env f)
    unfolding persist_final
    persist_final-Returns f =
        Ensures-bind _ _ (append_durable-Returns env K grants _)
          λ _. Ensures-bind _ _ (tell-Returns env K grants _) λ _. tell-Returns env K grants _

    pub release_ready-Returns :
        (ready : List AcceptedFinal) → Returns env K (release_ready env ready)
    unfolding release_ready
    release_ready-Returns ready =
        Ensures-for_each (λ _ s. K (chunkers env s)) _ (λ f _. persist_final-Returns f) ready

    transcribe-Returns :
        (chunk : EmittedChunk) (audio : AudioChunk) → Returns env K (transcribe env chunk audio)
    unfolding transcribe push_boundary
    transcribe-Returns chunk audio =
        Ensures-bind _ _ (transcribed-Returns env K grants audio) λ transcript.
          Ensures-bind {Q = λ _ s. K (chunkers env s)} _ _ (record { at = λ s k. k })
            λ ready.
              Ensures-bind _ _ (release_ready-Returns ready.accepted) λ _. Ensures-pure _ (λ s k. k)

    built-Returns :
        (chunk : EmittedChunk) (r : Result PipelineError AudioChunk)
        → (r ≡ err empty_chunk) ⊎ ((audio : AudioChunk) × (r ≡ ok audio))
        → Returns env K (built env chunk r)
    unfolding built
    built-Returns chunk r (inl e) =
        subst (λ x. Returns env K (built env chunk x)) (sym e) (Ensures-pure _ (λ s k. k))
    built-Returns chunk r (inr (audio, e)) =
        subst (λ x. Returns env K (built env chunk x)) (sym e) (transcribe-Returns chunk audio)

    pub process_chunk-Returns :
        (chunk : EmittedChunk)
        → All (IsFormed format) chunk.frames
        → Returns env K (process_chunk env chunk)
    unfolding process_chunk
    process_chunk-Returns chunk h =
        built-Returns chunk _
          (build_frames chunk.frames chunk.start chunk.duration chunk.source chunk.ended_on h)
