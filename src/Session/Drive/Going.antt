-- ===== src/Session/Drive/Going.antt =====
-- A batch session goes on from frame to frame.
use scrybe.Common.{◌≡◌, refl, sym, Option, none, some, List, [], ◌∷◌, All, if◌then◌else◌}
use mathlib.Core.Path.{subst}
use scrybe.Common.Action.{
  Result, ok, err, Ensures, Ensures-bind, Ensures-pure, Ensures-if, pure, for_each,
}
use scrybe.Errors.{CaptureError}
use scrybe.Types.{AudioFrame, FrameSource, mic, system, mixed, TranscriptChunk}
use scrybe.Pipeline.Chunker
use scrybe.Pipeline.Chunker.{EmittedChunk}
use scrybe.Pipeline.Chunker.Pending.{Keeps, Emits, push-Keeps}
use scrybe.Session.AcceptedFinal.{Resolved}
use scrybe.Session.State.{Env, SessionState, Session}
use scrybe.Session.State.Returns.{Chunkers, chunkers, Grants, Never, Returns}
use scrybe.Session.Journals.Returns.{journal_push-Returns}
use scrybe.Session.Persist.{
  StoreTarget, to_mic, to_system, release_ready, release_streaming_resolved,
}
use scrybe.Session.Streaming.{ChunkOutcome, push_frame, process_streaming_chunk}
use scrybe.Session.Batch.{process_chunk}
use scrybe.Session.Batch.Returns.{Format, IsFormed, release_ready-Returns, process_chunk-Returns}
use scrybe.Session.Drive.{
  is_empty, emitted, release, advance_boundary, store_text, store_outcome, process, push_mic,
  push_system, push_chunker, take_frame, capture,
}

module _ (env : Env) (format : FrameSource → Format) where
  -- the format of the frames that a channel's chunker takes
  abbrev pub Formed : FrameSource → AudioFrame → Type 0
  Formed source = IsFormed (format source)

  abbrev pub HoldsSystem : Option (Chunker.Chunker env.listening) → Type 0
  HoldsSystem none = Unit
  HoldsSystem (some c) = Keeps env.listening (Formed system) c

  abbrev pub IsWellFormed : Result CaptureError AudioFrame → Type 0
  IsWellFormed (ok frame) = Formed frame.source frame
  IsWellFormed (err _) = Unit

module _ (env : Env) (grants : Grants env) (format : FrameSource → Format)
    (as_mic : format mixed ≡ format mic) where
  pub record Pending (v : Chunkers env) : Type 0 where
    pub mine : Keeps env.listening (Formed env format mic) v.mine
    pub theirs : HoldsSystem env format v.theirs

  abbrev pub IsPending : SessionState env → Type 0
  IsPending s = Pending (chunkers env s)

  abbrev pub Going : {A : Type 0} → Session env A → Type 0
  Going m = Returns env Pending m

  pub release-Going : (resolved : Resolved) → Going (release env resolved)
  unfolding release
  release-Going resolved =
      subst
        (λ b. Going (
          if b
          then release_streaming_resolved env resolved
          else release_ready env resolved.accepted))
        (sym grants.batch) (release_ready-Returns env grants (format mic) Pending resolved.accepted)

  store_text-Going :
      (target : StoreTarget) (text : TranscriptChunk) → Going (store_text env target text)
  unfolding store_text
  store_text-Going to_mic text = record { at = λ s k. k }
  store_text-Going to_system text = record { at = λ s k. k }

  store_outcome-Going : (o : Option ChunkOutcome) → Going (store_outcome env o)
  unfolding store_outcome
  store_outcome-Going none = Ensures-pure tt (λ s k. k)
  store_outcome-Going (some outcome) = store_text-Going outcome.target outcome.text

  process-Going :
      (source : FrameSource) (chunk : EmittedChunk)
      → All (Formed env format source) chunk.frames
      → Going (process env chunk)
  unfolding process
  process-Going source chunk h =
      Ensures-bind _ _
        (subst
          (λ b. Going (if b then process_streaming_chunk env chunk else process_chunk env chunk))
          (sym grants.batch) (process_chunk-Returns env grants (format source) Pending chunk h))
        store_outcome-Going

  abbrev pub AllOne : List EmittedChunk → Type 0
  AllOne = All (λ chunk. (source : FrameSource) × All (Formed env format source) chunk.frames)

  processed-Going :
      (chunks : List EmittedChunk) → AllOne chunks → Going (for_each chunks (process env))
  unfolding for_each
  processed-Going [] h = Ensures-pure tt (λ s k. k)
  processed-Going (chunk ∷ chunks) h =
      Ensures-bind _ _ (process-Going h.0.0 chunk h.0.1) λ _. processed-Going chunks h.1

  pub emitted-AllOne :
      (source : FrameSource) (o : Option EmittedChunk)
      → Emits env.listening (Formed env format source) o
      → AllOne (emitted o)
  emitted-AllOne source none h = tt
  emitted-AllOne source (some chunk) h = ((source, h), tt)

  abbrev pub Emitting : Session env (List EmittedChunk) → Type 0
  Emitting m = Ensures (Never env) (λ chunks s. IsPending s × AllOne chunks) IsPending m

  push_mic-Emitting :
      (frame : AudioFrame) → Formed env format mic frame → Emitting (push_mic env frame)
  unfolding push_mic
  push_mic-Emitting frame p = record {
    at = λ s k.
        let (h, e) =
          push-Keeps env.listening (Formed env format mic) frame s.mic_chunker k.mine p in
        (record { mine = h; theirs = k.theirs }, emitted-AllOne mic _ e);
  }

  push_system-Emitting :
      (frame : AudioFrame) (o : Option (Chunker.Chunker env.listening))
      → Formed env format system frame
      → Ensures
          (Never env)
          (λ chunks s. IsPending s × AllOne chunks)
          (λ s. IsPending s × (s.system_chunker ≡ o))
          (push_system env frame o)
  unfolding push_system
  push_system-Emitting frame none p = record { at = λ s k. (k.0, tt) }
  push_system-Emitting frame (some c) p = record {
    at = λ s k.
        let (h, e) =
          push-Keeps env.listening (Formed env format system) frame c
            (subst (HoldsSystem env format) k.1 k.0.theirs) p in
        (record { mine = k.0.mine; theirs = h }, emitted-AllOne system _ e);
  }

  push_chunker-Emitting :
      (frame : AudioFrame) (source : FrameSource)
      → Formed env format source frame
      → Emitting (push_chunker env frame source)
  unfolding push_chunker
  push_chunker-Emitting frame mic p = push_mic-Emitting frame p
  push_chunker-Emitting frame mixed p =
      push_mic-Emitting frame (subst (λ f. IsFormed f frame) as_mic p)
  push_chunker-Emitting frame system p =
      Ensures-bind {Q = λ o s. IsPending s × (s.system_chunker ≡ o)} _ _
        (record { at = λ s k. (k, refl) }) λ o. push_system-Emitting frame o p

  pub processing :
      (chunks : List EmittedChunk)
      → Ensures
          (Never env)
          (λ _. IsPending)
          (λ s. IsPending s × AllOne chunks)
          (for_each chunks (process env))
  processing chunks = record { at = λ s k. (processed-Going chunks k.1).at s k.0 }

  take_frame-Going :
      (frame : AudioFrame) → Formed env format frame.source frame → Going (take_frame env frame)
  unfolding take_frame advance_boundary
  take_frame-Going frame p = Ensures-bind _ _ (journal_push-Returns env Pending grants frame) λ _.
      Ensures-bind {Q = λ _. IsPending} _ _ (record { at = λ s k. k })
        λ progressed.
          Ensures-bind {Q = λ _. IsPending} _ _
            (Ensures-if (is_empty progressed) _ _ (λ _. Ensures-pure tt (λ s k. k))
              (λ _. release-Going progressed))
            λ _.
              Ensures-bind {Q = λ _. IsPending} _ _
                (subst (λ b. Going (if b then push_frame env frame else pure tt)) (sym grants.batch)
                  (Ensures-pure tt (λ s k. k)))
                λ _. Ensures-bind _ _ (push_chunker-Emitting frame frame.source p) processing

  pub capture-Going :
      (stream : List (Result CaptureError AudioFrame))
      → All (IsWellFormed env format) stream
      → Going (capture env stream)
  unfolding capture
  capture-Going [] h = Ensures-pure none (λ s k. k)
  capture-Going (err e ∷ rest) h = Ensures-pure (some e) (λ s k. k)
  capture-Going (ok frame ∷ rest) h =
      Ensures-bind _ _ (take_frame-Going frame h.0) λ _. capture-Going rest h.1
