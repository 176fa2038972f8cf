-- ===== src/Pipeline/Chunker/Pending.antt =====
-- What holds of every frame that a chunker was given holds of what it keeps and of what it emits.
use scrybe.Common.{
  Bool, true, false, Option, none, some, List, [], ◌∷◌, ◌++◌, All, All-append, if◌then◌else◌,
}
use scrybe.Types.{AudioFrame}
use scrybe.Pipeline.Chunker.{
  Listening, Chunker, EmittedChunk, ChunkBoundary, VadDecision, speech, silence, flush, hear,
  buffer, push, finish, max_duration, silence_after_speech, end_of_stream,
}

module _ (listening : Listening) (P : AudioFrame → Type 0) where
  abbrev pub Emits : Option EmittedChunk → Type 0
  Emits none = Unit
  Emits (some chunk) = All P chunk.frames

  abbrev pub Keeps : Chunker listening → Type 0
  Keeps c = All P c.pending

  abbrev Both : Chunker listening × Option EmittedChunk → Type 0
  Both r = Keeps r.0 × Emits r.1

  flush_frames :
      (boundary : ChunkBoundary) (c : Chunker listening) (frames : List AudioFrame)
      → All P frames
      → Both (flush listening boundary (record c { pending = frames }))
  unfolding flush
  flush_frames boundary c [] h = (tt, tt)
  flush_frames boundary c (first ∷ rest) h = (tt, h)

  flush-Both :
      (boundary : ChunkBoundary) (c : Chunker listening)
      → Keeps c
      → Both (flush listening boundary c)
  flush-Both boundary c h = flush_frames boundary c c.pending h

  hear-Keeps :
      (decision : VadDecision) (frame : AudioFrame) (c : Chunker listening)
      → Keeps c
      → P frame
      → (d : _) → All P ((hear listening decision d c).pending ++ frame ∷ [])
  unfolding hear
  hear-Keeps speech frame c h p d = All-append P c.pending (frame ∷ []) h (p, tt)
  hear-Keeps silence frame c h p d = All-append P c.pending (frame ∷ []) h (p, tt)

  buffer-Keeps :
      (frame : AudioFrame) (c : Chunker listening)
      → Keeps c
      → P frame
      → Keeps (buffer listening frame c)
  unfolding buffer
  buffer-Keeps frame c h p = hear-Keeps _ frame _ h p _

  bounded :
      (due said : Bool) (c : Chunker listening)
      → Keeps c
      → Both (
          if due
          then flush listening max_duration c
          else if said
          then flush listening silence_after_speech c
          else (c, none))
  bounded true said c h = flush-Both _ c h
  bounded false true c h = flush-Both _ c h
  bounded false false c h = (h, tt)

  pub push-Keeps :
      (frame : AudioFrame) (c : Chunker listening)
      → Keeps c
      → P frame
      → Keeps (push listening frame c).0 × Emits (push listening frame c).1
  unfolding push
  push-Keeps frame c h p = bounded _ _ _ (buffer-Keeps frame c h p)

  finish_frames :
      (c : Chunker listening) (frames : List AudioFrame)
      → All P frames
      → Both (finish listening (record c { pending = frames }))
  unfolding finish
  finish_frames c [] h = (tt, tt)
  finish_frames c (first ∷ rest) h = flush_frames end_of_stream c (first ∷ rest) h

  pub finish-Keeps :
      (c : Chunker listening)
      → Keeps c
      → Keeps (finish listening c).0 × Emits (finish listening c).1
  finish-Keeps c h = finish_frames c c.pending h
