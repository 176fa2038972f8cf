-- ===== src/Pipeline/Chunker/Frames.antt =====
-- A whole stream through a chunker: every frame is in just one chunk, in order.
use scrybe.Common.{◌≡◌, refl, sym, ap, ◌∙◌, inl, inr, Option, none, some, List, [], ◌∷◌, ◌++◌, All}
use mathlib.Core.Path.{subst}
use mathlib.Core.List.{append_assoc}
use scrybe.Types.{AudioFrame}
use scrybe.Pipeline.Chunker.{
  Listening, Chunker, EmittedChunk, ChunkBoundary, max_duration, silence_after_speech, push, finish,
}
use scrybe.Pipeline.Chunker.Buffer.{IsWellFormed, IsChunkOf, Flushes}
use scrybe.Pipeline.Chunker.Splits.{push-PushResult, finish-Flushes}

abbrev pub sent : Option EmittedChunk → List EmittedChunk → List EmittedChunk
sent none rest = rest
sent (some chunk) rest = chunk ∷ rest

abbrev pub frames_of : List EmittedChunk → List AudioFrame
frames_of [] = []
frames_of (chunk ∷ rest) = chunk.frames ++ frames_of rest

module _ (env : Listening) where
  -- the chunks of a stream that ends
  abbrev pub chunks_of : List AudioFrame → Chunker env → List EmittedChunk
  chunks_of [] c = sent (finish env c).1 []
  chunks_of (frame ∷ frames) c =
      let (after, out) = push env frame c in sent out (chunks_of frames after)

  -- a chunk has frames, and its start and its duration are theirs
  abbrev pub IsSound : EmittedChunk → Type 0
  IsSound chunk = (frames : List AudioFrame) × IsChunkOf env frames chunk

  IsCovered : List EmittedChunk → List AudioFrame → Type 0
  IsCovered chunks frames = (frames_of chunks ≡ frames) × All IsSound chunks

  flushed :
      {boundary : ChunkBoundary} (frames : List AudioFrame) (c : Chunker env)
      (after : Chunker env × Option EmittedChunk) (rest : List EmittedChunk)
      (todo : List AudioFrame)
      → Flushes env frames boundary c after
      → IsCovered rest todo
      → IsCovered (sent after.1 rest) (frames ++ todo)
  unfolding IsCovered
  flushed frames c after rest todo (_, _, (chunk, o, is, _, _)) (e, a) =
      subst (λ x. IsCovered (sent x rest) (frames ++ todo)) (sym o)
        (ap (λ l. l ++ frames_of rest) is.frames_same ∙ ap (λ l. frames ++ l) e, ((frames, is), a))

  -- The chunks of a stream that ends hold, joined in order, the frames that the chunker already
  -- buffered and then the stream's frames, each once, and each chunk's start and duration are those
  -- of its own frames; provided that the chunker is well formed at the start.
  pub frames_of-chunks_of :
      (frames : List AudioFrame) (c : Chunker env)
      → IsWellFormed env c
      → (frames_of (chunks_of frames c) ≡ c.pending ++ frames) × All IsSound (chunks_of frames c)
  unfolding IsCovered
  frames_of-chunks_of [] c w = elim (finish-Flushes env c w).0 [
    | inl (p, e) ↦ rw (e, p) (refl, tt)
    | inr f ↦ flushed c.pending c (finish env c) [] [] f (refl, tt)
  ]
  frames_of-chunks_of (frame ∷ frames) c w =
      let after = push env frame c in
      let todo = append_assoc c.pending (frame ∷ []) frames in
      let closed : (boundary : ChunkBoundary)
          → Flushes env (c.pending ++ frame ∷ []) boundary c after
          → IsCovered (chunks_of (frame ∷ frames) c) (c.pending ++ frame ∷ frames) =
        λ boundary f.
          let rest = frames_of-chunks_of frames after.0 f.1 in
          subst (IsCovered (chunks_of (frame ∷ frames) c)) todo (
            flushed (c.pending ++ frame ∷ []) c after (chunks_of frames after.0) frames f
              (rest.0 ∙ ap (λ l. l ++ frames) f.0, rest.1)) in
      elim (push-PushResult env frame c w) [
        | inl (quiet, p, w', _, _, _) ↦
            let rest = frames_of-chunks_of frames after.0 w' in
            subst (λ o. IsCovered (sent o (chunks_of frames after.0)) (c.pending ++ frame ∷ frames))
              (sym quiet) (rest.0 ∙ ap (λ l. l ++ frames) p ∙ todo, rest.1)
        | inr (inl (f, _, _)) ↦ closed max_duration f
        | inr (inr (f, _, _, _, _)) ↦ closed silence_after_speech f
      ]
