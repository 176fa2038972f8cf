-- ===== src/Pipeline/Chunker/Splits.antt =====
-- What one frame does to a chunker: it is buffered, or it closes the chunk.
use scrybe.Common.{
  ◌<◌, ◌≤◌, ◌≡◌, refl, sym, ap, ◌∙◌, ◌⊎◌, inl, inr, true, false, Option, none, List, [], ◌∷◌, ◌++◌,
  leb, leb→le, leb→lt, Bool-cases, and_cases, arith,
}
use mathlib.Core.Path.{subst}
use scrybe.Types.{AudioFrame}
use scrybe.Pipeline.Chunker.{
  Listening, Chunker, EmittedChunk, ChunkBoundary, max_duration, silence_after_speech,
  end_of_stream, flush, buffer, too_long, spoken, push, finish,
}
use scrybe.Pipeline.Chunker.Buffer.{
  first_timestamp, duration_of, IsWellFormed, buffer_counts, Flushes, flush-Flushes, append-Flushes,
}

module _ (env : Listening) where
  -- the three ways that a frame can end
  abbrev pub PushResult : AudioFrame → Chunker env → Type 0
  PushResult frame c =
      let frames = c.pending ++ frame ∷ [] in
      let b = buffer env frame c in
      let after = push env frame c in
      ((after.1 ≡ none)
        × (after.0.pending ≡ frames)
        × IsWellFormed env after.0
        × (duration_of env frames < c.config.max_chunk)
        × (after ≡ (b, none))
        × (spoken env b ≡ false))
      ⊎ ((Flushes env frames max_duration c after
            × (c.config.max_chunk ≤ duration_of env frames)
            × (after ≡ flush env max_duration b))
          ⊎ (Flushes env frames silence_after_speech c after
              × (duration_of env frames < c.config.max_chunk)
              × (c.config.min_speech_before_silence_split ≤ b.speech_duration)
              × (c.config.silence_split_after ≤ b.trailing_silence)
              × (after ≡ flush env silence_after_speech b)))

  push_branch :
      (frame : AudioFrame) (c : Chunker env)
      → let b = buffer env frame c in
        (too_long env b ≡ true → push env frame c ≡ flush env max_duration b)
        × (too_long env b ≡ false
            → spoken env b ≡ true
            → push env frame c ≡ flush env silence_after_speech b)
        × (too_long env b ≡ false → spoken env b ≡ false → push env frame c ≡ (b, none))
  unfolding push
  push_branch frame c = (λ h. rw h, λ h k. rw (h, k), λ h k. rw (h, k))

  closes :
      (frames : List AudioFrame) (boundary : ChunkBoundary) (c b : Chunker env)
      {after flushed : Chunker env × Option EmittedChunk}
      → b.source ≡ c.source
      → after ≡ flushed
      → Flushes env frames boundary b flushed
      → Flushes env frames boundary c after
  closes frames boundary c b source e f =
      subst (λ x. Flushes env frames boundary c x) (sym e)
        (let (p, w, (chunk, o, is, s, k)) = f in (p, w, (chunk, o, is, s ∙ source, k)))

  -- A frame is buffered, or it closes the chunk; by the chunker's own counters.
  pub push-PushResult :
      (frame : AudioFrame) (c : Chunker env) → IsWellFormed env c → PushResult frame c
  push-PushResult frame c w =
      let b = buffer env frame c in
      let frames = c.pending ++ frame ∷ [] in
      let (p, d, t, config, source) = buffer_counts env frame c w in
      let due : (boundary : ChunkBoundary)
          → push env frame c ≡ flush env boundary b
          → Flushes env frames boundary c (push env frame c) =
        λ boundary e.
          closes frames boundary c b source e
            (append-Flushes env boundary c.pending frame b p d t) in
      let longest = ap (λ k. k.max_chunk) config in
      let speech_least = ap (λ k. k.min_speech_before_silence_split) config in
      let silence_least = ap (λ k. k.silence_split_after) config in
      elim (Bool-cases (too_long env b)) [
        | inl long ↦ inr (
            inl (
              due max_duration ((push_branch frame c).0 long),
              omega (arith, leb→le _ _ long, longest, d),
              (push_branch frame c).0 long,
            ))
        | inr short ↦
            let below : duration_of env frames < c.config.max_chunk =
              omega (arith, leb→lt _ _ short, longest, d) in
            elim (Bool-cases (spoken env b)) [
              | inl split ↦
                  let (s, q) =
                    and_cases (leb b.config.min_speech_before_silence_split b.speech_duration)
                      (leb b.config.silence_split_after b.trailing_silence) split in
                  inr (
                    inr (
                      due silence_after_speech ((push_branch frame c).1 short split),
                      below,
                      omega (arith, leb→le _ _ s, speech_least),
                      omega (arith, leb→le _ _ q, silence_least),
                      (push_branch frame c).1 short split,
                    ))
              | inr going ↦
                  let e = (push_branch frame c).2 short going in
                  inl (
                    ap (λ x. x.1) e,
                    ap (λ x. x.0.pending) e ∙ p,
                    subst (λ x. IsWellFormed env x.0) (sym e)
                        (record {
                          counted = d ∙ ap (duration_of env) (sym p);
                          started = t ∙ ap first_timestamp (sym p);
                          not_due = inr (short, going);
                        }),
                    below,
                    e,
                    going,
                  )
            ]
      ]

  finish_quiet : (c : Chunker env) → c.pending ≡ [] → finish env c ≡ (c, none)
  unfolding finish
  finish_quiet c h = on c.pending h
    where
      on :
          (l : List AudioFrame)
          → l ≡ []
          → (elim l as (λ _. Chunker env × Option EmittedChunk) [
            | [] ↦ (c, none)
            | _ ∷ _ ↦ flush env end_of_stream c
          ])
            ≡ (c, none)
      on [] e = refl
      on (x ∷ l) e = cc

  finish-flush :
      (c : Chunker env) (x : AudioFrame) (l : List AudioFrame)
      → c.pending ≡ x ∷ l
      → finish env c ≡ flush env end_of_stream c
  unfolding finish
  finish-flush c x l h = on c.pending h
    where
      on :
          (k : List AudioFrame)
          → k ≡ x ∷ l
          → (elim k as (λ _. Chunker env × Option EmittedChunk) [
            | [] ↦ (c, none)
            | _ ∷ _ ↦ flush env end_of_stream c
          ])
            ≡ flush env end_of_stream c
      on [] e = cc
      on (x ∷ l) e = refl

  -- Finishing sends all that is buffered as one chunk, marked as the end of the stream, with its own
  -- start, duration and source, and sends nothing where nothing is buffered; either way nothing stays
  -- buffered, and so finishing again sends nothing.
  pub finish-Flushes :
      (c : Chunker env)
      → IsWellFormed env c
      → (((c.pending ≡ []) × (finish env c ≡ (c, none)))
          ⊎ Flushes env c.pending end_of_stream c (finish env c))
        × ((finish env (finish env c).0).1 ≡ none)
  finish-Flushes c w = whole c.pending refl
    where
      emitted :
          (after : Chunker env × Option EmittedChunk) (x : AudioFrame) (l : List AudioFrame)
          → finish env c ≡ after
          → Flushes env (x ∷ l) end_of_stream c after
          → c.pending ≡ x ∷ l
          → (((c.pending ≡ []) × (finish env c ≡ (c, none)))
              ⊎ Flushes env c.pending end_of_stream c (finish env c))
            × ((finish env (finish env c).0).1 ≡ none)
      emitted after x l e f h = (
        inr (
            subst (λ y. Flushes env c.pending end_of_stream c y) (sym e)
              (subst (λ y. Flushes env y end_of_stream c after) (sym h) f)),
        ap (λ y. (finish env y.0).1) e ∙ ap (λ y. y.1) (finish_quiet after.0 f.0),
      )

      whole :
          (l : List AudioFrame)
          → c.pending ≡ l
          → (((c.pending ≡ []) × (finish env c ≡ (c, none)))
              ⊎ Flushes env c.pending end_of_stream c (finish env c))
            × ((finish env (finish env c).0).1 ≡ none)
      whole [] h =
          let e = finish_quiet c h in (inl (h, e), ap (λ y. (finish env y.0).1) e ∙ ap (λ y. y.1) e)
      whole (x ∷ l) h =
          emitted (flush env end_of_stream c) x l (finish-flush c x l h)
            (flush-Flushes env end_of_stream x l c h (w.counted ∙ ap (duration_of env) h)
              (w.started ∙ ap first_timestamp h))
            h
