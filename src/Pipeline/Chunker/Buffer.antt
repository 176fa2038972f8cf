-- ===== src/Pipeline/Chunker/Buffer.antt =====
-- What the counters of a chunker say of its buffered frames, and what a flush makes of them.
use scrybe.Common.{
  ℕ, ◌+◌, ◌≡◌, refl, sym, ap, ◌∙◌, ◌⊎◌, inl, false, Option, none, some, List, [], ◌∷◌, ◌++◌, map,
  sum, min, get_or_else, arith,
}
use scrybe.Types.{AudioFrame}
use scrybe.Pipeline.Chunker.{
  Listening, Chunker, EmittedChunk, ChunkBoundary, VadDecision, speech, silence, duration_max,
  frame_duration, flush, buffer, too_long, spoken, hear, start_at,
}

-- a chunk starts with its first frame
abbrev pub start_of : List AudioFrame → ℕ
start_of [] = 0
start_of (frame ∷ _) = frame.timestamp_ns

abbrev pub first_timestamp : List AudioFrame → Option ℕ
first_timestamp [] = none
first_timestamp (frame ∷ _) = some frame.timestamp_ns

first_timestamp-append :
    (frames : List AudioFrame) (frame : AudioFrame)
    → first_timestamp (frames ++ frame ∷ []) ≡ start_at frame.timestamp_ns (first_timestamp frames)
unfolding start_at
first_timestamp-append [] frame = refl
first_timestamp-append (_ ∷ _) frame = refl

module _ (env : Listening) where
  -- the time that frames take, up to the longest duration there is
  abbrev pub duration_of : List AudioFrame → ℕ
  duration_of frames = min (sum (map (frame_duration env) frames)) duration_max

  -- the counters describe the buffered frames, and what is buffered is not yet due
  pub record IsWellFormed (c : Chunker env) : Type 0 where
    pub counted : c.pending_duration ≡ duration_of c.pending
    pub started : c.chunk_start ≡ first_timestamp c.pending
    pub not_due : (c.pending ≡ []) ⊎ ((too_long env c ≡ false) × (spoken env c ≡ false))

  -- the chunk is the frames, with their own start and duration
  pub record IsChunkOf (frames : List AudioFrame) (chunk : EmittedChunk) : Type 0 where
    pub frames_same : chunk.frames ≡ frames
    pub start_same : chunk.start ≡ start_of frames
    pub duration_same : chunk.duration ≡ duration_of frames

  duration_of-append :
      (frames : List AudioFrame) (frame : AudioFrame)
      → duration_of (frames ++ frame ∷ [])
        ≡ min (duration_of frames + frame_duration env frame) duration_max
  duration_of-append [] frame = omega arith
  duration_of-append (x ∷ frames) frame =
      omega (arith, duration_of-append frames frame, sums frames)
    where
      sums :
          (l : List AudioFrame)
          → sum (map (frame_duration env) (l ++ frame ∷ []))
            ≡ sum (map (frame_duration env) l) + frame_duration env frame
      sums [] = omega arith
      sums (y ∷ l) = omega (arith, sums l)

  hear_keeps :
      (v : VadDecision) (d : ℕ) (c : Chunker env)
      → ((hear env v d c).pending ≡ c.pending)
        × ((hear env v d c).pending_duration ≡ c.pending_duration)
        × ((hear env v d c).chunk_start ≡ c.chunk_start)
        × ((hear env v d c).config ≡ c.config)
        × ((hear env v d c).source ≡ c.source)
  unfolding hear
  hear_keeps speech d c = (refl, refl, refl, refl, refl)
  hear_keeps silence d c = (refl, refl, refl, refl, refl)

  pub buffer_counts :
      (frame : AudioFrame) (c : Chunker env)
      → IsWellFormed c
      → ((buffer env frame c).pending ≡ c.pending ++ frame ∷ [])
        × ((buffer env frame c).pending_duration ≡ duration_of (c.pending ++ frame ∷ []))
        × ((buffer env frame c).chunk_start ≡ first_timestamp (c.pending ++ frame ∷ []))
        × ((buffer env frame c).config ≡ c.config)
        × ((buffer env frame c).source ≡ c.source)
  unfolding buffer
  buffer_counts frame c w =
      let d = frame_duration env frame in
      let c1 : Chunker env = record c {
        vad = (env.decide c.vad frame).0;
        chunk_start = start_at frame.timestamp_ns c.chunk_start;
      } in
      let (same, time, start, config, source) = hear_keeps (env.decide c.vad frame).1 d c1 in
      (
        ap (λ l. l ++ frame ∷ []) same,
        ap (λ t. min (t + d) duration_max) (time ∙ w.counted)
            ∙ sym (duration_of-append c.pending frame),
        start
            ∙ ap (start_at frame.timestamp_ns) w.started
            ∙ sym (first_timestamp-append c.pending frame),
        config,
        source,
      )

  -- the chunk that a flush gives, and the emptied chunker
  abbrev pub Flushes :
      List AudioFrame → ChunkBoundary → Chunker env → Chunker env × Option EmittedChunk → Type 0
  Flushes frames boundary c after =
      (after.0.pending ≡ [])
      × IsWellFormed after.0
      × ((chunk : EmittedChunk) × (after.1 ≡ some chunk)
          × IsChunkOf frames chunk
          × (chunk.source ≡ c.source)
          × (chunk.ended_on ≡ boundary))

  pub flush-Flushes :
      (boundary : ChunkBoundary) (first : AudioFrame) (rest : List AudioFrame) (c : Chunker env)
      → c.pending ≡ first ∷ rest
      → c.pending_duration ≡ duration_of (first ∷ rest)
      → c.chunk_start ≡ first_timestamp (first ∷ rest)
      → Flushes (first ∷ rest) boundary c (flush env boundary c)
  unfolding flush
  flush-Flushes boundary first rest c p d t = rw p (
    refl,
    record { counted = refl; started = refl; not_due = inl refl },
    (
      _,
      refl,
      record { frames_same = refl; start_same = ap (λ o. get_or_else o 0) t; duration_same = d },
      refl,
      refl,
    ),
  )

  pub append-Flushes :
      (boundary : ChunkBoundary) (frames : List AudioFrame) (frame : AudioFrame) (c : Chunker env)
      → c.pending ≡ frames ++ frame ∷ []
      → c.pending_duration ≡ duration_of (frames ++ frame ∷ [])
      → c.chunk_start ≡ first_timestamp (frames ++ frame ∷ [])
      → Flushes (frames ++ frame ∷ []) boundary c (flush env boundary c)
  append-Flushes boundary [] frame c p d t = flush-Flushes boundary frame [] c p d t
  append-Flushes boundary (x ∷ frames) frame c p d t =
      flush-Flushes boundary x (frames ++ frame ∷ []) c p d t
