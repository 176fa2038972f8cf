-- ===== src/Pipeline/Chunker/Heard.antt =====
-- A split on silence, by what the voice detector said of each of the buffered frames.
use scrybe.Common.{
  ℕ, ◌+◌, ◌<◌, ◌≤◌, ◌≡◌, refl, sym, ap, ◌∙◌, ◌⊎◌, inl, inr, Bool, true, false, none, List, [], ◌∷◌,
  ◌++◌, min, if◌then◌else◌, Bool-cases, arith,
}
use mathlib.Core.Path.{subst}
use scrybe.Types.{AudioFrame}
use scrybe.Pipeline.Chunker.{
  Listening, Chunker, ChunkBoundary, ChunkerConfig, VadDecision, speech, silence, duration_max,
  max_duration, silence_after_speech, frame_duration, flush, buffer, spoken, hear, start_at, push,
}
use scrybe.Pipeline.Chunker.Buffer.{duration_of, IsWellFormed, Flushes, buffer_counts}
use scrybe.Pipeline.Chunker.Splits.{push-PushResult}

-- one frame's decision and duration
abbrev pub Decision : Type 0
Decision = VadDecision × ℕ

-- the time of the frames that were heard as speech
abbrev pub speech_time : List Decision → ℕ
speech_time [] = 0
speech_time ((speech, d) ∷ rest) = d + speech_time rest
speech_time ((silence, d) ∷ rest) = speech_time rest

abbrev pub has_speech : List Decision → Bool
has_speech [] = false
has_speech ((speech, d) ∷ rest) = true
has_speech ((silence, d) ∷ rest) = has_speech rest

-- the time of the frames behind the last one that was heard as speech
abbrev pub silence_time : List Decision → ℕ
silence_time [] = 0
silence_time ((speech, d) ∷ rest) = silence_time rest
silence_time ((silence, d) ∷ rest) =
    let later = silence_time rest in if has_speech rest then later else d + later

speech_time-speech :
    (l : List Decision) (d : ℕ) → speech_time (l ++ (speech, d) ∷ []) ≡ speech_time l + d
speech_time-speech [] d = omega arith
speech_time-speech ((speech, e) ∷ l) d = omega (arith, speech_time-speech l d)
speech_time-speech ((silence, e) ∷ l) d = speech_time-speech l d

speech_time-silence :
    (l : List Decision) (d : ℕ) → speech_time (l ++ (silence, d) ∷ []) ≡ speech_time l
speech_time-silence [] d = refl
speech_time-silence ((speech, e) ∷ l) d = ap (λ t. e + t) (speech_time-silence l d)
speech_time-silence ((silence, e) ∷ l) d = speech_time-silence l d

has_speech-speech : (l : List Decision) (d : ℕ) → has_speech (l ++ (speech, d) ∷ []) ≡ true
has_speech-speech [] d = refl
has_speech-speech ((speech, e) ∷ l) d = refl
has_speech-speech ((silence, e) ∷ l) d = has_speech-speech l d

has_speech-silence :
    (l : List Decision) (d : ℕ) → has_speech (l ++ (silence, d) ∷ []) ≡ has_speech l
has_speech-silence [] d = refl
has_speech-silence ((speech, e) ∷ l) d = refl
has_speech-silence ((silence, e) ∷ l) d = has_speech-silence l d

silence_time-speech : (l : List Decision) (d : ℕ) → silence_time (l ++ (speech, d) ∷ []) ≡ 0
silence_time-speech [] d = refl
silence_time-speech ((speech, e) ∷ l) d = silence_time-speech l d
silence_time-speech ((silence, e) ∷ l) d = rw (has_speech-speech l d) (silence_time-speech l d)

silence_time-silence :
    (l : List Decision) (d : ℕ) → silence_time (l ++ (silence, d) ∷ []) ≡ silence_time l + d
silence_time-silence [] d = omega arith
silence_time-silence ((speech, e) ∷ l) d = silence_time-silence l d
silence_time-silence ((silence, e) ∷ l) d = elim (Bool-cases (has_speech l)) [
  | inl h ↦ rw (has_speech-silence l d, h) (silence_time-silence l d)
  | inr h ↦ rw (has_speech-silence l d, h) (omega (arith, silence_time-silence l d))
]

module _ (env : Listening) where
  -- what the detector says of the frames, one after the other
  abbrev pub decisions : env.Vad → List AudioFrame → List Decision
  decisions vad [] = []
  decisions vad (frame ∷ rest) =
      ((env.decide vad frame).1, frame_duration env frame) ∷ decisions (env.decide vad frame).0 rest

  abbrev pub vad_after : env.Vad → List AudioFrame → env.Vad
  vad_after vad [] = vad
  vad_after vad (frame ∷ rest) = vad_after (env.decide vad frame).0 rest

  -- durations saturate
  abbrev pub heard_speech : env.Vad → List AudioFrame → ℕ
  heard_speech vad frames = min (speech_time (decisions vad frames)) duration_max

  abbrev pub heard_silence : env.Vad → List AudioFrame → ℕ
  heard_silence vad frames = min (silence_time (decisions vad frames)) duration_max

  decisions-append :
      (vad : env.Vad) (l : List AudioFrame) (frame : AudioFrame)
      → decisions vad (l ++ frame ∷ [])
        ≡ decisions vad l ++ ((env.decide (vad_after vad l) frame).1, frame_duration env frame) ∷ []
  decisions-append vad [] frame = refl
  decisions-append vad (x ∷ l) frame =
      ap (λ r. ((env.decide vad x).1, frame_duration env x) ∷ r)
        (decisions-append (env.decide vad x).0 l frame)

  vad_after-append :
      (vad : env.Vad) (l : List AudioFrame) (frame : AudioFrame)
      → vad_after vad (l ++ frame ∷ []) ≡ (env.decide (vad_after vad l) frame).0
  vad_after-append vad [] frame = refl
  vad_after-append vad (x ∷ l) frame = vad_after-append (env.decide vad x).0 l frame

  -- the counters, for a detector that was in this state at the first of the frames
  pub record Heard (vad : env.Vad) (frames : List AudioFrame) (c : Chunker env) : Type 0 where
    pub listened : c.vad ≡ vad_after vad frames
    pub speech_counted : c.speech_duration ≡ heard_speech vad frames
    pub silence_counted : c.trailing_silence ≡ heard_silence vad frames

  hear-counts :
      (v : VadDecision) (d : ℕ) (l : List Decision) (c : Chunker env)
      → c.speech_duration ≡ min (speech_time l) duration_max
      → c.trailing_silence ≡ min (silence_time l) duration_max
      → ((hear env v d c).speech_duration ≡ min (speech_time (l ++ (v, d) ∷ [])) duration_max)
        × ((hear env v d c).trailing_silence ≡ min (silence_time (l ++ (v, d) ∷ [])) duration_max)
        × ((hear env v d c).vad ≡ c.vad)
  unfolding hear
  hear-counts speech d l c s q =
      (omega (arith, s, speech_time-speech l d), omega (arith, silence_time-speech l d), refl)
  hear-counts silence d l c s q =
      (omega (arith, s, speech_time-silence l d), omega (arith, q, silence_time-silence l d), refl)

  buffer-Heard :
      (vad : env.Vad) (frame : AudioFrame) (c : Chunker env)
      → Heard vad c.pending c
      → Heard vad (c.pending ++ frame ∷ []) (buffer env frame c)
  unfolding buffer
  buffer-Heard vad frame c h =
      let l = decisions vad c.pending in
      let d = frame_duration env frame in
      let v = (env.decide c.vad frame).1 in
      let c1 : Chunker env = record c {
        vad = (env.decide c.vad frame).0;
        chunk_start = start_at frame.timestamp_ns c.chunk_start;
      } in
      let (said, quiet, kept) = hear-counts v d l c1 h.speech_counted h.silence_counted in
      let same : l ++ (v, d) ∷ [] ≡ decisions vad (c.pending ++ frame ∷ []) =
        ap (λ x. l ++ ((env.decide x frame).1, d) ∷ []) h.listened
        ∙ sym (decisions-append vad c.pending frame) in
      record {
        listened =
            kept
            ∙ ap (λ x. (env.decide x frame).0) h.listened
            ∙ sym (vad_after-append vad c.pending frame);
        speech_counted = said ∙ ap (λ x. min (speech_time x) duration_max) same;
        silence_counted = quiet ∙ ap (λ x. min (silence_time x) duration_max) same;
      }

  -- an emptied chunker goes on with the detector as it is
  flush-Heard :
      (boundary : ChunkBoundary) (first : AudioFrame) (rest : List AudioFrame) (c : Chunker env)
      → c.pending ≡ first ∷ rest
      → Heard c.vad [] (flush env boundary c).0
  unfolding flush
  flush-Heard boundary first rest c p =
      rw p (record { listened = refl; speech_counted = refl; silence_counted = refl })

  append-Heard :
      (boundary : ChunkBoundary) (frames : List AudioFrame) (frame : AudioFrame) (c : Chunker env)
      → c.pending ≡ frames ++ frame ∷ []
      → Heard c.vad [] (flush env boundary c).0
  append-Heard boundary [] frame c p = flush-Heard boundary frame [] c p
  append-Heard boundary (x ∷ frames) frame c p = flush-Heard boundary x (frames ++ frame ∷ []) c p

  -- speech and the silence behind it have both lasted long enough
  abbrev pub IsSilenceSplit : ChunkerConfig → env.Vad → List AudioFrame → Type 0
  IsSilenceSplit config vad frames =
      (config.min_speech_before_silence_split ≤ heard_speech vad frames)
      × (config.silence_split_after ≤ heard_silence vad frames)

  -- the three ways that a frame can end
  abbrev pub Splits : env.Vad → AudioFrame → Chunker env → Type 0
  Splits vad frame c =
      let frames = c.pending ++ frame ∷ [] in
      let after = push env frame c in
      ((after.1 ≡ none)
        × (after.0.pending ≡ frames)
        × IsWellFormed env after.0
        × Heard vad frames after.0
        × (duration_of env frames < c.config.max_chunk)
        × (¬ IsSilenceSplit c.config vad frames))
      ⊎ ((Flushes env frames max_duration c after
            × Heard (vad_after vad frames) [] after.0
            × (c.config.max_chunk ≤ duration_of env frames))
          ⊎ (Flushes env frames silence_after_speech c after
              × Heard (vad_after vad frames) [] after.0
              × (duration_of env frames < c.config.max_chunk)
              × IsSilenceSplit c.config vad frames))

  not_spoken :
      (vad : env.Vad) (frames : List AudioFrame) (b : Chunker env) (config : ChunkerConfig)
      → b.config ≡ config
      → Heard vad frames b
      → spoken env b ≡ false
      → ¬ IsSilenceSplit config vad frames
  not_spoken vad frames b config same h quiet split =
      let speech_least = ap (λ k. k.min_speech_before_silence_split) same in
      let silence_least = ap (λ k. k.silence_split_after) same in
      let said = h.speech_counted in let silent = h.silence_counted in absurd (ground arith)

  emptied :
      (vad : env.Vad) (frame : AudioFrame) (c : Chunker env) (boundary : ChunkBoundary)
      → IsWellFormed env c
      → Heard vad c.pending c
      → push env frame c ≡ flush env boundary (buffer env frame c)
      → Heard (vad_after vad (c.pending ++ frame ∷ [])) [] (push env frame c).0
  emptied vad frame c boundary w h e =
      let b = buffer env frame c in
      subst (λ x. Heard (vad_after vad (c.pending ++ frame ∷ [])) [] x.0) (sym e)
        (subst (λ v. Heard v [] (flush env boundary b).0) (buffer-Heard vad frame c h).listened
          (append-Heard boundary c.pending frame b (buffer_counts env frame c w).0))

  -- Pushing a frame into a well-formed chunker whose counters are those of what the voice detector
  -- said of each buffered frame leaves such a chunker. Either the frame is buffered, no chunk is sent,
  -- the buffer lasts less than the longest chunk, and the frames heard as speech, or the frames behind
  -- the last of them, are too short for a split; or all that is buffered, the frame included, is sent
  -- as one chunk with its own start, duration and source, and the buffer is empty: as of the longest
  -- duration when the frames last that long, and otherwise as of silence, when the frames heard as
  -- speech and the frames behind the last of them both last long enough.
  pub push-Splits :
      (vad : env.Vad) (frame : AudioFrame) (c : Chunker env)
      → IsWellFormed env c
      → Heard vad c.pending c
      → Splits vad frame c
  push-Splits vad frame c w h =
      let frames = c.pending ++ frame ∷ [] in
      let b = buffer env frame c in
      let heard = buffer-Heard vad frame c h in
      let config = (buffer_counts env frame c w).3 in
      elim (push-PushResult env frame c w) [
        | inl (quiet, p, w', below, same, going) ↦ inl (
          quiet,
          p,
          w',
          subst (λ x. Heard vad frames x.0) (sym same) heard,
          below,
          not_spoken vad frames b c.config config heard going,
        )
        | inr (inl (f, long, same)) ↦ inr (inl (f, emptied vad frame c max_duration w h same, long))
        | inr (inr (f, below, said, quiet, same)) ↦ inr (
            inr (
              f,
              emptied vad frame c silence_after_speech w h same,
              below,
              (
                omega (arith, said, heard.speech_counted),
                omega (arith, quiet, heard.silence_counted),
              ),
            ))
      ]
