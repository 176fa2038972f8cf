-- ===== src/Notes/MapReduce/Cap.antt =====
-- No prompt above the input cap is sent.
use scrybe.Common.{
  ℕ, ◌≡◌, refl, ◌⊎◌, ◌≤◌, inl, inr, Bool, true, false, Option, none, some, List, [], ◌∷◌, All, ltb,
  length, Bool-cases, arith,
}
use scrybe.Common.Action.{Result, ok, err}
use scrybe.Text.{Text}
use scrybe.Errors.{ConfigError, LlmError, CoreError, llm}
use scrybe.Notes.Segments.{TranscriptSegment, SegmentChunk}
use scrybe.Notes.Prompts.{MapGroup, ProcessingGap}
use scrybe.Notes.MapReduce.{
  NotesRun, State, Step, MapReduceOutput, sent_map, tested_map, map_chunk, map_chunks, capped,
  shrink, compacted, compact, capped_reduce_prompt, reduce, mapped, map_reduce, last_from,
}

module _ (run : NotesRun) where
  abbrev pub PromptFits : Text → Type 0
  PromptFits prompt = run.prompt_fits prompt ≡ ok true

  sent_of : Step run → List Text
  sent_of ((groups, gaps, sent), stop) = sent

  tested_map-fits :
      (start end : ℕ) (prompt : Text) (state : State run) (r : Result ConfigError Bool)
      → run.prompt_fits prompt ≡ r
      → All PromptFits state.2
      → All PromptFits (sent_of (tested_map run start end prompt state r))
  unfolding tested_map sent_map sent_of
  tested_map-fits start end prompt (groups, gaps, sent) (err e) q h = h
  tested_map-fits start end prompt (groups, gaps, sent) (ok false) q h = h
  tested_map-fits start end prompt (groups, gaps, sent) (ok true) q h =
      on (run.complete sent prompt)
    where
      on :
          (a : Result LlmError Text)
          → All PromptFits (sent_map run start end prompt (groups, gaps, sent) a).2
      on (ok bullets) = (q, h)
      on (err e) = (q, h)

  map_chunk-fits :
      (overlap segments : List TranscriptSegment) (state : State run)
      → All PromptFits state.2
      → All PromptFits (sent_of (map_chunk run overlap segments state))
  unfolding map_chunk sent_of
  map_chunk-fits overlap [] (groups, gaps, sent) h = h
  map_chunk-fits overlap (first ∷ rest) state h =
      tested_map-fits first.ordinal (last_from first rest).ordinal _ state _ refl h

  map_chunks-fits :
      (chunks : List SegmentChunk) (state : State run)
      → All PromptFits state.2
      → All PromptFits (sent_of (map_chunks run chunks state))
  unfolding map_chunks sent_of
  map_chunks-fits [] (groups, gaps, sent) h = h
  map_chunks-fits (chunk ∷ rest) state h =
      let step = map_chunk run chunk.overlap chunk.segments state in
      let here = map_chunk-fits chunk.overlap chunk.segments state h in
      on step.1 here (map_chunks-fits rest step.0 here)
    where
      next : State run
      next = (map_chunk run chunk.overlap chunk.segments state).0

      on :
          (stop : Option ConfigError)
          → All PromptFits next.2
          → All PromptFits (sent_of (map_chunks run rest next))
          → All PromptFits (
              sent_of (elim stop as (λ _. Step run) [
                | some e ↦ (next, some e)
                | none ↦ map_chunks run rest next
              ]))
      on (some e) here later = here
      on none here later = later

  -- what a capped reduction request is made of
  abbrev pub IsCapped : List MapGroup → Result ConfigError (Text × List MapGroup) → Type 0
  IsCapped groups (err e) = Unit
  IsCapped groups (ok (prompt, kept)) =
      PromptFits prompt
      × ((kept ≡ groups)
          ⊎ ((first : MapGroup) × (rest : List MapGroup) × (groups ≡ first ∷ rest)
              × (3 ≤ length groups)
              × (kept ≡ compact run first rest)))

  compacted-IsCapped :
      (first : MapGroup) (rest : List MapGroup) (prompt : Text) (r : Result ConfigError Bool)
      → run.prompt_fits prompt ≡ r
      → 3 ≤ length (first ∷ rest)
      → IsCapped (first ∷ rest) (compacted run prompt (compact run first rest) r)
  unfolding compacted
  compacted-IsCapped first rest prompt (err e) q h = tt
  compacted-IsCapped first rest prompt (ok false) q h = tt
  compacted-IsCapped first rest prompt (ok true) q h = (q, inr (first, rest, refl, h, refl))

  shrink-IsCapped :
      (groups : List MapGroup) (gaps : List ProcessingGap)
      → IsCapped groups (shrink run groups gaps)
  unfolding shrink
  shrink-IsCapped [] gaps = tt
  shrink-IsCapped (first ∷ rest) gaps = elim (Bool-cases (ltb (length (first ∷ rest)) 3)) [
    | inl few ↦ rw few tt
    | inr many ↦ rw many (compacted-IsCapped first rest _ _ refl (ground arith))
  ]

  capped-IsCapped :
      (prompt : Text) (groups : List MapGroup) (gaps : List ProcessingGap)
      (r : Result ConfigError Bool)
      → run.prompt_fits prompt ≡ r
      → IsCapped groups (capped run prompt groups gaps r)
  unfolding capped
  capped-IsCapped prompt groups gaps (err e) q = tt
  capped-IsCapped prompt groups gaps (ok true) q = (q, inl refl)
  capped-IsCapped prompt groups gaps (ok false) q = shrink-IsCapped groups gaps

  -- The reduction request, when there is one, is within the cap, and it is made from all the map
  -- groups, or from the first one, the marker and the last one of at least three.
  pub capped_reduce_prompt-IsCapped :
      (groups : List MapGroup) (gaps : List ProcessingGap)
      → IsCapped groups (capped_reduce_prompt run groups gaps)
  unfolding capped_reduce_prompt
  capped_reduce_prompt-IsCapped groups gaps = capped-IsCapped _ groups gaps _ refl

  reduce-fits :
      (gaps : List ProcessingGap) (sent : List Text) (groups : List MapGroup)
      (r : Result ConfigError (Text × List MapGroup))
      → IsCapped groups r
      → All PromptFits sent
      → All PromptFits (reduce run gaps sent r).1
  unfolding reduce
  reduce-fits gaps sent groups (err e) c h = h
  reduce-fits gaps sent groups (ok (prompt, kept)) c h = on (run.complete sent prompt)
    where
      on :
          (a : Result LlmError Text)
          → All PromptFits
              (elim a as (λ _. Result CoreError MapReduceOutput × List Text) [
                | err e ↦ (err (llm e), prompt ∷ sent)
                | ok notes ↦ (
                  ok (record { groups = kept; gaps = gaps; reduced_notes = notes }),
                  prompt ∷ sent,
                )
              ]).1
      on (err e) = (c.0, h)
      on (ok notes) = (c.0, h)

  -- Every prompt that a run sends to the model, also of a run that fails, is one that the tokenizer
  -- has found to be within the input cap.
  pub map_reduce-fits : (chunks : List SegmentChunk) → All PromptFits (map_reduce run chunks).1
  unfolding map_reduce mapped sent_of
  map_reduce-fits chunks =
      on (map_chunks run chunks ([], [], [])) (map_chunks-fits chunks ([], [], []) tt)
    where
      on : (step : Step run) → All PromptFits (sent_of step) → All PromptFits (mapped run step).1
      on ((groups, gaps, sent), some e) h = h
      on ((groups, gaps, sent), none) h =
          reduce-fits gaps sent groups _ (capped_reduce_prompt-IsCapped groups gaps) h
