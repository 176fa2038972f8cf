-- ===== src/Notes/MapReduce/Returns.antt =====
-- A run whose reduction fits ends with notes, however many of its map requests fail.
use scrybe.Common.{ℕ, ◌≡◌, refl, ap, ◌∙◌, true, false, All, Bool, Option, none, some, List, [], ◌∷◌}
use scrybe.Common.Results.{Result, ok, err}
use scrybe.Errors.{ConfigError, CoreError, LlmError, llm}
use scrybe.Text.{Text}
use scrybe.Notes.Segments.{TranscriptSegment, SegmentChunk}
use scrybe.Notes.Prompts.{MapGroup, ProcessingGap, render_map_prompt, render_reduce_prompt}
use scrybe.Notes.MapReduce.{
  NotesRun, State, Step, MapReduceOutput, tested_map, map_chunk, map_chunks, capped,
  capped_reduce_prompt, reduce, mapped, map_reduce, last_from,
}

module _ (run : NotesRun) where
  -- the tokenizer counts the chunk's prompt, whether it is above the cap or not
  abbrev pub IsTested : SegmentChunk → Type 0
  IsTested chunk =
      (fits : Bool) × (run.prompt_fits (render_map_prompt chunk.overlap chunk.segments) ≡ ok fits)

  tested_map-goes :
      (start end : ℕ) (prompt : Text) (state : State run) (r : Result ConfigError Bool)
      (fits : Bool)
      → r ≡ ok fits
      → (tested_map run start end prompt state r).1 ≡ none
  unfolding tested_map
  tested_map-goes start end prompt (groups, gaps, sent) r true e =
      ap (λ x. (tested_map run start end prompt (groups, gaps, sent) x).1) e
  tested_map-goes start end prompt (groups, gaps, sent) r false e =
      ap (λ x. (tested_map run start end prompt (groups, gaps, sent) x).1) e

  map_chunk-goes :
      (overlap segments : List TranscriptSegment) (state : State run) (fits : Bool)
      → run.prompt_fits (render_map_prompt overlap segments) ≡ ok fits
      → (map_chunk run overlap segments state).1 ≡ none
  unfolding map_chunk
  map_chunk-goes overlap [] state fits e = refl
  map_chunk-goes overlap (first ∷ rest) state fits e =
      tested_map-goes first.ordinal (last_from first rest).ordinal _ state _ fits e

  map_chunks-goes :
      (chunks : List SegmentChunk) (state : State run)
      → All IsTested chunks
      → (map_chunks run chunks state).1 ≡ none
  unfolding map_chunks
  map_chunks-goes [] state h = refl
  map_chunks-goes (chunk ∷ rest) state h =
      let (next, stop) = map_chunk run chunk.overlap chunk.segments state in
      ap
        (λ (o : Option ConfigError).
          (elim o as (λ _. Step run) [
            | some e ↦ (next, some e)
            | none ↦ map_chunks run rest next
          ]).1)
        (map_chunk-goes chunk.overlap chunk.segments state h.0.0 h.0.1)
      ∙ map_chunks-goes rest next h.1

  -- the prompt of the reduction is within the cap, and the model answers it
  abbrev pub Answers : State run → Type 0
  Answers (groups, gaps, sent) =
      let prompt = render_reduce_prompt run.context groups gaps in
      (run.prompt_fits prompt ≡ ok true) × ((notes : Text) × (run.complete sent prompt ≡ ok notes))

  capped_reduce_prompt-fits :
      (groups : List MapGroup) (gaps : List ProcessingGap)
      → run.prompt_fits (render_reduce_prompt run.context groups gaps) ≡ ok true
      → capped_reduce_prompt run groups gaps
        ≡ ok (render_reduce_prompt run.context groups gaps, groups)
  unfolding capped_reduce_prompt capped
  capped_reduce_prompt-fits groups gaps fits =
      ap (capped run (render_reduce_prompt run.context groups gaps) groups gaps) fits

  reduce-returns :
      (groups : List MapGroup) (gaps : List ProcessingGap) (sent : List Text)
      → Answers (groups, gaps, sent)
      → (output : MapReduceOutput) × ((reduce run gaps sent
            (capped_reduce_prompt run groups gaps)).0
          ≡ ok output)
  unfolding reduce
  reduce-returns groups gaps sent (fits, (notes, answered)) = (
    record { groups = groups; gaps = gaps; reduced_notes = notes },
    ap (λ r. (reduce run gaps sent r).0) (capped_reduce_prompt-fits groups gaps fits)
        ∙ ap
            (λ (a : Result LlmError Text).
              (elim a as (λ _. Result CoreError MapReduceOutput × List Text) [
                | err e ↦ (err (llm e), render_reduce_prompt run.context groups gaps ∷ sent)
                | ok notes ↦ (
                  ok (record { groups = groups; gaps = gaps; reduced_notes = notes }),
                  render_reduce_prompt run.context groups gaps ∷ sent,
                )
              ]).0)
            answered,
  )

  mapped-returns :
      (step : Step run)
      → step.1 ≡ none
      → Answers step.0
      → (output : MapReduceOutput) × ((mapped run step).0 ≡ ok output)
  unfolding mapped
  mapped-returns ((groups, gaps, sent), none) e a = reduce-returns groups gaps sent a
  mapped-returns ((groups, gaps, sent), some stop) e a = absurd cc

  -- A run whose prompts are counted, and whose reduction is within the cap and answered, returns an
  -- output, whatever becomes of its map requests.
  pub map_reduce-returns :
      (chunks : List SegmentChunk)
      → All IsTested chunks
      → Answers (map_chunks run chunks ([], [], [])).0
      → (output : MapReduceOutput) × ((map_reduce run chunks).0 ≡ ok output)
  unfolding map_reduce
  map_reduce-returns chunks tested answers =
      mapped-returns _ (map_chunks-goes chunks ([], [], []) tested) answers
