-- ===== src/Notes/MapReduce.antt =====
-- scrybe-core/src/notes_map_reduce.rs: the map requests, their gaps, and the capped reduction. The
-- model is a parameter whose answer may depend on every prompt that it was sent before, and so is
-- the test of a prompt. A run keeps the prompts that it sent, the latest first.
pub mod Units
pub mod Coverage
pub mod Cap
pub mod Returns
use Prim.Native.String.{String}
use scrybe.Common.{
  ℕ, zero, suc, ◌<◌, Bool, true, false, Option, none, some, List, [], ◌∷◌, ◌++◌, ltb, ◌==◌, length,
  if◌then◌else◌,
}
use scrybe.Common.Action.{Result, ok, err}
use scrybe.Text.{Text, codes}
use scrybe.Errors.{
  LlmError, provider_status, retries_exhausted, prompt_rendering, transport, ConfigError, invalid,
  CoreError, config, llm,
}
use scrybe.Types.{MeetingContext}
use scrybe.Notes.Segments.{TranscriptSegment, SegmentChunk}
use scrybe.Notes.Prompts.{MapGroup, ProcessingGap, render_map_prompt, render_reduce_prompt}

-- the stable class that a gap names as its reason
unfoldable pub error_class : LlmError → String
error_class (provider_status _) = "provider-status"
error_class (retries_exhausted _) = "retries-exhausted"
error_class (prompt_rendering _) = "prompt-rendering"
error_class transport = "transport"

unfoldable pub validate_limits : ℕ → ℕ → Result ConfigError Unit
validate_limits target cap =
    if cap == 0
    then err (invalid "notes.input_cap_tokens" "must be greater than zero")
    else if target == 0
    then err (invalid "notes.target_tokens" "must be greater than zero")
    else if ltb cap target
    then err (invalid "notes.target_tokens" "must not exceed notes.input_cap_tokens")
    else ok tt

pub record MapReduceOutput : Type 0 where
  pub groups : List MapGroup
  pub gaps : List ProcessingGap
  pub reduced_notes : Text

-- what a run uses: the meeting's context, the tokenizer's test and the model
pub record NotesRun : Type 0 where
  pub context : MeetingContext
  pub prompt_fits : Text → Result ConfigError Bool
  pub complete : List Text → Text → Result LlmError Text

abbrev pub last_from {ℓ} : {A : Type ℓ} → A → List A → A
last_from a [] = a
last_from a (b ∷ rest) = last_from b rest

module _ (run : NotesRun) where
  open run use {context, prompt_fits, complete}

  abbrev pub State : Type 0
  State = List MapGroup × List ProcessingGap × List Text

  -- what one chunk's test and request make of the state
  sent_map : ℕ → ℕ → Text → State → Result LlmError Text → State
  sent_map start end prompt (groups, gaps, sent) (ok bullets) = (
    groups ++ record { start_ordinal = start; end_ordinal = end; bullets = bullets } ∷ [],
    gaps,
    prompt ∷ sent,
  )
  sent_map start end prompt (groups, gaps, sent) (err e) = (
    groups,
    gaps ++ record { start_ordinal = start; end_ordinal = end; reason = error_class e } ∷ [],
    prompt ∷ sent,
  )

  -- the state that a step leaves, and the error that stops the run there
  abbrev pub Step : Type 0
  Step = State × Option ConfigError

  tested_map : ℕ → ℕ → Text → State → Result ConfigError Bool → Step
  tested_map start end prompt state (err e) = (state, some e)
  tested_map start end prompt (groups, gaps, sent) (ok false) = (
    (
      groups,
      gaps
          ++ record { start_ordinal = start; end_ordinal = end; reason = "input-cap-exceeded" }
            ∷ [],
      sent,
    ),
    none,
  )
  tested_map start end prompt (groups, gaps, sent) (ok true) =
      (sent_map start end prompt (groups, gaps, sent) (complete sent prompt), none)

  unfoldable pub map_chunk : List TranscriptSegment → List TranscriptSegment → State → Step
  unfolding tested_map sent_map error_class
  map_chunk overlap [] state = (state, none)
  map_chunk overlap (first ∷ rest) state =
      let prompt = render_map_prompt overlap (first ∷ rest) in
      tested_map first.ordinal (last_from first rest).ordinal prompt state (prompt_fits prompt)

  unfoldable pub map_chunks : List SegmentChunk → State → Step
  map_chunks [] state = (state, none)
  map_chunks (chunk ∷ rest) state =
      let (next, stop) = map_chunk chunk.overlap chunk.segments state in
      elim stop [ some e ↦ (next, some e) | none ↦ map_chunks rest next ]

  abbrev pub compact : MapGroup → List MapGroup → List MapGroup
  compact first rest =
      first
      ∷ record {
        start_ordinal = 0;
        end_ordinal = 0;
        bullets = codes "[OMITTED MIDDLE MAP GROUPS DUE TO INPUT CAP]";
      }
      ∷ last_from first rest
      ∷ []

  compacted :
      Text → List MapGroup → Result ConfigError Bool → Result ConfigError (Text × List MapGroup)
  compacted prompt groups (err e) = err e
  compacted prompt groups (ok false) = err (
      invalid "notes.input_cap_tokens"
        "cannot fit required reduction scaffolding, gaps, and omitted-middle marker")
  compacted prompt groups (ok true) = ok (prompt, groups)

  -- fewer than three groups leave nothing to omit
  would_drop : ConfigError
  would_drop =
      invalid "notes.input_cap_tokens"
        "cannot fit the reduction prompt without dropping required content"

  shrink : List MapGroup → List ProcessingGap → Result ConfigError (Text × List MapGroup)
  shrink [] gaps = err would_drop
  shrink (first ∷ rest) gaps =
      let groups = compact first rest in
      let prompt = render_reduce_prompt context groups gaps in
      if ltb (length (first ∷ rest)) 3
      then err would_drop
      else compacted prompt groups (prompt_fits prompt)

  capped :
      Text
      → List MapGroup
      → List ProcessingGap
      → Result ConfigError Bool
      → Result ConfigError (Text × List MapGroup)
  capped prompt groups gaps (err e) = err e
  capped prompt groups gaps (ok true) = ok (prompt, groups)
  capped prompt groups gaps (ok false) = shrink groups gaps

  unfoldable pub capped_reduce_prompt :
      List MapGroup → List ProcessingGap → Result ConfigError (Text × List MapGroup)
  unfolding capped shrink compacted would_drop
  capped_reduce_prompt groups gaps =
      let prompt = render_reduce_prompt context groups gaps in
      capped prompt groups gaps (prompt_fits prompt)

  -- the reduction request, and all prompts that were sent
  reduce :
      List ProcessingGap
      → List Text
      → Result ConfigError (Text × List MapGroup)
      → Result CoreError MapReduceOutput × List Text
  reduce gaps sent (err e) = (err (config e), sent)
  reduce gaps sent (ok (prompt, groups)) = elim (complete sent prompt) [
    | err e ↦ (err (llm e), prompt ∷ sent)
    | ok notes ↦
        (ok (record { groups = groups; gaps = gaps; reduced_notes = notes }), prompt ∷ sent)
  ]

  mapped : Step → Result CoreError MapReduceOutput × List Text
  unfolding reduce
  mapped ((groups, gaps, sent), some e) = (err (config e), sent)
  mapped ((groups, gaps, sent), none) = reduce gaps sent (capped_reduce_prompt groups gaps)

  unfoldable pub map_reduce : List SegmentChunk → Result CoreError MapReduceOutput × List Text
  unfolding mapped
  map_reduce chunks = mapped (map_chunks chunks ([], [], []))
