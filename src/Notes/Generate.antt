-- ===== src/Notes/Generate.antt =====
-- scrybe-application/src/sessions/generator.rs: notes from a durable transcript. What the tokenizers
-- and chrono crates do, the building of the provider and its answers are parameters. A run keeps the
-- prompts that it sent, the latest first.
pub mod Prepared
pub mod Covers
pub mod Fits
use Prim.Native.String.{String}
use scrybe.Common.{
  ℕ, ◌-◌, ◌||◌, Option, none, some, List, [], ◌∷◌, get_elem?, get_or_else, ◌==◌, if◌then◌else◌,
}
use mathlib.Core.List.{reverse}
use scrybe.Common.Results.{Result, ok, err, and_then, map_err}
use scrybe.Errors.{ConfigError, LlmError, CoreError}
use scrybe.Text.{Text, codes, text_eq, trim}
use scrybe.Notes.Transcript.{strip_prefix, split_once, Malformed}
use scrybe.Notes.Document.{doc_lines, Transcript, rejected, accepted, parse_canonical_transcript}
use scrybe.Notes.Segments.{TranscriptSegment, SegmentChunk, is_empty, pack_segments}
use scrybe.Notes.Title.{trim_matches}
use scrybe.Notes.Body.{render_notes_body_with_gaps}
use scrybe.Notes.MapReduce.{NotesRun, MapReduceOutput, map_reduce}
use scrybe.Notes.Runtime.{NotesConfig, NotesRuntime, Tokenizer, load, count_tokens, prompt_fits}

abbrev pub Model : Type 0
Model = List Text → Text → Result LlmError Text

pub record Platform : Type 0 where
  pub from_file : Text → Result String Tokenizer
  pub provider : Result LlmError Model
  pub parse_datetime : Text → Option ℕ
  pub format : ℕ → Text
  pub now : ℕ

pub data GenerateError : Type 0 where
  invalid_config : ConfigError → GenerateError
  invalid_transcript : ℕ → Malformed → GenerateError
  no_provider : LlmError → GenerateError
  failed_run : CoreError → GenerateError

chosen_title : Text → Option Text
chosen_title title =
    if is_empty title || text_eq title (codes "Untitled session") then none else some title

first_title : List Text → Option Text
unfolding chosen_title
first_title [] = none
first_title (line ∷ _) = elim (strip_prefix (codes "# ") line) [
  | none ↦ none
  | some title ↦ chosen_title (trim title)
]

unfoldable pub transcript_title : Text → Option Text
unfolding first_title
transcript_title transcript = first_title (doc_lines transcript)

start_part : Text → Option (Text × Text) → Text
start_part value none = value
start_part value (some (start, _)) = start

unfoldable pub transcript_started_at : Platform → Text → Option ℕ
unfolding start_part
transcript_started_at platform transcript = elim (get_elem? (doc_lines transcript) 1) [
  | none ↦ none
  | some line ↦
      let value = trim_matches (λ c. c == 42) line in
      platform.parse_datetime (start_part value (split_once (codes " — ") value))
]

-- `segment.text` of each, up to the first that the tokenizer refuses
unfoldable pub token_counts : NotesRuntime → List TranscriptSegment → Result ConfigError (List ℕ)
token_counts runtime [] = ok []
token_counts runtime (s ∷ rest) =
    and_then (count_tokens runtime s.text)
      (λ n. and_then (token_counts runtime rest) (λ counts. ok (n ∷ counts)))

-- `token_counts[segment.ordinal - 1]`, which is 0 here where the code would panic
unfoldable pub counted : List ℕ → TranscriptSegment → ℕ
counted counts segment = get_or_else (get_elem? counts (segment.ordinal - 1)) 0

unfoldable pub as_segments : Transcript → Result GenerateError (List TranscriptSegment)
as_segments (rejected line reason) = err (invalid_transcript line reason)
as_segments (accepted segments) = ok segments

-- what a run needs: the runtime, the packed transcript and the provider
abbrev pub Prepared : Type 0
Prepared = NotesRuntime × List SegmentChunk × Model

unfoldable pub prepare : Platform → NotesConfig → Text → Result GenerateError Prepared
prepare platform config transcript =
    and_then (map_err invalid_config (load platform.from_file config)) (λ runtime.
      and_then (as_segments (parse_canonical_transcript transcript)) (λ segments.
        and_then (map_err invalid_config (token_counts runtime segments)) (λ counts.
          and_then (map_err no_provider platform.provider) (λ model. ok (
            runtime,
            pack_segments runtime.target_tokens runtime.overlap_segments (counted counts) segments,
            model,
          )))))

-- the meeting's context has only the title
abbrev pub run_of : Option Text → NotesRuntime → Model → NotesRun
run_of title runtime model = record {
  context = record { title = title; attendees = []; agenda = none; language = none };
  prompt_fits = prompt_fits runtime;
  complete = model;
}

-- `or_else` and `unwrap_or_else`
started_at : Platform → Text → Option ℕ → ℕ
started_at platform transcript (some instant) = instant
started_at platform transcript none =
    get_or_else (transcript_started_at platform transcript) platform.now

noted :
    Platform
    → Text
    → Option ℕ
    → Result CoreError MapReduceOutput × List Text
    → Result GenerateError Text × List Text
unfolding started_at
noted platform transcript requested (err e, sent) = (err (failed_run e), sent)
noted platform transcript requested (ok output, sent) = (
  ok (
      render_notes_body_with_gaps (transcript_title transcript)
        (platform.format (started_at platform transcript requested)) output.reduced_notes
        output.gaps),
  sent,
)

requested_notes :
    Platform
    → Text
    → Option ℕ
    → Result GenerateError Prepared
    → Result GenerateError Text × List Text
unfolding noted
requested_notes platform transcript requested (err e) = (err e, [])
requested_notes platform transcript requested (ok (runtime, chunks, model)) =
    noted platform transcript requested
      (map_reduce (run_of (transcript_title transcript) runtime model) chunks)

unfoldable pub generate :
    Platform → NotesConfig → Text → Option ℕ → Result GenerateError Text × List Text
unfolding requested_notes
generate platform config transcript requested =
    requested_notes platform transcript requested (prepare platform config transcript)
