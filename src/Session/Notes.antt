-- ===== src/Session/Notes.antt =====
-- scrybe-core/src/session.rs: how `drive_session` writes the notes of a session whose finals are all
-- decided: the map requests, the title, the transcript's new header, and notes.md. The storage
-- answers from a state of its own; a read or an atomic replacement that fails has changed nothing.
-- The dates of the chrono crate, what counts as alphanumeric, and the model are parameters.
pub mod Quiet
pub mod Titled
pub mod Mapped
pub mod Covered
pub mod Captured
pub mod Returns
mod Tests
use scrybe.Common.{
  ℕ, ◌≡◌, Bool, Option, none, some, is_some, List, [], ◌∷◌, ◌++◌, length, if◌then◌else◌,
}
use scrybe.Common.Results.{Result, ok, err, map_err}
use scrybe.Common.Action.{Action, pure, raise, gets, modify, ◌>>=◌, ◌>>◌}
use scrybe.Errors.{
  CoreError, config, llm, storage, io, pipeline, invalid, notes_transcript_parse,
  invalid_generated_title,
}
use scrybe.Text.{Text, codes}
use scrybe.Types.{MeetingContext}
use scrybe.Notes.Transcript.{strip_prefix, split_once, behind}
use scrybe.Notes.Document.{Transcript, rejected, accepted, parse_canonical_transcript}
use scrybe.Notes.Segments.{TranscriptSegment, SegmentChunk, pack_segments}
use scrybe.Notes.Prompts.{render_title_prompt, render_notes_prompt}
use scrybe.Notes.Body.{render_transcript_header, render_notes_body, render_notes_body_with_gaps}
use scrybe.Notes.Title.{clean_generated_title}
use scrybe.Notes.MapReduce.{NotesRun, MapReduceOutput, map_reduce}
use scrybe.Notes.Runtime.{NotesRuntime, prompt_fits}
use scrybe.Notes.Generate.{Model, token_counts, counted}
use scrybe.Session.State.{SessionProgress, generating_notes}

pub record NotesEnv : Type 1 where
  pub Disk : Type 0
  pub fails : Disk → Disk × Bool
  pub model : Model
  pub format : ℕ → Text
  pub is_alphanumeric : ℕ → Bool

unfoldable pub parsed_segments : Transcript → Result CoreError (List TranscriptSegment)
parsed_segments (rejected line reason) = err (pipeline notes_transcript_parse)
parsed_segments (accepted segments) = ok segments

module _ (env : NotesEnv) where
  open env use {Disk}

  -- the two files, the prompts that were sent, the latest first, and what observers were told
  pub record NotesState : Type 0 where
    pub disk : Disk
    pub transcript : Text
    pub notes : Option Text
    pub sent : List Text
    pub told : List SessionProgress

  abbrev pub Writing : Type 0 → Type 0
  Writing A = Action NotesState CoreError A

  -- one operation of the storage
  unfoldable pub attempt : Writing (Unit {0})
  attempt s =
      let (disk, failed) = env.fails s.disk in
      ((if failed then err (storage io) else ok tt), record s { disk = disk })

  unfoldable pub read_transcript : Writing Text
  read_transcript = do attempt; gets (λ s. s.transcript)

  unfoldable pub replace_transcript : Text → Writing (Unit {0})
  replace_transcript text = do attempt; modify (λ s. record s { transcript = text })

  unfoldable pub replace_notes : Text → Writing (Unit {0})
  replace_notes text = do attempt; modify (λ s. record s { notes = some text })

  unfoldable pub ask_llm : Text → Writing Text
  ask_llm prompt s = (map_err llm (env.model s.sent prompt), record s { sent = prompt ∷ s.sent })

  abbrev pub report : SessionProgress → Writing (Unit {0})
  report progress = modify (λ s. record s { told = s.told ++ progress ∷ [] })

  unfoldable pub lift : {A : Type 0} → Result CoreError A → Writing A
  lift r s = (r, s)

  -- the model has seen all that the session sent
  abbrev pub run_with : NotesRuntime → MeetingContext → List Text → NotesRun
  run_with runtime context earlier = record {
    context = context;
    prompt_fits = prompt_fits runtime;
    complete = λ sent prompt. env.model (sent ++ earlier) prompt;
  }

  unfoldable pub run_map_reduce :
      NotesRuntime → MeetingContext → List SegmentChunk → Writing MapReduceOutput
  run_map_reduce runtime context chunks s =
      let (answer, sent) = map_reduce (run_with runtime context s.sent) chunks in
      (answer, record s { sent = sent ++ s.sent })

  unfoldable pub map_transcript :
      Option NotesRuntime → MeetingContext → Text → Writing (Option MapReduceOutput)
  map_transcript none context body = pure none
  map_transcript (some runtime) context body = do
    segments ← lift (parsed_segments (parse_canonical_transcript body))
    counts ← lift (map_err config (token_counts runtime segments))
    let chunks =
        pack_segments runtime.target_tokens runtime.overlap_segments (counted counts) segments
    report (generating_notes (length chunks))
    output ← run_map_reduce runtime context chunks
    pure (some output)

  unfoldable pub check_title_request : Option NotesRuntime → Text → Writing (Unit {0})
  check_title_request none prompt = pure tt
  check_title_request (some runtime) prompt = do
    fits ← lift (map_err config (prompt_fits runtime prompt))
    if fits
        then pure tt
        else raise (config (invalid "notes.input_cap_tokens" "cannot fit the title request"))

  title_source : Text → Option MapReduceOutput → Text
  title_source body none = body
  title_source body (some output) = output.reduced_notes

  unfoldable pub cleaned : Option Text → Writing Text
  cleaned none = raise (pipeline invalid_generated_title)
  cleaned (some title) = pure title

  unfoldable pub choose_title : Option NotesRuntime → Option Text → Text → Writing Text
  choose_title runtime (some existing) source = pure existing
  choose_title runtime none source = do
    let prompt = render_title_prompt source
    check_title_request runtime prompt
    raw ← ask_llm prompt
    cleaned (clean_generated_title env.is_alphanumeric raw)

  unfoldable pub retitle : ℕ → Text → Text → Writing Text
  retitle started_at final_title transcript_body =
      let updated =
        render_transcript_header (some final_title) (env.format started_at) none
        ++ behind (split_once (codes "\n\n") transcript_body) in
      if is_some (strip_prefix (codes "# " ++ final_title ++ codes "\n") transcript_body)
      then pure transcript_body
      else do replace_transcript updated; pure updated

  unfoldable pub notes_body :
      ℕ → Text → MeetingContext → Text → Option MapReduceOutput → Writing Text
  notes_body started_at final_title context transcript_body (some output) = pure (
      render_notes_body_with_gaps (some final_title) (env.format started_at) output.reduced_notes
        output.gaps)
  notes_body started_at final_title context transcript_body none = do
    report (generating_notes 1)
    llm_output ←
        ask_llm (render_notes_prompt transcript_body (record context { title = some final_title }))
    pure (render_notes_body (some final_title) (env.format started_at) llm_output)

  -- the title that the session ends with, from a run's output on
  unfoldable pub write_titled :
      Option NotesRuntime
      → ℕ
      → Option Text
      → MeetingContext
      → Text
      → Option MapReduceOutput
      → Writing Text
  unfolding title_source
  write_titled runtime started_at title context transcript_body output = do
    final_title ← choose_title runtime title (title_source transcript_body output)
    document ← retitle started_at final_title transcript_body
    text ← notes_body started_at final_title context document output
    replace_notes text
    pure final_title

  unfoldable pub write_notes : Option NotesRuntime → ℕ → Option Text → MeetingContext → Writing Text
  write_notes runtime started_at title context = do
    transcript_body ← read_transcript
    output ← map_transcript runtime context transcript_body
    write_titled runtime started_at title context transcript_body output
