-- ===== src/Session/Notes/Quiet.antt =====
-- What of the writing of the notes leaves both files as they are.
use scrybe.Common.{ℕ, refl, Option, none, some, List}
use scrybe.Common.Results.{Result}
use scrybe.Common.Action.{Keeps, Keeps-bind, Keeps-pure, Keeps-raise, Keeps-if}
use scrybe.Errors.{CoreError}
use scrybe.Text.{Text}
use scrybe.Types.{MeetingContext}
use scrybe.Notes.Segments.{SegmentChunk}
use scrybe.Notes.MapReduce.{MapReduceOutput}
use scrybe.Notes.Runtime.{NotesRuntime}
use scrybe.Session.State.{SessionProgress}
use scrybe.Session.Notes.{
  NotesEnv, NotesState, attempt, ask_llm, report, lift, run_map_reduce, map_transcript,
  check_title_request, cleaned, choose_title, notes_body,
}

module _ (env : NotesEnv) where
  -- the two files
  abbrev pub files : NotesState env → Text × Option Text
  files s = (s.transcript, s.notes)

  pub attempt-Keeps : Keeps files (attempt env)
  unfolding attempt
  attempt-Keeps = record { same = λ s. refl }

  pub ask_llm-Keeps : (prompt : Text) → Keeps files (ask_llm env prompt)
  unfolding ask_llm
  ask_llm-Keeps prompt = record { same = λ s. refl }

  pub report-Keeps : (progress : SessionProgress) → Keeps files (report env progress)
  report-Keeps progress = record { same = λ s. refl }

  pub lift-Keeps : {A : Type 0} (r : Result CoreError A) → Keeps files (lift env r)
  unfolding lift
  lift-Keeps r = record { same = λ s. refl }

  run_map_reduce-Keeps :
      (runtime : NotesRuntime) (context : MeetingContext) (chunks : List SegmentChunk)
      → Keeps files (run_map_reduce env runtime context chunks)
  unfolding run_map_reduce
  run_map_reduce-Keeps runtime context chunks = record { same = λ s. refl }

  pub map_transcript-Keeps :
      (runtime : Option NotesRuntime) (context : MeetingContext) (body : Text)
      → Keeps files (map_transcript env runtime context body)
  unfolding map_transcript
  map_transcript-Keeps none context body = Keeps-pure none
  map_transcript-Keeps (some runtime) context body = Keeps-bind _ _ (lift-Keeps _) λ segments.
      Keeps-bind _ _ (lift-Keeps _) λ counts.
        Keeps-bind _ _ (report-Keeps _)
          λ _. Keeps-bind _ _ (run_map_reduce-Keeps runtime context _) λ output. Keeps-pure _

  cleaned-Keeps : (title : Option Text) → Keeps files (cleaned env title)
  unfolding cleaned
  cleaned-Keeps none = Keeps-raise _
  cleaned-Keeps (some title) = Keeps-pure title

  pub check_title_request-Keeps :
      (runtime : Option NotesRuntime) (prompt : Text)
      → Keeps files (check_title_request env runtime prompt)
  unfolding check_title_request
  check_title_request-Keeps none prompt = Keeps-pure tt
  check_title_request-Keeps (some runtime) prompt =
      Keeps-bind _ _ (lift-Keeps _) λ fits. Keeps-if fits _ _ (Keeps-pure tt) (Keeps-raise _)

  pub choose_title-Keeps :
      (runtime : Option NotesRuntime) (title : Option Text) (source : Text)
      → Keeps files (choose_title env runtime title source)
  unfolding choose_title
  choose_title-Keeps runtime (some existing) source = Keeps-pure existing
  choose_title-Keeps runtime none source =
      Keeps-bind _ _ (check_title_request-Keeps runtime _)
        λ _. Keeps-bind _ _ (ask_llm-Keeps _) λ raw. cleaned-Keeps _

  pub notes_body-Keeps :
      (started_at : ℕ) (final_title : Text) (context : MeetingContext) (body : Text)
      (output : Option MapReduceOutput)
      → Keeps files (notes_body env started_at final_title context body output)
  unfolding notes_body
  notes_body-Keeps started_at final_title context body none =
      Keeps-bind _ _ (report-Keeps _) λ _. Keeps-bind _ _ (ask_llm-Keeps _) λ answer. Keeps-pure _
  notes_body-Keeps started_at final_title context body (some output) = Keeps-pure _
