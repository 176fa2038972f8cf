-- ===== src/Session/Notes/Covered.antt =====
-- The notes that a session ends with account for its whole transcript, and a failure writes none.
use scrybe.Common.{ℕ, ◌≡◌, some}
use scrybe.Text.{Text}
use scrybe.Types.{MeetingContext}
use scrybe.Notes.Body.{render_notes_body_with_gaps}
use scrybe.Notes.MapReduce.{MapReduceOutput}
use scrybe.Notes.Runtime.{NotesRuntime}
use scrybe.Session.Notes.{NotesEnv, NotesState}
use scrybe.Session.Notes.Mapped.{IsMapped}

module _ (env : NotesEnv) where
  -- what notes.md says, once it is written, of the transcript that was there before
  abbrev pub IsCovered : NotesRuntime → MeetingContext → ℕ → Text → Text → NotesState env → Type 0
  IsCovered runtime context started_at body final_title s =
      (output : MapReduceOutput) × IsMapped env runtime context body output
      × (s.notes
          ≡ some (
              render_notes_body_with_gaps (some final_title) (env.format started_at)
                output.reduced_notes output.gaps))
