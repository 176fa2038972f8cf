-- ===== src/Session/Notes/Captured.antt =====
-- A session from its first frame to its notes.
use scrybe.Common.{◌≡◌, refl, sym, ap, ◌∙◌, Option, List, [], ◌∷◌, ◌++◌, map, All}
use scrybe.Common.Results.{Result}
use scrybe.Common.Action.{Outcome, Outcome-both}
use scrybe.Errors.{CaptureError}
use scrybe.Types.{AudioFrame, MeetingContext}
use scrybe.Notes.Transcript.{render_transcript_line}
use scrybe.Notes.Document.Parsed.{IsPlain, rendered}
use scrybe.Notes.Body.{titled}
use scrybe.Notes.Runtime.{NotesRuntime}
use scrybe.Session.AcceptedFinal.{AcceptedFinal}
use scrybe.Session.State.{Env, SessionState}
use scrybe.Session.Persist.{attributed}
use scrybe.Session.Opening.{DriveInputs, header_of, drive}
use scrybe.Session.Opening.Fresh.{IsNew}
use scrybe.Session.Opening.Whole.{drive-IsWritten}
use scrybe.Session.Heard.{lines_of, told, hook_text}
use scrybe.Session.Notes.{NotesEnv, NotesState, write_notes}
use scrybe.Session.Notes.Titled.{IsOf, write_notes-IsOf}

lines_of-rendered : (fs : List AcceptedFinal) → lines_of fs ≡ rendered (map attributed fs)
lines_of-rendered [] = refl
lines_of-rendered (f ∷ fs) =
    ap (λ l. render_transcript_line (attributed f) ++ l) (lines_of-rendered fs)

-- the state that the notes are written from
abbrev pub handed_over :
    (env : Env) (notes_env : NotesEnv)
    → NotesState notes_env
    → SessionState env
    → NotesState notes_env
handed_over env notes_env t s = record t { transcript = s.transcript }

-- A session with a new folder, of which no one was told a text before, with a title and a start
-- without line breaks, and whose capture returns: whatever fails while its notes are written, and
-- whatever the model answers, transcript.md is then a header, whose title has no line break, and
-- behind it the lines of the chunks that the hooks were told of, each once and in the order in which
-- they were told.
pub drive-write_notes :
    (env : Env) (notes_env : NotesEnv) (inputs : DriveInputs env) (runtime : Option NotesRuntime)
    (context : MeetingContext) (stream : List (Result CaptureError AudioFrame))
    (s : SessionState env) (t : NotesState notes_env)
    → IsNew env s
    → All IsPlain (titled inputs.title)
    → All IsPlain (notes_env.format inputs.started_at)
    → Outcome
        (λ _. Unit)
        (λ _ s'.
          IsOf
            (notes_env.format inputs.started_at)
            (told hook_text s'.notices)
            (write_notes notes_env runtime inputs.started_at inputs.title context
              (handed_over env notes_env t s')).1.transcript)
        (drive env notes_env.format inputs stream s)
drive-write_notes env notes_env inputs runtime context stream s t n p d =
    let header = header_of env notes_env.format inputs in
    Outcome-both (λ _ _. tt)
      (λ _ s' w.
        write_notes-IsOf notes_env runtime inputs.started_at inputs.title context
          (told hook_text s'.notices) (handed_over env notes_env t s') p d
          (w.lines
            ∙ ap (λ l. header ++ l) (lines_of-rendered w.accepted ∙ ap rendered (sym w.hooks))))
      (drive env notes_env.format inputs stream s)
      (drive-IsWritten env notes_env.format inputs stream s n)
