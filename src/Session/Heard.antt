-- ===== src/Session/Heard.antt =====
-- What a session has heard and what it made of it, on the batch path and on the streaming path: the
-- transcript, the hooks and the texts for the diarizer agree.
pub mod Release
pub mod Boundary
use scrybe.Common.{◌≡◌, refl, sym, ap, ◌∙◌, Option, none, some, List, [], ◌∷◌, ◌++◌, map, All}
use mathlib.Core.List.{Perm, append_assoc}
use scrybe.Common.Action.{Keeps}
use scrybe.Text.{Text}
use scrybe.Types.{mic, TranscriptChunk, AttributedChunk}
use scrybe.Notes.Transcript.{render_transcript_line}
use scrybe.Session.AcceptedFinal.{AcceptedFinal, AcceptedFinalBoundary}
use scrybe.Session.AcceptedFinal.Conservation.{finals}
use scrybe.Session.AcceptedFinal.Suppressed.{AreMine}
use scrybe.Session.State.{
  Env, Session, SessionState, Notice, progress, hook, transcript_accepted, chunk_transcribed,
}
use scrybe.Session.View.{view, View}
use scrybe.Session.Persist.{attributed}

-- the state but for the log
pub record Said : Type 0 where
  pub transcript : Text
  pub boundary : AcceptedFinalBoundary
  pub mic_text_chunks : List TranscriptChunk
  pub sys_text_chunks : List TranscriptChunk
  pub notices : List Notice

abbrev pub unlogged : View → Said
unlogged v = record {
  transcript = v.transcript;
  boundary = v.boundary;
  mic_text_chunks = v.mic_text_chunks;
  sys_text_chunks = v.sys_text_chunks;
  notices = v.notices;
}

abbrev pub said : (env : Env) → SessionState env → Said
said env s = unlogged (view env s)

abbrev pub transcript_of : AcceptedFinal → TranscriptChunk
transcript_of f = f.transcript

-- the lines of finals, in order
abbrev pub lines_of : List AcceptedFinal → Text
lines_of [] = []
lines_of (f ∷ fs) = render_transcript_line (attributed f) ++ lines_of fs

abbrev pub hook_text : Notice → List AttributedChunk
hook_text (hook (chunk_transcribed chunk)) = chunk ∷ []
hook_text _ = []

abbrev pub progress_text : Notice → List AttributedChunk
progress_text (progress (transcript_accepted chunk)) = chunk ∷ []
progress_text _ = []

-- the chunks that hooks, or observers, were told of
abbrev pub told : (Notice → List AttributedChunk) → List Notice → List AttributedChunk
told read [] = []
told read (notice ∷ notices) = read notice ++ told read notices

-- The transcript is the header and the lines of the accepted finals; the hooks and the observers
-- were told of just these, in the same order; only finals of the microphone were suppressed; and
-- what was transcribed, but for `todo`, is with the diarizer, each text once.
pub record IsHeard (header : Text) (hand : List AcceptedFinal) (todo : List TranscriptChunk)
    (v : Said) : Type 0 where
  pub accepted : List AcceptedFinal
  pub suppressed : List AcceptedFinal
  pub lines : v.transcript ≡ header ++ lines_of accepted
  pub hooks : told hook_text v.notices ≡ map attributed accepted
  pub observers : told progress_text v.notices ≡ map attributed accepted
  pub echoes : AreMine suppressed
  pub heard :
      Perm
        (map transcript_of (accepted ++ (suppressed ++ (hand ++ finals v.boundary.pending))))
        ((v.mic_text_chunks ++ v.sys_text_chunks) ++ todo)

pub Leaves-said :
    {env : Env} {A : Type 0} (m : Session env A) → Keeps (view env) m → Keeps (said env) m
Leaves-said m l = record { same = λ s. ap unlogged (l.same s) }

pub lines_of-append :
    (fs gs : List AcceptedFinal) → lines_of (fs ++ gs) ≡ lines_of fs ++ lines_of gs
lines_of-append [] gs = refl
lines_of-append (f ∷ fs) gs =
    ap (λ t. render_transcript_line (attributed f) ++ t) (lines_of-append fs gs)
    ∙ sym (append_assoc (render_transcript_line (attributed f)) (lines_of fs) (lines_of gs))

pub told-append :
    (read : Notice → List AttributedChunk) (ns ms : List Notice)
    → told read (ns ++ ms) ≡ told read ns ++ told read ms
told-append read [] ms = refl
told-append read (n ∷ ns) ms =
    ap (λ l. read n ++ l) (told-append read ns ms)
    ∙ sym (append_assoc (read n) (told read ns) (told read ms))
