-- ===== src/Session/Drive/Hearing.antt =====
-- What each frame makes of what a session has heard.
use scrybe.Common.{
  ◌≡◌, sym, ◌∙◌, true, Option, none, some, List, [], ◌∷◌, ◌++◌, map, arith, if◌then◌else◌,
}
use mathlib.Core.Path.{subst}
use mathlib.Core.List.{Perm, append-nil, append_assoc, perm_append_singleton}
use mathlib.Core.List.Perm
use scrybe.Common.Action.{
  Result, ok, err, pure, Keeps, Keeps-if, Keeps-pure, Ensures, Ensures-bind, Ensures-pure,
  Ensures-if, Ensures-for_each,
}
use scrybe.Errors.{CaptureError}
use scrybe.Text.{Text}
use scrybe.Types.{AudioFrame, FrameSource, TranscriptChunk}
use scrybe.Pipeline.Chunker.{EmittedChunk}
use scrybe.Session.AcceptedFinal.{AcceptedFinal, Resolved}
use scrybe.Session.AcceptedFinal.Conservation.{advance-perm}
use scrybe.Session.AcceptedFinal.Suppressed.{AreMine, advance-AreMine}
use scrybe.Session.State.{Env, Session, SessionState}
use scrybe.Session.Journals.Quiet.{journal_push-Leaves}
use scrybe.Session.Persist.{StoreTarget, to_mic, to_system, attributed}
use scrybe.Session.Persist.Heard.{release_streaming-Hears}
use scrybe.Session.Streaming.{ChunkOutcome}
use scrybe.Session.Streaming.Heard.{text_of, push_frame-said, process_streaming_chunk-Hears}
use scrybe.Session.Batch.Heard.{process_chunk-Hears}
use scrybe.Session.Drive.{
  is_empty, release, advance_boundary, process, store_outcome, store_text, take_frame, capture,
}
use scrybe.Session.Drive.Quiet.{push_chunker-Leaves}
use scrybe.Session.Heard.{
  Said, said, IsHeard, Leaves-said, transcript_of, lines_of, told, hook_text, progress_text,
}
use scrybe.Session.Heard.Release.{Hears, Stopped, Keeps-Hears, boundary-Hears, release_ready-Hears}

mic_side :
    (mine theirs : List TranscriptChunk) (t : TranscriptChunk)
    → Perm ((mine ++ theirs) ++ t ∷ []) (((mine ++ t ∷ []) ++ theirs) ++ [])
mic_side mine theirs t = subst (Perm ((mine ++ theirs) ++ t ∷ [])) (sym (append-nil _)) (
    subst (λ l. Perm l ((mine ++ t ∷ []) ++ theirs)) (sym (append_assoc mine theirs (t ∷ [])))
      (subst (Perm (mine ++ (theirs ++ t ∷ []))) (sym (append_assoc mine (t ∷ []) theirs))
        (Perm.append_left mine (perm_append_singleton t theirs))))

system_side :
    (mine theirs : List TranscriptChunk) (t : TranscriptChunk)
    → Perm ((mine ++ theirs) ++ t ∷ []) ((mine ++ (theirs ++ t ∷ [])) ++ [])
system_side mine theirs t =
    subst (Perm ((mine ++ theirs) ++ t ∷ []))
      (append_assoc mine theirs (t ∷ []) ∙ sym (append-nil _)) Perm.rfl

-- Everything that a session heard, once all its finals are decided.
pub record IsWritten (env : Env) (header : Text) (s : SessionState env) : Type 0 where
  pub accepted : List AcceptedFinal
  pub suppressed : List AcceptedFinal
  pub lines : s.transcript ≡ header ++ lines_of accepted
  pub hooks : told hook_text s.notices ≡ map attributed accepted
  pub observers : told progress_text s.notices ≡ map attributed accepted
  pub echoes : AreMine suppressed
  pub heard :
      Perm (map transcript_of (accepted ++ suppressed)) (s.mic_text_chunks ++ s.sys_text_chunks)

module _ (env : Env) (header : Text) where
  abbrev pub Hearing : {A : Type 0} → Session env A → Type 0
  Hearing = Ensures (Stopped env header) (λ _. Hears env header [] []) (Hears env header [] [])

  pub quiet : {A : Type 0} (m : Session env A) → Keeps (said env) m → Hearing m
  quiet m k = Keeps-Hears env header [] [] m k

  pub release-Hears :
      (resolved : Resolved)
      → Ensures
          (Stopped env header)
          (λ _. Hears env header [] [])
          (Hears env header resolved.accepted [])
          (release env resolved)
  unfolding release
  release-Hears resolved =
      Ensures-if env.streams _ _ (λ _. release_streaming-Hears env header [] resolved)
        (λ _. release_ready-Hears env header resolved.accepted [])

  is_empty-accepted : (resolved : Resolved) → is_empty resolved ≡ true → resolved.accepted ≡ []
  is_empty-accepted resolved e = ground arith

  release_if_any :
      (resolved : Resolved)
      → Ensures
          (Stopped env header)
          (λ _. Hears env header [] [])
          (Hears env header resolved.accepted [])
          (if is_empty resolved then pure tt else release env resolved)
  release_if_any resolved =
      Ensures-if (is_empty resolved) _ _
        (λ e.
          Ensures-pure _ (λ s. subst (λ l. Hears env header l [] s) (is_empty-accepted resolved e)))
        (λ _. release-Hears resolved)

  advance_boundary-Hears :
      (source : FrameSource)
      → Ensures
          (Stopped env header)
          (λ resolved. Hears env header resolved.accepted [])
          (Hears env header [] [])
          (advance_boundary env source)
  unfolding advance_boundary
  advance_boundary-Hears source = record {
    at = λ s h.
        boundary-Hears env header [] [] (said env s) _ _
          (advance-perm env.to_lowercase source _ s.boundary)
          (advance-AreMine env.to_lowercase source _ s.boundary) h;
  }

  -- a text to do goes to its side
  to_side :
      (v : Said) (mine theirs : List TranscriptChunk) (text : TranscriptChunk)
      → Perm ((v.mic_text_chunks ++ v.sys_text_chunks) ++ text ∷ []) ((mine ++ theirs) ++ [])
      → IsHeard header [] (text ∷ []) v
      → IsHeard header [] [] (record v { mic_text_chunks = mine; sys_text_chunks = theirs })
  to_side v mine theirs text p h = record {
    accepted = h.accepted;
    suppressed = h.suppressed;
    lines = h.lines;
    hooks = h.hooks;
    observers = h.observers;
    echoes = h.echoes;
    heard = Perm.trans h.heard p;
  }

  store_text-Hears :
      (target : StoreTarget) (text : TranscriptChunk)
      → Ensures
          (Stopped env header)
          (λ _. Hears env header [] [])
          (Hears env header [] (text ∷ []))
          (store_text env target text)
  unfolding store_text
  store_text-Hears to_mic text = record {
    at = λ s h. to_side (said env s) _ _ text (mic_side s.mic_text_chunks _ text) h;
  }
  store_text-Hears to_system text = record {
    at = λ s h. to_side (said env s) _ _ text (system_side s.mic_text_chunks _ text) h;
  }

  store_outcome-Hears :
      (o : Option ChunkOutcome)
      → Ensures
          (Stopped env header)
          (λ _. Hears env header [] [])
          (Hears env header [] (text_of o))
          (store_outcome env o)
  unfolding store_outcome
  store_outcome-Hears none = Ensures-pure _ (λ s h. h)
  store_outcome-Hears (some outcome) = store_text-Hears outcome.target outcome.text

  pub process-Hears : (chunk : EmittedChunk) → Hearing (process env chunk)
  unfolding process
  process-Hears chunk =
      Ensures-bind _ _
        (Ensures-if env.streams _ _ (λ _. process_streaming_chunk-Hears env header chunk)
          (λ _. process_chunk-Hears env header chunk))
        store_outcome-Hears

  take_frame-Hears : (frame : AudioFrame) → Hearing (take_frame env frame)
  unfolding take_frame
  take_frame-Hears frame =
      Ensures-bind _ _ (quiet _ (Leaves-said _ (journal_push-Leaves env frame))) λ _.
        Ensures-bind _ _ (advance_boundary-Hears frame.source) λ progressed.
          Ensures-bind _ _ (release_if_any progressed) λ _.
            Ensures-bind _ _
              (quiet _ (Keeps-if env.streams _ _ (push_frame-said env frame) (Keeps-pure tt)))
              λ _.
                Ensures-bind _ _
                  (quiet _ (Leaves-said _ (push_chunker-Leaves env frame frame.source)))
                  λ chunks.
                    Ensures-for_each (λ _. Hears env header [] []) (process env)
                      (λ x xs. process-Hears x) chunks

  pub capture-Hears :
      (stream : List (Result CaptureError AudioFrame)) → Hearing (capture env stream)
  unfolding capture
  capture-Hears [] = Ensures-pure _ (λ s h. h)
  capture-Hears (err e ∷ rest) = Ensures-pure _ (λ s h. h)
  capture-Hears (ok frame ∷ rest) =
      Ensures-bind _ _ (take_frame-Hears frame) (λ _. capture-Hears rest)
