-- ===== src/Session/Heard/Release.antt =====
-- A final that is released is written, told and counted as accepted.
use scrybe.Common.{◌≡◌, refl, sym, ap, ◌∙◌, inl, inr, List, [], ◌∷◌, ◌++◌, Option-cases, All-append}
use mathlib.Core.Path.{subst}
use mathlib.Core.List.{Perm, append_assoc, append-nil, map-append, perm_middle, perm_append_comm}
use mathlib.Core.List.Perm
use scrybe.Common.Action.{Result, ok, err, Keeps, Outcome, Ensures, Ensures-for_each, ◌>>=◌}
use scrybe.Errors.{CoreError}
use scrybe.Storage.TranscriptLog.{TranscriptPartialRecord, TranscriptPartialLog}
use scrybe.Text.{Text}
use scrybe.Types.{TranscriptChunk}
use scrybe.Notes.Transcript.{render_transcript_line}
use scrybe.Session.AcceptedFinal.{AcceptedFinal, AcceptedFinalBoundary, Resolved}
use scrybe.Session.AcceptedFinal.Conservation.{finals, outputs}
use scrybe.Session.AcceptedFinal.Suppressed.{AreMine}
use scrybe.Session.State.{
  Env, Session, SessionState, Notice, progress, hook, transcript_accepted, chunk_transcribed,
  append_durable, log_durable,
}
use scrybe.Session.Persist.{attributed, persist_final, release_ready}
use scrybe.Session.Heard.{
  Said, said, transcript_of, lines_of, IsHeard, lines_of-append, told-append,
}

suppress_more :
    (suppressed : List AcceptedFinal) (out : Resolved) (held : List AcceptedFinal)
    → Perm
        ((suppressed ++ out.suppressed) ++ (out.accepted ++ held))
        (suppressed ++ (outputs out ++ held))
suppress_more suppressed out held =
    subst (λ l. Perm l (suppressed ++ (outputs out ++ held)))
      (sym (append_assoc suppressed out.suppressed (out.accepted ++ held)))
      (Perm.append_left suppressed (
        subst (λ l. Perm l (outputs out ++ held)) (append_assoc out.suppressed out.accepted held)
          (Perm.append_right held (perm_append_comm out.suppressed out.accepted))))

-- a final in hand is the next accepted one
accept_first :
    (accepted suppressed rest : List AcceptedFinal) (f : AcceptedFinal)
    → Perm ((accepted ++ f ∷ []) ++ (suppressed ++ rest)) (accepted ++ (suppressed ++ f ∷ rest))
accept_first accepted suppressed rest f =
    subst (λ l. Perm l (accepted ++ (suppressed ++ f ∷ rest)))
      (sym (append_assoc accepted (f ∷ []) (suppressed ++ rest)))
      (Perm.append_left accepted (Perm.symm (perm_middle suppressed rest)))

module _ (env : Env) (header : Text) where
  abbrev pub Hears : List AcceptedFinal → List TranscriptChunk → SessionState env → Type 0
  Hears hand todo s = IsHeard header hand todo (said env s)

  -- nothing is claimed of a session that fails
  abbrev pub Stopped : SessionState env → Type 0
  Stopped s = Unit

  said-Outcome :
      {A : Type 0} (hand : List AcceptedFinal) (todo : List TranscriptChunk) (s : SessionState env)
      (r : Result CoreError A × SessionState env)
      → said env r.1 ≡ said env s
      → Hears hand todo s
      → Outcome Stopped (λ _. Hears hand todo) r
  said-Outcome hand todo s (ok a, t) e h = subst (IsHeard header hand todo) (sym e) h
  said-Outcome hand todo s (err _, t) e h = tt

  pub Keeps-Hears :
      {A : Type 0} (hand : List AcceptedFinal) (todo : List TranscriptChunk) (m : Session env A)
      → Keeps (said env) m
      → Ensures Stopped (λ _. Hears hand todo) (Hears hand todo) m
  Keeps-Hears hand todo m k = record { at = λ s h. said-Outcome hand todo s (m s) (k.same s) h }

  abbrev notices_of : AcceptedFinal → List Notice
  notices_of f =
      progress (transcript_accepted (attributed f)) ∷ hook (chunk_transcribed (attributed f)) ∷ []

  accept_whole :
      (f : AcceptedFinal) (hand : List AcceptedFinal) (todo : List TranscriptChunk) (v : Said)
      → IsHeard header (f ∷ hand) todo v
      → IsHeard header hand todo (record v {
        transcript = v.transcript ++ render_transcript_line (attributed f);
        notices =
            (v.notices ++ progress (transcript_accepted (attributed f)) ∷ [])
            ++ hook (chunk_transcribed (attributed f)) ∷ [];
      })
  accept_whole f hand todo v h = record {
    accepted = h.accepted ++ f ∷ [];
    suppressed = h.suppressed;
    lines =
        ap (λ t. t ++ render_transcript_line (attributed f)) h.lines
        ∙ append_assoc header (lines_of h.accepted) (render_transcript_line (attributed f))
        ∙ ap (λ t. header ++ t)
            (ap (λ t. lines_of h.accepted ++ t) (sym (append-nil _))
              ∙ sym (lines_of-append h.accepted (f ∷ [])));
    hooks = simp (told-append, map-append, append-nil) (ap (λ l. l ++ attributed f ∷ []) h.hooks);
    observers =
        simp (told-append, map-append, append-nil) (ap (λ l. l ++ attributed f ∷ []) h.observers);
    echoes = h.echoes;
    heard =
        Perm.trans
          (Perm.map transcript_of
            (accept_first h.accepted h.suppressed (hand ++ finals v.boundary.pending) f))
          h.heard;
  }

  pub persist_final-Hears :
      (f : AcceptedFinal) (hand : List AcceptedFinal) (todo : List TranscriptChunk)
      → Ensures Stopped (λ _. Hears hand todo) (Hears (f ∷ hand) todo) (persist_final env f)
  unfolding persist_final append_durable ◌>>=◌
  persist_final-Hears f hand todo = record {
    at = λ s h. elim (Option-cases (env.write_fault s.world).1) [
      | inl e ↦ rw e (accept_whole f hand todo (said env s) h)
      | inr (n, e) ↦ rw e tt
    ];
  }

  pub release_ready-Hears :
      (ready : List AcceptedFinal) (todo : List TranscriptChunk)
      → Ensures Stopped (λ _. Hears [] todo) (Hears ready todo) (release_ready env ready)
  unfolding release_ready
  release_ready-Hears ready todo =
      Ensures-for_each (λ fs. Hears fs todo) (persist_final env)
        (λ f fs. persist_final-Hears f fs todo) ready

  -- What the boundary releases is in hand or suppressed, and what it takes is no longer to do.
  pub boundary-Hears :
      (hand : List AcceptedFinal) (todo : List TranscriptChunk) (v : Said)
      (b : AcceptedFinalBoundary) (out : Resolved)
      → Perm (outputs out ++ finals b.pending) (hand ++ finals v.boundary.pending)
      → AreMine out.suppressed
      → IsHeard header hand todo v
      → IsHeard header out.accepted todo (record v { boundary = b })
  boundary-Hears hand todo v b out p mine h = record {
    accepted = h.accepted;
    suppressed = h.suppressed ++ out.suppressed;
    lines = h.lines;
    hooks = h.hooks;
    observers = h.observers;
    echoes = All-append _ h.suppressed out.suppressed h.echoes mine;
    heard =
        Perm.trans
          (Perm.map transcript_of (
            Perm.append_left h.accepted (
              Perm.trans (suppress_more h.suppressed out (finals b.pending))
                (Perm.append_left h.suppressed p))))
          h.heard;
  }

module _ (env : Env) where
  pub log_durable-said :
      {A : Type 0} (r : TranscriptPartialLog → TranscriptPartialRecord)
      (whole : TranscriptPartialLog → TranscriptPartialLog × A)
      → Keeps (said env) (log_durable env r whole)
  unfolding log_durable
  log_durable-said r whole = record {
    same = λ s. elim (Option-cases (env.write_fault s.world).1) [
      | inl e ↦ rw e refl
      | inr (n, e) ↦ rw e refl
    ];
  }
