-- ===== src/Session/Ledger/Run.antt =====
-- Every operation of a streaming session keeps the account, or fails and leaves it torn.
use scrybe.Common.{◌≡◌, refl, sym, inl, inr, List, [], ◌∷◌, ◌++◌, Option-cases}
use mathlib.Core.Path.{subst}
use scrybe.Common.Action.{Result, ok, err, Outcome, Ensures, Ensures-bind, Ensures-for_each}
use scrybe.Errors.{CoreError}
use scrybe.Text.{Text}
use scrybe.Notes.Transcript.{render_transcript_line}
use scrybe.Storage.TranscriptLog.{IsLineCodec, mark_flushed, mark_suppressed}
use scrybe.Session.AcceptedFinal.{AcceptedFinal, Resolved}
use scrybe.Session.AcceptedFinal.Conservation.{outputs}
use scrybe.Session.State.{Env, Session, SessionState, append_durable, log_durable, tell, Notice}
use scrybe.Session.View.{view, Leaves}
use scrybe.Session.Persist.{
  attributed, persist_final, release_accepted, release_suppressed, release_streaming_resolved,
  flushed_record, suppressed_record,
}
use scrybe.Session.Ledger.{IsLedger, IsTorn}
use scrybe.Session.Ledger.Steps.{flush_whole, suppress_whole, hand-numbered}
use scrybe.Session.Ledger.Lines.{Ledger-Torn, line_cut, line_whole, record_cut, mark_cut}

module _ (env : Env) (c : IsLineCodec env.codec) (header : Text) where
  -- the account holds, with these finals in hand and this text behind the lines
  abbrev pub Holding : List AcceptedFinal → Text → SessionState env → Type 0
  Holding hand tail s = IsLedger env.codec header hand tail (view env s)

  abbrev pub Failed : SessionState env → Type 0
  Failed s = IsTorn env.codec header (view env s)

  quiet-Outcome :
      {A : Type 0} (hand : List AcceptedFinal) (s : SessionState env)
      (r : Result CoreError A × SessionState env)
      → view env r.1 ≡ view env s
      → Holding hand [] s
      → Outcome Failed (λ _. Holding hand []) r
  quiet-Outcome hand s (ok a, s') e h = subst (IsLedger env.codec header hand []) (sym e) h
  quiet-Outcome hand s (err _, s') e h =
      Ledger-Torn env.codec header hand (subst (IsLedger env.codec header hand []) (sym e) h)

  -- what leaves the disk alone keeps the account
  pub Leaves-Holding :
      {A : Type 0} (hand : List AcceptedFinal) (m : Session env A)
      → Leaves m
      → Ensures Failed (λ _. Holding hand []) (Holding hand []) m
  Leaves-Holding hand m l = record { at = λ s h. quiet-Outcome hand s (m s) (l.same s) h }

  pub tell-Holding :
      (hand : List AcceptedFinal) (tail : Text) (notice : Notice)
      → Ensures Failed (λ _. Holding hand tail) (Holding hand tail) (tell env notice)
  tell-Holding hand tail notice = record {
    at = λ s h. record {
      records = h.records;
      whole = h.whole;
      numbered = h.numbered;
      settled = h.settled;
      lines = h.lines;
    };
  }

  append-Holding :
      (f : AcceptedFinal) (hand : List AcceptedFinal)
      → Ensures Failed
          (λ _. Holding (f ∷ hand) (render_transcript_line (attributed f)))
          (Holding (f ∷ hand) [])
          (append_durable env (render_transcript_line (attributed f)))
  unfolding append_durable
  append-Holding f hand = record {
    at = λ s h. elim (Option-cases (env.write_fault s.world).1) [
      | inl e ↦ rw e (line_whole env.codec header f hand h)
      | inr (n, e) ↦ rw e (line_cut env.codec header f hand n h)
    ];
  }

  -- a line is on the disk before its observers and its hooks are told
  pub persist_final-Holding :
      (f : AcceptedFinal) (hand : List AcceptedFinal)
      → Ensures Failed
          (λ _. Holding (f ∷ hand) (render_transcript_line (attributed f)))
          (Holding (f ∷ hand) [])
          (persist_final env f)
  unfolding persist_final
  persist_final-Holding f hand =
      Ensures-bind _ _ (append-Holding f hand)
        λ _. Ensures-bind _ _ (tell-Holding (f ∷ hand) _ _) λ _. tell-Holding (f ∷ hand) _ _

  -- an accepted final is on the transcript and marked, or the one that is ambiguous
  pub release_accepted-Holding :
      (f : AcceptedFinal) (hand : List AcceptedFinal)
      → Ensures Failed (λ _. Holding hand []) (Holding (f ∷ hand) []) (release_accepted env f)
  unfolding release_accepted log_durable mark_flushed
  release_accepted-Holding f hand = Ensures-bind _ _ (persist_final-Holding f hand) λ _. record {
    at = λ s h.
        let (seq, numbered) = hand-numbered f hand h in
        rw numbered (elim (Option-cases (env.write_fault s.world).1) [
          | inl e ↦ rw e (flush_whole env.codec c header f seq hand numbered h)
          | inr (n, e) ↦
              rw e (mark_cut env.codec header f hand _ (flushed_record seq (attributed f)) n refl h)
        ]);
  }

  pub release_suppressed-Holding :
      (f : AcceptedFinal) (hand : List AcceptedFinal)
      → Ensures Failed (λ _. Holding hand []) (Holding (f ∷ hand) []) (release_suppressed env f)
  unfolding release_suppressed log_durable mark_suppressed
  release_suppressed-Holding f hand = record {
    at = λ s h.
        let (seq, numbered) = hand-numbered f hand h in
        rw numbered (elim (Option-cases (env.write_fault s.world).1) [
          | inl e ↦ rw e (suppress_whole env.codec c header f seq hand numbered h)
          | inr (n, e) ↦ rw e (
              record_cut env.codec header (f ∷ hand) _ (suppressed_record seq (attributed f)) n refl
                h)
        ]);
  }

  -- a whole release
  pub release-Holding :
      (resolved : Resolved)
      → Ensures Failed
          (λ _. Holding [] [])
          (Holding (outputs resolved) [])
          (release_streaming_resolved env resolved)
  unfolding release_streaming_resolved
  release-Holding resolved =
      Ensures-bind _ _
        (Ensures-for_each (λ xs. Holding (xs ++ resolved.suppressed) []) (release_accepted env)
          (λ f xs. release_accepted-Holding f (xs ++ resolved.suppressed)) resolved.accepted)
        λ _.
          Ensures-for_each (λ xs. Holding xs []) (release_suppressed env) release_suppressed-Holding
            resolved.suppressed
