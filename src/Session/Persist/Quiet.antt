-- ===== src/Session/Persist/Quiet.antt =====
-- A release leaves the boundary and the texts for the diarizer alone.
use scrybe.Common.{ℕ, refl, inl, inr, none, some, Option, List, Option-cases}
use scrybe.Common.Action.{Keeps, Keeps-bind, Keeps-pure, Keeps-for_each}
use scrybe.Text.{Text}
use scrybe.Types.{TranscriptChunk}
use scrybe.Storage.TranscriptLog.{TranscriptPartialRecord, TranscriptPartialLog}
use scrybe.Session.AcceptedFinal.{AcceptedFinal, AcceptedFinalBoundary, Resolved}
use scrybe.Session.State.{Env, SessionState, append_durable, log_durable, tell, Notice}
use scrybe.Session.Persist.{
  persist_final, settle_flushed, settle_suppressed, release_accepted, release_suppressed,
  release_streaming_resolved, release_ready,
}

module _ (env : Env) where
  -- what a release does not write to
  abbrev pub undecided :
      SessionState env → AcceptedFinalBoundary × (List TranscriptChunk × List TranscriptChunk)
  undecided s = (s.boundary, (s.mic_text_chunks, s.sys_text_chunks))

  pub append_durable-Keeps : (line : Text) → Keeps undecided (append_durable env line)
  unfolding append_durable
  append_durable-Keeps line = record {
    same = λ s. elim (Option-cases (env.write_fault s.world).1) [
      | inl e ↦ rw e refl
      | inr (n, e) ↦ rw e refl
    ];
  }

  pub log_durable-Keeps :
      {A : Type 0} (r : TranscriptPartialLog → TranscriptPartialRecord)
      (whole : TranscriptPartialLog → TranscriptPartialLog × A)
      → Keeps undecided (log_durable env r whole)
  unfolding log_durable
  log_durable-Keeps r whole = record {
    same = λ s. elim (Option-cases (env.write_fault s.world).1) [
      | inl e ↦ rw e refl
      | inr (n, e) ↦ rw e refl
    ];
  }

  pub tell-Keeps : (notice : Notice) → Keeps undecided (tell env notice)
  tell-Keeps notice = record { same = λ s. refl }

  pub persist_final-Keeps : (f : AcceptedFinal) → Keeps undecided (persist_final env f)
  unfolding persist_final
  persist_final-Keeps f = search (Keeps-bind, append_durable-Keeps, tell-Keeps)

  settle_flushed-Keeps :
      (f : AcceptedFinal) (seq : Option ℕ) → Keeps undecided (settle_flushed env f seq)
  unfolding settle_flushed
  settle_flushed-Keeps f none = Keeps-pure tt
  settle_flushed-Keeps f (some seq) = log_durable-Keeps _ _

  settle_suppressed-Keeps :
      (f : AcceptedFinal) (seq : Option ℕ) → Keeps undecided (settle_suppressed env f seq)
  unfolding settle_suppressed
  settle_suppressed-Keeps f none = Keeps-pure tt
  settle_suppressed-Keeps f (some seq) = log_durable-Keeps _ _

  release_accepted-Keeps : (f : AcceptedFinal) → Keeps undecided (release_accepted env f)
  unfolding release_accepted
  release_accepted-Keeps f =
      Keeps-bind _ _ (persist_final-Keeps f) (λ _. settle_flushed-Keeps f f.wal_seq)

  release_suppressed-Keeps : (f : AcceptedFinal) → Keeps undecided (release_suppressed env f)
  unfolding release_suppressed
  release_suppressed-Keeps f = settle_suppressed-Keeps f f.wal_seq

  pub release_streaming_resolved-Keeps :
      (resolved : Resolved) → Keeps undecided (release_streaming_resolved env resolved)
  unfolding release_streaming_resolved
  release_streaming_resolved-Keeps resolved =
      Keeps-bind _ _ (Keeps-for_each resolved.accepted _ release_accepted-Keeps)
        (λ _. Keeps-for_each resolved.suppressed _ release_suppressed-Keeps)

  pub release_ready-Keeps : (ready : List AcceptedFinal) → Keeps undecided (release_ready env ready)
  unfolding release_ready
  release_ready-Keeps ready = Keeps-for_each ready _ persist_final-Keeps
