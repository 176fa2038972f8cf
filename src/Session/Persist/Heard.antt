-- ===== src/Session/Persist/Heard.antt =====
-- The marks in the log are no part of what a session has heard.
use scrybe.Common.{ℕ, Option, none, some, List, [], ◌∷◌}
use scrybe.Common.Action.{
  Keeps, Keeps-pure, Keeps-for_each, Ensures, Ensures-bind, Ensures-for_each,
}
use scrybe.Text.{Text}
use scrybe.Types.{TranscriptChunk}
use scrybe.Session.AcceptedFinal.{AcceptedFinal, Resolved}
use scrybe.Session.State.{Env}
use scrybe.Session.Persist.{
  settle_flushed, settle_suppressed, release_accepted, release_suppressed,
  release_streaming_resolved,
}
use scrybe.Session.Heard.{said}
use scrybe.Session.Heard.Release.{
  Hears, Stopped, Keeps-Hears, persist_final-Hears, log_durable-said,
}

module _ (env : Env) where
  settle_flushed-said :
      (f : AcceptedFinal) (seq : Option ℕ) → Keeps (said env) (settle_flushed env f seq)
  unfolding settle_flushed
  settle_flushed-said f none = Keeps-pure tt
  settle_flushed-said f (some seq) = log_durable-said env _ _

  settle_suppressed-said :
      (f : AcceptedFinal) (seq : Option ℕ) → Keeps (said env) (settle_suppressed env f seq)
  unfolding settle_suppressed
  settle_suppressed-said f none = Keeps-pure tt
  settle_suppressed-said f (some seq) = log_durable-said env _ _

  release_suppressed-said : (f : AcceptedFinal) → Keeps (said env) (release_suppressed env f)
  unfolding release_suppressed
  release_suppressed-said f = settle_suppressed-said f f.wal_seq

module _ (env : Env) (header : Text) (todo : List TranscriptChunk) where
  release_accepted-Hears :
      (f : AcceptedFinal) (hand : List AcceptedFinal)
      → Ensures
          (Stopped env header)
          (λ _. Hears env header hand todo)
          (Hears env header (f ∷ hand) todo)
          (release_accepted env f)
  unfolding release_accepted
  release_accepted-Hears f hand =
      Ensures-bind _ _ (persist_final-Hears env header f hand todo)
        (λ _. Keeps-Hears env header hand todo _ (settle_flushed-said env f f.wal_seq))

  pub release_streaming-Hears :
      (resolved : Resolved)
      → Ensures
          (Stopped env header)
          (λ _. Hears env header [] todo)
          (Hears env header resolved.accepted todo)
          (release_streaming_resolved env resolved)
  unfolding release_streaming_resolved
  release_streaming-Hears resolved =
      Ensures-bind _ _
        (Ensures-for_each (λ fs. Hears env header fs todo) (release_accepted env)
          release_accepted-Hears resolved.accepted)
        (λ _.
          Keeps-Hears env header [] todo _
            (Keeps-for_each resolved.suppressed _ (release_suppressed-said env)))
