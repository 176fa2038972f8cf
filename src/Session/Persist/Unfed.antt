-- ===== src/Session/Persist/Unfed.antt =====
-- A release gives the journals nothing.
use scrybe.Common.{ℕ, Option, none, some, List}
use scrybe.Common.Action.{Keeps-bind, Keeps-for_each}
use scrybe.Session.AcceptedFinal.{AcceptedFinal, Resolved}
use scrybe.Session.State.{Env}
use scrybe.Session.Fed.{Unfed, unfed_rules}
use scrybe.Session.Persist.{
  persist_final, settle_flushed, settle_suppressed, release_accepted, release_suppressed,
  release_streaming_resolved, release_ready,
}

module _ (env : Env) where
  persist_final-Unfed : (f : AcceptedFinal) → Unfed (persist_final env f)
  unfolding persist_final
  persist_final-Unfed f = search unfed_rules

  settle_flushed-Unfed : (f : AcceptedFinal) (seq : Option ℕ) → Unfed (settle_flushed env f seq)
  unfolding settle_flushed
  settle_flushed-Unfed f none = search unfed_rules
  settle_flushed-Unfed f (some seq) = search unfed_rules

  settle_suppressed-Unfed :
      (f : AcceptedFinal) (seq : Option ℕ) → Unfed (settle_suppressed env f seq)
  unfolding settle_suppressed
  settle_suppressed-Unfed f none = search unfed_rules
  settle_suppressed-Unfed f (some seq) = search unfed_rules

  release_accepted-Unfed : (f : AcceptedFinal) → Unfed (release_accepted env f)
  unfolding release_accepted
  release_accepted-Unfed f = search (unfed_rules, persist_final-Unfed, settle_flushed-Unfed)

  release_suppressed-Unfed : (f : AcceptedFinal) → Unfed (release_suppressed env f)
  unfolding release_suppressed
  release_suppressed-Unfed f = settle_suppressed-Unfed f f.wal_seq

  pub release_streaming_resolved-Unfed :
      (resolved : Resolved) → Unfed (release_streaming_resolved env resolved)
  unfolding release_streaming_resolved
  release_streaming_resolved-Unfed resolved =
      Keeps-bind _ _ (Keeps-for_each resolved.accepted _ release_accepted-Unfed)
        (λ _. Keeps-for_each resolved.suppressed _ release_suppressed-Unfed)

  pub release_ready-Unfed : (ready : List AcceptedFinal) → Unfed (release_ready env ready)
  unfolding release_ready
  release_ready-Unfed ready = Keeps-for_each ready _ persist_final-Unfed
