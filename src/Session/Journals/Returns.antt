-- ===== src/Session/Journals/Returns.antt =====
-- The journals return where the disk takes every write and a thread can be spawned.
use scrybe.Common.{ℕ, ◌≡◌, Bool, true, false, Option, none, some, if◌then◌else◌, arith}
use scrybe.Common.Action.{Outcome, Ensures, Ensures-bind, Ensures-pure, pure, raise}
use scrybe.Errors.{storage, io}
use scrybe.Types.{AudioFrame}
use scrybe.Pipeline.Journal.{JournalManifest}
use scrybe.Session.State.{Env, SessionState, JournalSlot}
use scrybe.Session.State.Returns.{Chunkers, chunkers, Grants, Never, Returns}
use scrybe.Session.Journals.{
  stored, write_manifest, join, finish_partial_manifest_write, write_partial_manifest, feed_slot,
  push_slot, journal_push, slot_for,
}

module _ (env : Env) (K : Chunkers env → Type 0) (grants : Grants env) where
  stored-Returns :
      (m : JournalManifest) (fault : Option ℕ) (s : SessionState env)
      → fault ≡ none
      → K (chunkers env s)
      → Outcome (Never env) (λ _ t. K (chunkers env t)) (stored env m fault s)
  unfolding stored
  stored-Returns m none s e k = k
  stored-Returns m (some _) s e k = absurd (cc)

  write_manifest-Returns : (m : JournalManifest) → Returns env K (write_manifest env m)
  unfolding write_manifest
  write_manifest-Returns m = record { at = λ s k. stored-Returns m _ _ (grants.writes s.world) k }

  join-Returns : (m : Option JournalManifest) → Returns env K (join env m)
  unfolding join
  join-Returns none = Ensures-pure tt (λ s k. k)
  join-Returns (some m) =
      Ensures-bind {Q = λ _ s. K (chunkers env s)} _ _ (record { at = λ s k. k })
        λ _. write_manifest-Returns m

  write_partial_manifest-Returns : Returns env K (write_partial_manifest env)
  unfolding write_partial_manifest finish_partial_manifest_write
  write_partial_manifest-Returns =
      Ensures-bind {Q = λ _ s. K (chunkers env s)} _ _
        (Ensures-bind {Q = λ _ s. K (chunkers env s)} _ _ (record { at = λ s k. k })
          λ j. join-Returns j.partial_manifest_writer)
        λ _. record { at = λ s k. k }

  feed_slot-Returns :
      (frame : AudioFrame) (slot : JournalSlot) → Returns env K (feed_slot env frame slot)
  unfolding feed_slot
  feed_slot-Returns frame slot = record { at = λ s k. k }

  push_slot-Returns :
      (frame : AudioFrame) (slot : Option JournalSlot) → Returns env K (push_slot env frame slot)
  unfolding push_slot
  push_slot-Returns frame (some slot) = feed_slot-Returns frame slot
  push_slot-Returns frame none =
      Ensures-bind {Q = λ started s. K (chunkers env s) × (started ≡ true)} _ _
        (record { at = λ s k. (k, grants.spawns s.world) })
        λ started. Ensures-bind {Q = λ _ s. K (chunkers env s)} _ _ (spawned_or started) λ _.
          Ensures-bind {Q = λ _ s. K (chunkers env s)} _ _ (record { at = λ s k. k })
            λ epoch_ms.
              Ensures-bind _ _ (feed_slot-Returns frame _) λ _. write_partial_manifest-Returns
    where
      spawned_or :
          (started : Bool)
          → Ensures
              (Never env)
              (λ _ s. K (chunkers env s))
              (λ s. K (chunkers env s) × (started ≡ true))
              (if started then pure tt else raise (storage io))
      spawned_or true = Ensures-pure tt (λ s k. k.0)
      spawned_or false = record { at = λ s k. absurd (ground arith) }

  pub journal_push-Returns : (frame : AudioFrame) → Returns env K (journal_push env frame)
  unfolding journal_push
  journal_push-Returns frame =
      Ensures-bind {Q = λ _ s. K (chunkers env s)} _ _ (record { at = λ s k. k })
        λ j. push_slot-Returns frame (slot_for frame.source j)
