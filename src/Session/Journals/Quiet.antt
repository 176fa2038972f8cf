-- ===== src/Session/Journals/Quiet.antt =====
-- Journaling a frame leaves the transcript, the log and the boundary alone.
use scrybe.Common.Action.{Keeps-bind}
use scrybe.Common.{refl, Option, none, some, arith}
use scrybe.Types.{AudioFrame}
use scrybe.Pipeline.Journal.{JournalManifest}
use scrybe.Session.State.{Env, JournalSlot}
use scrybe.Session.View.{Leaves, Leaves-modify, leaves_rules}
use scrybe.Session.Journals.{
  journal_push, push_slot, feed_slot, write_partial_manifest, finish_partial_manifest_write, join,
  write_manifest,
}

module _ (env : Env) where
  write_manifest-Leaves : (m : JournalManifest) → Leaves (write_manifest env m)
  unfolding write_manifest
  write_manifest-Leaves m = record { same = λ s. ground arith }

  join-Leaves : (m : Option JournalManifest) → Leaves (join env m)
  unfolding join
  join-Leaves none = search leaves_rules
  join-Leaves (some m) = Keeps-bind _ _ (Leaves-modify _ (λ s. refl)) (λ _. write_manifest-Leaves m)

  write_partial_manifest-Leaves : Leaves (write_partial_manifest env)
  unfolding write_partial_manifest finish_partial_manifest_write
  write_partial_manifest-Leaves =
      Keeps-bind _ _ (search (leaves_rules, join-Leaves)) (λ _. Leaves-modify _ (λ s. refl))

  feed_slot-Leaves : (frame : AudioFrame) (slot : JournalSlot) → Leaves (feed_slot env frame slot)
  unfolding feed_slot
  feed_slot-Leaves frame slot = Leaves-modify _ (λ s. refl)

  push_slot-Leaves : (frame : AudioFrame) (o : Option JournalSlot) → Leaves (push_slot env frame o)
  unfolding push_slot
  push_slot-Leaves frame (some slot) = feed_slot-Leaves frame slot
  push_slot-Leaves frame none =
      search (leaves_rules, feed_slot-Leaves, write_partial_manifest-Leaves)

  pub journal_push-Leaves : (frame : AudioFrame) → Leaves (journal_push env frame)
  unfolding journal_push
  journal_push-Leaves frame = search (leaves_rules, push_slot-Leaves)
