-- ===== src/Sessions/Retention/Sweep/Removals.antt =====
-- What staging, forgetting and purging a folder spare.
use scrybe.Common.{ℕ, Bool, true, false}
use scrybe.Common.Action.{Result, ok, err, Ensures, Ensures-bind, Ensures-pure}
use scrybe.Text.{Text}
use scrybe.Sessions.Error.{ErrorCode}
use scrybe.Sessions.Retention.{
  Chrono, Moved, done, not_moved, moved_not_durable, IndexChange, dirty, FileSystem,
}
use scrybe.Sessions.Retention.Disk.{Retention}
use scrybe.Sessions.Retention.Disk.Quiet.{
  Folders, folders, IsQuiet, caught-IsQuiet, durable_rename-Ensures,
}
use scrybe.Sessions.Retention.Staging.{stage}
use scrybe.Sessions.Retention.Staging.Quiet.{
  purge_authorized-IsQuiet, remove_staging-IsQuiet, drop_authorization-IsQuiet,
}
use scrybe.Sessions.Retention.Sweep
use scrybe.Sessions.Retention.Sweep.Spares.{
  Index, Seen, Spares, Removable, Sparing, Spares-moved, Spares-remove, on_tree-Ensures,
  quiet-Ensures,
}

module _ (chrono : Chrono) (fs : FileSystem) (now : chrono.DateTime) (before : Folders)
    (listed : Index chrono fs) where
  abbrev pub Holds : Seen chrono fs → Type 0
  Holds = Spares chrono fs now before listed

  abbrev pub Safe : Sweep.Sweep chrono fs → Type 0
  Safe = Sparing chrono fs now before listed

  pub stage-Spares :
      (folder : Text) (marker : ℕ)
      → Removable chrono fs now before listed folder
      → Ensures Safe (λ _. Safe) Safe (Sweep.on_tree chrono fs (stage chrono fs folder marker))
  unfolding stage
  stage-Spares folder marker r =
      on_tree-Ensures chrono fs now before listed Holds (λ _. Holds) _
        λ index.
          durable_rename-Ensures chrono fs (λ f. Holds (record { at = f; index = index })) _ _ _
            λ node t k.
              Spares-moved chrono fs now before listed (folders chrono fs t) index folder r k

  keep-Spares :
      (folder : Text) (change_of : IndexChange)
      → Ensures Safe (λ _. Safe) Safe (Sweep.keep chrono fs folder change_of)
  keep-Spares folder change_of = record { at = λ s k. k }

  pub forget-Spares :
      (folder : Text) → Ensures Safe (λ _. Safe) Safe (Sweep.forget chrono fs folder)
  forget-Spares folder = record {
    at = λ s k.
        Spares-remove chrono fs now before listed (folders chrono fs s.tree) s.index folder k;
  }

  pub quiet :
      {A : Type 0} (m : Retention chrono fs A)
      → IsQuiet chrono fs m
      → Ensures Safe (λ _. Safe) Safe (Sweep.on_tree chrono fs m)
  quiet m q = quiet-Ensures chrono fs now before listed Holds m (λ _ k. k) q

  after_removal-Spares :
      (folder : Text) (marker : ℕ) (persisted_entry gone : Bool)
      → Ensures Safe
          (λ _. Safe)
          Safe
          (Sweep.after_removal chrono fs folder marker persisted_entry gone)
  unfolding Sweep.after_removal
  after_removal-Spares folder marker persisted_entry false = keep-Spares folder _
  after_removal-Spares folder marker persisted_entry true =
      Ensures-bind _ _ (quiet _ (drop_authorization-IsQuiet chrono fs marker)) λ _.
        Ensures-bind {Q = λ _. Safe} _ _
          (record {
            at = λ s k.
                Spares-remove chrono fs now before listed (folders chrono fs s.tree) s.index folder
                  k;
          })
          λ _. Ensures-pure dirty (λ s k. k)

  purge_where-Spares :
      (folder : Text) (marker : ℕ) (persisted_entry : Bool) (r : Result ErrorCode Bool)
      → Ensures Safe (λ _. Safe) Safe (Sweep.purge_where chrono fs folder marker persisted_entry r)
  unfolding Sweep.purge_where
  purge_where-Spares folder marker persisted_entry (ok true) =
      Ensures-bind _ _ (quiet _ (remove_staging-IsQuiet chrono fs marker))
        (after_removal-Spares folder marker persisted_entry)
  purge_where-Spares folder marker persisted_entry (ok false) = keep-Spares folder _
  purge_where-Spares folder marker persisted_entry (err e) = keep-Spares folder _

  pub purge-Spares :
      (folder : Text) (marker : ℕ) (persisted_entry : Bool)
      → Ensures Safe (λ _. Safe) Safe (Sweep.purge chrono fs folder marker persisted_entry)
  unfolding Sweep.purge
  purge-Spares folder marker persisted_entry =
      Ensures-bind _ _
        (quiet _ (caught-IsQuiet chrono fs _ (purge_authorized-IsQuiet chrono fs marker)))
        (purge_where-Spares folder marker persisted_entry)

  pub staged-Spares :
      (folder : Text) (marker : ℕ) (persisted_entry : Bool) (moved : Moved)
      → Ensures Safe (λ _. Safe) Safe (Sweep.staged chrono fs folder marker persisted_entry moved)
  unfolding Sweep.staged
  staged-Spares folder marker persisted_entry done = purge-Spares folder marker persisted_entry
  staged-Spares folder marker persisted_entry not_moved = keep-Spares folder _
  staged-Spares folder marker persisted_entry moved_not_durable = keep-Spares folder _
