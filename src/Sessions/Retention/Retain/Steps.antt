-- ===== src/Sessions/Retention/Retain/Steps.antt =====
-- The steps of a move, whatever fails in them.
use scrybe.Common.{ℕ, ◌⊎◌, inl, refl, Bool, true, false, none, some, List, if◌then◌else◌}
use scrybe.Common.Action.{
  Result, ok, err, Ensures, Ensures-bind, Ensures-pure, Ensures-raise, Ensures-if,
}
use scrybe.Text.{Text}
use scrybe.Sessions.Error.{ErrorCode}
use scrybe.Sessions.Scan.{FolderView}
use scrybe.Sessions.Retention.{
  Destination, Chrono, other, not_moved, TrashEntry, IndexFile, FileSystem, Tree,
}
use scrybe.Sessions.Retention.Index.{insert, lookup-insert_same}
use scrybe.Sessions.Retention.Disk.{Retention, caught, write_index}
use scrybe.Sessions.Retention.Disk.Seen.{
  Sight, sees, attempt-Seen, required-Seen, write_index-Seen, Either, caught-Seen,
}
use scrybe.Sessions.Retention.Retain
use scrybe.Sessions.Retention.Retain.{retain}
use scrybe.Sessions.Retention.Retain.Placed.{
  Stays, HasMoved, IsMarked, IsEntered, Stays-marked, IsMarked-marked,
}

module _ (chrono : Chrono) (fs : FileSystem) (folder : Text) (view : FolderView)
    (before : Sight chrono fs) (destination : Destination) (now : chrono.DateTime)
    (retention_days : ℕ) where
  abbrev pub Still : Sight chrono fs → Type 0
  Still = Stays chrono fs folder view before

  abbrev pub Marked : ℕ → Sight chrono fs → Type 0
  Marked = IsMarked chrono fs folder view before

  abbrev pub Entered : ℕ → Sight chrono fs → Type 0
  Entered marker = IsEntered chrono fs folder view before marker now retention_days

  abbrev pub Away : Sight chrono fs → Type 0
  Away = HasMoved chrono fs folder view before destination now retention_days

  -- in one of the two places
  abbrev pub Placed : Tree chrono fs → Type 0
  Placed t = Still (sees chrono fs t) ⊎ Away (sees chrono fs t)

  abbrev pub Somewhere : Sight chrono fs → Type 0
  Somewhere v = Still v ⊎ Away v

  -- an action of a move, from what holds before it to what holds after it
  abbrev pub Leads :
      {A : Type 0}
      → (Sight chrono fs → Type 0)
      → (A → Sight chrono fs → Type 0)
      → Retention chrono fs A
      → Type 0
  Leads P Q m = Ensures Placed (λ a t. Q a (sees chrono fs t)) (λ t. P (sees chrono fs t)) m

  unmarked :
      (marker : ℕ) (removed : Bool) (t : Tree chrono fs)
      → Still (sees chrono fs t)
      → Still
          (sees chrono fs (if removed then Retain.set_marker chrono fs folder marker none t else t))
  unfolding Retain.set_marker
  unmarked marker true t k =
      Stays-marked chrono fs folder view before (sees chrono fs t) marker none k
  unmarked marker false t k = k

  unmark-Still : (marker : ℕ) → Leads Still (λ _. Still) (Retain.unmark chrono fs folder marker)
  unfolding Retain.unmark
  unmark-Still marker =
      Ensures-bind _ _ (attempt-Seen chrono fs Still Somewhere)
        λ removed. record { at = unmarked marker removed }

  undo-Leads :
      (marker : ℕ) (Q : Sight chrono fs → Type 0)
      → Leads Still (λ _. Q) (Retain.undo chrono fs folder marker)
  unfolding Retain.undo
  undo-Leads marker Q = Ensures-bind _ _ (unmark-Still marker) λ _. Ensures-raise _ (λ s k. inl k)

  checked-Marked :
      (marker : ℕ)
      → Leads (Marked marker) (λ _. Marked marker) (Retain.checked chrono fs folder marker)
  unfolding Retain.checked
  checked-Marked marker =
      Ensures-bind _ _ (attempt-Seen chrono fs (Marked marker) Somewhere) λ succeeded.
        Ensures-if succeeded _ _ (λ _. Ensures-pure tt (λ s k. k))
          (λ _. record { at = λ s k. (undo-Leads marker (Marked marker)).at s k.stays })

  pub mark-Marked :
      (marker : ℕ) → Leads Still (λ _. Marked marker) (Retain.mark chrono fs folder marker)
  unfolding Retain.mark Retain.set_marker
  mark-Marked marker =
      Ensures-bind _ _ (required-Seen chrono fs Still Somewhere (λ v k. inl k)) λ _.
        Ensures-bind {Q = λ _ t. Still (sees chrono fs t)} _ _
          (record {
            at = λ s k.
                Stays-marked chrono fs folder view before (sees chrono fs s) marker (some other) k;
          })
          λ _. Ensures-bind _ _ (attempt-Seen chrono fs Still Somewhere) λ wrote.
            Ensures-bind {Q = λ _ t. Marked marker (sees chrono fs t)} _ _
              (Ensures-if wrote _ _
                (λ _. record {
                  at = λ s k.
                      IsMarked-marked chrono fs folder view before (sees chrono fs s) marker k;
                })
                (λ _. undo-Leads marker (Marked marker)))
              λ _. Ensures-bind _ _ (checked-Marked marker) λ _. checked-Marked marker

  abbrev reindexed :
      (file : IndexFile chrono) (v : Sight chrono fs)
      → Still v
      → Still (record v { index_file = file })
  reindexed file v k = record {
    others = k.others;
    found = k.found;
    here = k.here;
    same = k.same;
    trash_same = k.trash_same;
    archive_same = k.archive_same;
  }

  abbrev pub entry : ℕ → TrashEntry chrono
  entry marker = record {
    trashed_at = now;
    retention_days = retention_days;
    marker = marker;
    purging = false;
  }

  pub enter-Entered :
      (marker : ℕ) (index : List (Text × TrashEntry chrono))
      → Leads
          (Marked marker)
          (λ r v. Either chrono fs (Entered marker v) (Still v) r)
          (caught chrono fs (write_index chrono fs (insert folder (entry marker) index)))
  enter-Entered marker index =
      caught-Seen chrono fs (Marked marker) (Entered marker) Still Somewhere _ (
        write_index-Seen chrono fs (Marked marker) (Entered marker) Still _ (λ v k. k.stays)
          (λ v k. reindexed _ v k.stays)
          (λ v k. record {
            stays = reindexed _ v k.stays;
            authorizes = k.authorizes;
            index = insert folder (entry marker) index;
            on_disk = refl;
            listed = lookup-insert_same folder (entry marker) index;
          }))

  pub entered-Entered :
      (marker : ℕ) (r : Result ErrorCode (Unit {0}))
      → Leads
          (λ v. Either chrono fs (Entered marker v) (Still v) r)
          (λ _. Entered marker)
          (Retain.entered chrono fs folder marker r)
  unfolding Retain.entered
  entered-Entered marker (ok _) = Ensures-pure tt (λ s k. k)
  entered-Entered marker (err _) = undo-Leads marker (Entered marker)

  either_Still :
      (r : Result ErrorCode (Unit {0})) (v : Sight chrono fs)
      → Either chrono fs (Still v) (Still v) r
      → Still v
  either_Still (ok _) v k = k
  either_Still (err _) v k = k

  -- taking the entry back leaves the session where it is, whether it is written or not
  pub withdraw-Leads :
      (marker : ℕ) (index : List (Text × TrashEntry chrono)) (Q : Sight chrono fs → Type 0)
      → Leads
          (Entered marker)
          (λ _. Q)
          (Retain.trashed_away chrono fs folder marker index not_moved)
  unfolding Retain.trashed_away
  withdraw-Leads marker index Q =
      Ensures-bind _ _
        (caught-Seen chrono fs (Entered marker) Still Still Somewhere _ (
          write_index-Seen chrono fs (Entered marker) Still Still _ (λ v k. k.stays)
            (λ v k. reindexed _ v k.stays) (λ v k. reindexed _ v k.stays)))
        λ r. record { at = λ s k. (undo-Leads marker Q).at s (either_Still r (sees chrono fs s) k) }
