-- ===== src/Sessions/Retention/Retain/Safety.antt =====
-- A whole move of a session, on a file system whose operations fail as they like.
use scrybe.Common.{ℕ, ◌≡◌, ◌⊎◌, inl, inr, refl, Option, none, some, List}
use scrybe.Common.Action.{Outcome, Ensures, Ensures-bind, Ensures-pure, Ensures-raise, Ensures-if}
use scrybe.Text.{Text}
use scrybe.Sessions.Error.{ErrorCode}
use scrybe.Sessions.Scan.{FolderView}
use scrybe.Sessions.Retention.{
  Destination, trash, archive, Chrono, Folder, Node, directory, not_a_directory, Presence, absent,
  ordinary, occupied, Moved, done, not_moved, moved_not_durable, TrashEntry, FileSystem, Tree,
}
use scrybe.Sessions.Retention.Disk.{Retention, required}
use scrybe.Sessions.Retention.Disk.Seen.{
  Sight, sees, attempt-Seen, required-Seen, read_index-Seen, After, durable_rename-Seen,
}
use scrybe.Sessions.Retention.Retain
use scrybe.Sessions.Retention.Retain.{retain}
use scrybe.Sessions.Retention.Retain.Placed.{
  Stays, HasMoved, IsEntered, IsEntered-moved, Stays-archived,
}
use scrybe.Sessions.Retention.Retain.Steps

module _ (chrono : Chrono) (fs : FileSystem) (folder : Text) (view : FolderView)
    (before : Sight chrono fs) (now : chrono.DateTime) (retention_days : ℕ) where
  abbrev Still : Sight chrono fs → Type 0
  Still = Stays chrono fs folder view before

  abbrev Gone : Destination → Sight chrono fs → Type 0
  Gone destination = HasMoved chrono fs folder view before destination now retention_days

  abbrev Somewhere : Destination → Sight chrono fs → Type 0
  Somewhere destination v = Still v ⊎ Gone destination v

  abbrev Placed : Destination → Tree chrono fs → Type 0
  Placed destination t = Still (sees chrono fs t) ⊎ Gone destination (sees chrono fs t)

  abbrev Leads :
      {A : Type 0}
      → Destination
      → (Sight chrono fs → Type 0)
      → (A → Sight chrono fs → Type 0)
      → Retention chrono fs A
      → Type 0
  Leads destination P Q m =
      Ensures (Placed destination) (λ a t. Q a (sees chrono fs t)) (λ t. P (sees chrono fs t)) m

  abbrev Entered : ℕ → Sight chrono fs → Type 0
  Entered marker = IsEntered chrono fs folder view before marker now retention_days

  trashed_away-Gone :
      (marker : ℕ) (index : List (Text × TrashEntry chrono)) (moved : Moved)
      → Ensures
          (Placed trash)
          (λ _ t. Gone trash (sees chrono fs t))
          (λ t. After chrono fs (Entered marker) (Gone trash) moved (sees chrono fs t))
          (Retain.trashed_away chrono fs folder marker index moved)
  unfolding Retain.trashed_away
  trashed_away-Gone marker index done = Ensures-pure tt (λ s k. k)
  trashed_away-Gone marker index moved_not_durable = Ensures-raise _ (λ s k. inr k)
  trashed_away-Gone marker index not_moved =
      Steps.withdraw-Leads chrono fs folder view before trash now retention_days marker index
        (Gone trash)

  move_to_trash-Gone :
      Leads trash Still (λ _. Gone trash) (Retain.move_to_trash chrono fs folder now retention_days)
  unfolding Retain.move_to_trash Retain.new_marker
  move_to_trash-Gone =
      Ensures-bind _ _ (read_index-Seen chrono fs Still (Somewhere trash) (λ v k. inl k)) λ index.
        Ensures-bind {Q = λ _ t. Still (sees chrono fs t)} _ _ (record { at = λ s k. k })
          λ marker.
            Ensures-bind _ _
              (Steps.mark-Marked chrono fs folder view before trash now retention_days marker)
              λ _.
                Ensures-bind _ _
                  (Steps.enter-Entered chrono fs folder view before trash now retention_days marker
                    index)
                  λ wrote.
                    Ensures-bind _ _
                      (Steps.entered-Entered chrono fs folder view before trash now retention_days
                        marker wrote)
                      λ _.
                        Ensures-bind _ _
                          (durable_rename-Seen chrono fs (Entered marker) (Gone trash)
                            (Somewhere trash) _ _ _
                            (λ node t e k.
                              IsEntered-moved chrono fs folder view before (sees chrono fs t) marker
                                now retention_days node e k))
                          (trashed_away-Gone marker _)

  moved_away-Gone :
      (moved : Moved)
      → Ensures
          (Placed archive)
          (λ _ t. Gone archive (sees chrono fs t))
          (λ t. After chrono fs Still (Gone archive) moved (sees chrono fs t))
          (Retain.moved_away chrono fs moved)
  unfolding Retain.moved_away
  moved_away-Gone done = Ensures-pure tt (λ s k. k)
  moved_away-Gone moved_not_durable = Ensures-raise _ (λ s k. inr k)
  moved_away-Gone not_moved = Ensures-raise _ (λ s k. inl k)

  move_to_archive-Gone :
      Leads archive Still (λ _. Gone archive) (Retain.move_to_archive chrono fs folder)
  unfolding Retain.move_to_archive
  move_to_archive-Gone =
      Ensures-bind _ _
        (durable_rename-Seen chrono fs Still (Gone archive) (Somewhere archive) _ _ _
          (λ node t e k. Stays-archived chrono fs folder view before (sees chrono fs t) node e k))
        moved_away-Gone

  move_to-Gone :
      (destination : Destination)
      → Leads destination Still
          (λ _. Gone destination)
          (Retain.move_to chrono fs destination folder now retention_days)
  unfolding Retain.move_to
  move_to-Gone trash = move_to_trash-Gone
  move_to-Gone archive = move_to_archive-Gone

  module _ (destination : Destination) where
    required-Still : Leads destination Still (λ _. Still) (required chrono fs)
    required-Still = required-Seen chrono fs Still (Somewhere destination) (λ v k. inl k)

    inspect-Still :
        (code : ErrorCode) (at : Tree chrono fs → Option Node)
        → Leads destination Still (λ _. Still) (Retain.inspect chrono fs code at)
    unfolding Retain.inspect
    inspect-Still code at =
        Ensures-bind _ _ (attempt-Seen chrono fs Still (Somewhere destination)) λ read.
          Ensures-bind {Q = λ _ t. Still (sees chrono fs t)} _ _
            (Ensures-if read _ _ (λ _. Ensures-pure tt (λ s k. k))
              (λ _. Ensures-raise _ (λ s k. inl k)))
            λ _. record { at = λ s k. k }

    source_directory-Still :
        (node : Option Node)
        → Leads destination Still (λ _. Still) (Retain.source_directory chrono fs node)
    unfolding Retain.source_directory
    source_directory-Still none = Ensures-raise _ (λ s k. inl k)
    source_directory-Still (some not_a_directory) = Ensures-raise _ (λ s k. inl k)
    source_directory-Still (some (directory _)) = Ensures-pure tt (λ s k. k)

    free-Still :
        (node : Option Node) → Leads destination Still (λ _. Still) (Retain.free chrono fs node)
    unfolding Retain.free
    free-Still none = Ensures-pure tt (λ s k. k)
    free-Still (some _) = Ensures-raise _ (λ s k. inl k)

    set_present-Still :
        (d : Destination) (t : Tree chrono fs)
        → Still (sees chrono fs t)
        → Still (sees chrono fs (Retain.set_present chrono fs d t))
    unfolding Retain.set_present
    set_present-Still trash t k = k
    set_present-Still archive t k = k

    ensure_present-Still :
        (presence : Presence)
        → Leads destination Still
            (λ _. Still)
            (Retain.ensure_present chrono fs destination presence)
    unfolding Retain.ensure_present
    ensure_present-Still ordinary = Ensures-pure tt (λ s k. k)
    ensure_present-Still occupied = Ensures-raise _ (λ s k. inl k)
    ensure_present-Still absent = Ensures-bind _ _ required-Still λ _.
        Ensures-bind {Q = λ _ t. Still (sees chrono fs t)} _ _
          (record { at = set_present-Still destination }) λ _. required-Still

    ensure_directory-Still :
        Leads destination Still (λ _. Still) (Retain.ensure_directory chrono fs destination)
    unfolding Retain.ensure_directory
    ensure_directory-Still = Ensures-bind _ _ required-Still λ _.
        Ensures-bind {Q = λ _ t. Still (sees chrono fs t)} _ _ (record { at = λ s k. k })
          ensure_present-Still

    retain-Gone :
        Leads destination Still
          (λ _. Gone destination)
          (retain chrono fs folder destination now retention_days)
    unfolding retain
    retain-Gone = Ensures-bind _ _ (inspect-Still _ _) λ source.
        Ensures-bind _ _ (source_directory-Still source) λ _.
          Ensures-bind _ _ ensure_directory-Still λ _.
            Ensures-bind _ _ (inspect-Still _ _)
              λ target. Ensures-bind _ _ (free-Still target) λ _. move_to-Gone destination

-- Moving a session away, with a file system that fails as it likes. When the move returns, the
-- session's folder is in the destination and not under the root; in the trash, the index on the disk
-- lists it with the instant, the window and the marker that is in the folder. When the move fails, the
-- session is there, or still under the root with neither directory changed at its name. No other name
-- is touched, and the session's files are the same.
pub retain-IsPlaced :
    (chrono : Chrono) (fs : FileSystem) (folder : Text) (destination : Destination)
    (now : chrono.DateTime) (retention_days : ℕ) (found : Folder) (t : Tree chrono fs)
    → t.root folder ≡ some (directory found)
    → let Moves =
        HasMoved chrono fs folder found.view (sees chrono fs t) destination now retention_days in
      Outcome
        (λ u.
          Stays chrono fs folder found.view (sees chrono fs t) (sees chrono fs u)
          ⊎ Moves (sees chrono fs u))
        (λ _ u. Moves (sees chrono fs u))
        (retain chrono fs folder destination now retention_days t)
retain-IsPlaced chrono fs folder destination now retention_days found t here =
    (retain-Gone chrono fs folder found.view (sees chrono fs t) now retention_days destination).at t
      (record {
        others = λ g e. (refl, refl, refl);
        found = found;
        here = here;
        same = refl;
        trash_same = refl;
        archive_same = refl;
      })
