-- ===== src/Sessions/Retention/Retain.antt =====
-- scrybe-application/src/sessions/retention.rs: moving a session to the trash or to the archive.
pub mod Placed
pub mod Steps
pub mod Safety
use scrybe.Common.{ℕ, Bool, true, false, Option, none, some, List, ◌==◌, if◌then◌else◌}
use scrybe.Common.Action.{Result, ok, err, pure, raise, gets, modify, ◌>>=◌, ◌>>◌}
use scrybe.Text.{Text, text_eq}
use scrybe.Sessions.Error.{ErrorCode, storage_unavailable, session_not_found}
use scrybe.Sessions.Retention.{
  Destination, trash, archive, Chrono, Content, names, other, Folder, Node, directory,
  not_a_directory, Presence, absent, ordinary, occupied, Moved, done, not_moved, moved_not_durable,
  TrashEntry, FileSystem, Tree,
}
use scrybe.Sessions.Retention.Index.{insert, remove}
use scrybe.Sessions.Retention.Disk.{
  put_name, put_marker, Retention, attempt, required, caught, read_index, write_index,
  durable_rename,
}

module _ (chrono : Chrono) (fs : FileSystem) where
  -- what a reading of the metadata of a name gives, with the code of its failure
  inspect : ErrorCode → (Tree chrono fs → Option Node) → Retention chrono fs (Option Node)
  inspect code at = do read ← attempt chrono fs; if read then pure tt else raise code; gets at

  source_directory : Option Node → Retention chrono fs (Unit {0})
  source_directory (some (directory _)) = pure tt
  source_directory _ = raise session_not_found

  set_present : Destination → Tree chrono fs → Tree chrono fs
  set_present trash s = record s { trash_directory = ordinary }
  set_present archive s = record s { archive_directory = ordinary }

  present : Destination → Tree chrono fs → Presence
  present trash s = s.trash_directory
  present archive s = s.archive_directory

  ensure_present : Destination → Presence → Retention chrono fs (Unit {0})
  unfolding set_present
  ensure_present destination ordinary = pure tt
  ensure_present destination occupied = raise storage_unavailable
  ensure_present destination absent = do
    required chrono fs
    modify (set_present destination)
    required chrono fs

  unfoldable pub ensure_directory : Destination → Retention chrono fs (Unit {0})
  unfolding present ensure_present
  ensure_directory destination = do
    required chrono fs
    there ← gets (present destination)
    ensure_present destination there

  held : Destination → Text → Tree chrono fs → Option Node
  held trash folder s = s.trashed folder
  held archive folder s = s.archived folder

  free : Option Node → Retention chrono fs (Unit {0})
  free none = pure tt
  free (some _) = raise storage_unavailable

  moved_away : Moved → Retention chrono fs (Unit {0})
  moved_away done = pure tt
  moved_away _ = raise storage_unavailable

  unfoldable pub move_to_archive : Text → Retention chrono fs (Unit {0})
  unfolding moved_away
  move_to_archive folder =
      durable_rename chrono fs (λ s. s.root folder) (λ s. s.archived folder)
        (λ node s. record s {
          root = put_name folder none s.root;
          archived = put_name folder (some node) s.archived;
        })
      >>= moved_away

  new_marker : Retention chrono fs ℕ
  new_marker s =
      let (world, marker) = fs.new_marker s.world in (ok marker, record s { world = world })

  -- a folder with a file of this marker that has this content, or without one
  unfoldable pub marked : ℕ → Option Content → Option Node → Option Node
  marked marker content (some (directory found)) =
      some (directory (record found { markers = put_marker marker content found.markers }))
  marked marker content node = node

  set_marker : Text → ℕ → Option Content → Tree chrono fs → Tree chrono fs
  unfolding marked
  set_marker folder marker content s = record s {
    root = put_name folder (marked marker content (s.root folder)) s.root;
  }

  -- the removal of the marker file, whose result is dropped
  unmark : Text → ℕ → Retention chrono fs (Unit {0})
  unfolding set_marker
  unmark folder marker = do
    removed ← attempt chrono fs
    modify (λ s. if removed then set_marker folder marker none s else s)

  -- the error of a step after which the marker file is removed
  undo : Text → ℕ → Retention chrono fs (Unit {0})
  unfolding unmark
  undo folder marker = do unmark folder marker; raise storage_unavailable

  -- a step after the write of the marker file
  checked : Text → ℕ → Retention chrono fs (Unit {0})
  unfolding undo
  checked folder marker = do
    succeeded ← attempt chrono fs
    if succeeded then pure tt else undo folder marker

  -- the marker file is made, written, flushed, and synchronized in its folder
  unfoldable pub mark : Text → ℕ → Retention chrono fs (Unit {0})
  unfolding set_marker undo checked
  mark folder marker = do
    required chrono fs
    modify (set_marker folder marker (some other))
    wrote ← attempt chrono fs
    if wrote then modify (set_marker folder marker (some (names marker))) else undo folder marker
    checked folder marker
    checked folder marker

  pub entered : Text → ℕ → Result ErrorCode (Unit {0}) → Retention chrono fs (Unit {0})
  unfolding undo
  entered folder marker (ok _) = pure tt
  entered folder marker (err _) = undo folder marker

  -- the entry is taken back where the folder did not move
  pub trashed_away :
      Text → ℕ → List (Text × TrashEntry chrono) → Moved → Retention chrono fs (Unit {0})
  unfolding undo
  trashed_away folder marker index done = pure tt
  trashed_away folder marker index moved_not_durable = raise storage_unavailable
  trashed_away folder marker index not_moved = do
    cleanup ← caught chrono fs (write_index chrono fs (remove folder index))
    undo folder marker

  unfoldable pub move_to_trash : Text → chrono.DateTime → ℕ → Retention chrono fs (Unit {0})
  unfolding new_marker entered trashed_away
  move_to_trash folder now retention_days = do
    index ← read_index chrono fs
    marker ← new_marker
    mark folder marker
    let authorizing =
        insert folder
          (record {
            trashed_at = now;
            retention_days = retention_days;
            marker = marker;
            purging = false;
          })
          index
    wrote ← caught chrono fs (write_index chrono fs authorizing)
    entered folder marker wrote
    moved ←
        durable_rename chrono fs (λ s. s.root folder) (λ s. s.trashed folder)
          (λ node s. record s {
            root = put_name folder none s.root;
            trashed = put_name folder (some node) s.trashed;
          })
    trashed_away folder marker authorizing moved

  move_to : Destination → Text → chrono.DateTime → ℕ → Retention chrono fs (Unit {0})
  move_to archive folder now retention_days = move_to_archive folder
  move_to trash folder now retention_days = move_to_trash folder now retention_days

  -- the reference is the name of a folder of the root
  unfoldable pub retain : Text → Destination → chrono.DateTime → ℕ → Retention chrono fs (Unit {0})
  unfolding inspect source_directory held free move_to
  retain folder destination now retention_days = do
    source ← inspect session_not_found (λ s. s.root folder)
    source_directory source
    ensure_directory destination
    target ← inspect storage_unavailable (held destination folder)
    free target
    move_to destination folder now retention_days
