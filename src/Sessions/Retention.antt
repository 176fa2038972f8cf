-- ===== src/Sessions/Retention.antt =====
-- scrybe-application/src/sessions/retention.rs: sessions that are moved to the trash or the archive,
-- and the index of the former. An operation of the file system may fail wherever it is used. The names
-- that the service makes for itself, of staged folders and of their authorizations, hold a fresh
-- marker and are names of their own here. Instants are the chrono crate's.
pub mod Index
pub mod Disk
pub mod Staging
pub mod Retain
pub mod Sweep
pub mod Window
use scrybe.Common.{ℕ, Bool, Option, List}
use scrybe.Common.Int.{ℤ}
use scrybe.Text.{Text}
use scrybe.Sessions.Scan.{FolderView}

pub data Destination : Type 0 where
  trash archive : Destination

pub record SweepOutcome : Type 0 where
  pub removed : List Text
  pub retained : List Text
  pub forgotten : List Text

-- chrono's instants, and the whole seconds of `signed_duration_since`
pub record Chrono : Type 1 where
  pub DateTime : Type 0
  pub seconds_since : DateTime → DateTime → ℤ

-- what a marker file or an authorization says: the text of this marker, or some other text
pub data Content : Type 0 where
  names : ℕ → Content
  other : Content

-- a folder, with its marker files by the marker in their name
pub record Folder : Type 0 where
  pub view : FolderView
  pub markers : ℕ → Option Content

pub data Node : Type 0 where
  directory : Folder → Node
  not_a_directory : Node

-- a retention directory: not there, one, or something else of that name
pub data Presence : Type 0 where
  absent ordinary occupied : Presence

-- how a move or a replacement ends: done, failed, or done without being known to be durable
pub data Moved : Type 0 where
  done not_moved moved_not_durable : Moved

pub data IndexChange : Type 0 where
  unchanged dirty persisted : IndexChange

module _ (chrono : Chrono) where
  pub record TrashEntry : Type 0 where
    pub trashed_at : chrono.DateTime
    pub retention_days : ℕ
    pub marker : ℕ
    pub purging : Bool

  -- the file `retention.toml`
  pub data IndexFile : Type 0 where
    missing : IndexFile
    table : List (Text × TrashEntry) → IndexFile
    invalid : IndexFile

-- The file system as the service sees it: a removal of a folder that fails leaves some folder.
pub record FileSystem : Type 1 where
  pub is_absolute : Text → Bool
  pub World : Type 0
  pub attempt : World → World × Bool
  pub outcome : World → World × Moved
  pub new_marker : World → World × ℕ
  pub remove_dir_all : Folder → World → World × Option Folder

-- the storage root, its two retention directories, and what the trash holds beside folders
pub record Tree (chrono : Chrono) (fs : FileSystem) : Type 0 where
  pub world : fs.World
  pub root : Text → Option Node
  pub trash_directory : Presence
  pub archive_directory : Presence
  pub trashed : Text → Option Node
  pub archived : Text → Option Node
  pub staging : ℕ → Option Node
  pub authorization : ℕ → Option Content
  pub index_file : IndexFile chrono
