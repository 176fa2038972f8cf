-- ===== src/Sessions/Retention/Retain/Placed.antt =====
-- Where a session is after the service was asked to move it away: in one place, and in the trash only
-- with the entry and the marker that a sweep asks for.
use scrybe.Common.{
  ℕ, ◌≡◌, sym, ap, ◌∙◌, true, false, Option, none, some, List, if◌then◌else◌, ◌==◌, arith,
}
use scrybe.Text.{Text, text_eq, text_eq_refl}
use scrybe.Sessions.Scan.{FolderView}
use scrybe.Sessions.Retention.{
  Destination, trash, archive, Chrono, Content, names, Folder, Node, directory, TrashEntry, table,
  FileSystem,
}
use scrybe.Sessions.Retention.Index.{lookup}
use scrybe.Sessions.Retention.Disk.Seen.{Sight}
use scrybe.Sessions.Retention.Disk.{put_name, put_marker}
use scrybe.Sessions.Retention.Retain.{marked}

module _ (chrono : Chrono) (fs : FileSystem) where
  module _ (folder : Text) (view : FolderView) (before : Sight chrono fs) where
    -- every other name holds what it held
    abbrev pub Others : Sight chrono fs → Type 0
    Others v =
        (g : Text)
        → text_eq g folder ≡ false
        → (v.root g ≡ before.root g)
          × (v.trashed g ≡ before.trashed g)
          × (v.archived g ≡ before.archived g)

    -- the session is under the root, and neither directory has taken it
    pub record Stays (v : Sight chrono fs) : Type 0 where
      pub others : Others v
      pub found : Folder
      pub here : v.root folder ≡ some (directory found)
      pub same : found.view ≡ view
      pub trash_same : v.trashed folder ≡ before.trashed folder
      pub archive_same : v.archived folder ≡ before.archived folder

    -- the session is in the trash and not under the root, and the index that is on the disk has an
    -- entry for it, with the instant and the window of the move and the marker that is in the folder
    pub record IsTrashed (now : chrono.DateTime) (retention_days : ℕ) (v : Sight chrono fs)
        : Type 0 where
      pub others : Others v
      pub found : Folder
      pub there : v.trashed folder ≡ some (directory found)
      pub gone : v.root folder ≡ none
      pub same : found.view ≡ view
      pub archive_same : v.archived folder ≡ before.archived folder
      pub index : List (Text × TrashEntry chrono)
      pub marker : ℕ
      pub on_disk : v.index_file ≡ table index
      pub listed :
          lookup folder index
          ≡ some (record {
            trashed_at = now;
            retention_days = retention_days;
            marker = marker;
            purging = false;
          })
      pub authorizes : found.markers marker ≡ some (names marker)

    pub record IsArchived (v : Sight chrono fs) : Type 0 where
      pub others : Others v
      pub found : Folder
      pub there : v.archived folder ≡ some (directory found)
      pub gone : v.root folder ≡ none
      pub same : found.view ≡ view
      pub trash_same : v.trashed folder ≡ before.trashed folder

    abbrev pub HasMoved : Destination → chrono.DateTime → ℕ → Sight chrono fs → Type 0
    HasMoved trash now retention_days v = IsTrashed now retention_days v
    HasMoved archive now retention_days v = IsArchived v

    -- the session under the root has the file of this marker
    pub record IsMarked (marker : ℕ) (v : Sight chrono fs) : Type 0 where
      pub stays : Stays v
      pub authorizes : stays.found.markers marker ≡ some (names marker)

    -- and the index on the disk has its entry
    pub record IsEntered (marker : ℕ) (now : chrono.DateTime) (retention_days : ℕ)
        (v : Sight chrono fs) : Type 0 where
      pub stays : Stays v
      pub authorizes : stays.found.markers marker ≡ some (names marker)
      pub index : List (Text × TrashEntry chrono)
      pub on_disk : v.index_file ≡ table index
      pub listed :
          lookup folder index
          ≡ some (record {
            trashed_at = now;
            retention_days = retention_days;
            marker = marker;
            purging = false;
          })

    same_number : (n : ℕ) → (n == n) ≡ true
    same_number n = ground arith

    abbrev put_here : {A : Type 0} (a : A) (map : Text → A) → put_name folder a map folder ≡ a
    put_here a map = ap (λ b. if b then a else map folder) (text_eq_refl folder)

    abbrev put_elsewhere :
        {A : Type 0} (a : A) (map : Text → A) (g : Text)
        → text_eq g folder ≡ false
        → put_name folder a map g ≡ map g
    put_elsewhere a map g e = ap (λ b. if b then a else map g) e

    unfoldable pub Stays-marked :
        (v : Sight chrono fs) (marker : ℕ) (content : Option Content)
        → Stays v
        → Stays (record v {
          root = put_name folder (marked chrono fs marker content (v.root folder)) v.root;
        })
    unfolding marked
    Stays-marked v marker content k = record {
      others = λ g e. let (r, t, a) = k.others g e in (put_elsewhere _ v.root g e ∙ r, t, a);
      found = record k.found { markers = put_marker marker content k.found.markers };
      here = put_here _ v.root ∙ ap (marked chrono fs marker content) k.here;
      same = k.same;
      trash_same = k.trash_same;
      archive_same = k.archive_same;
    }

    pub IsMarked-marked :
        (v : Sight chrono fs) (marker : ℕ)
        → Stays v
        → IsMarked marker (record v {
          root =
              put_name folder
                (marked chrono fs marker (some (names marker)) (v.root folder))
                v.root;
        })
    unfolding Stays-marked
    IsMarked-marked v marker k = record {
      stays = Stays-marked v marker (some (names marker)) k;
      authorizes =
          ap (λ b. if b then some (names marker) else k.found.markers marker) (same_number marker);
    }

    pub IsEntered-moved :
        (v : Sight chrono fs) (marker : ℕ) (now : chrono.DateTime) (retention_days : ℕ)
        (node : Node)
        → v.root folder ≡ some node
        → IsEntered marker now retention_days v
        → IsTrashed now retention_days (record v {
          root = put_name folder none v.root;
          trashed = put_name folder (some node) v.trashed;
        })
    IsEntered-moved v marker now retention_days node e k = record {
      others = λ g n.
          let (r, t, a) = k.stays.others g n in
          (put_elsewhere _ v.root g n ∙ r, put_elsewhere _ v.trashed g n ∙ t, a);
      found = k.stays.found;
      there = put_here _ v.trashed ∙ sym e ∙ k.stays.here;
      gone = put_here _ v.root;
      same = k.stays.same;
      archive_same = k.stays.archive_same;
      index = k.index;
      marker = marker;
      on_disk = k.on_disk;
      listed = k.listed;
      authorizes = k.authorizes;
    }

    pub Stays-archived :
        (v : Sight chrono fs) (node : Node)
        → v.root folder ≡ some node
        → Stays v
        → IsArchived (record v {
          root = put_name folder none v.root;
          archived = put_name folder (some node) v.archived;
        })
    Stays-archived v node e k = record {
      others = λ g n.
          let (r, t, a) = k.others g n in
          (put_elsewhere _ v.root g n ∙ r, t, put_elsewhere _ v.archived g n ∙ a);
      found = k.found;
      there = put_here _ v.archived ∙ sym e ∙ k.here;
      gone = put_here _ v.root;
      same = k.same;
      trash_same = k.trash_same;
    }
