-- ===== src/Sessions/Retention/Disk.antt =====
-- scrybe-application/src/sessions/retention.rs: what the service asks of the file system, each
-- operation with the failures that the service tells apart.
pub mod Quiet
pub mod Seen
use scrybe.Common.{
  ℕ, Bool, true, false, ◌&&◌, Option, none, some, is_some, List, [], ◌==◌, if◌then◌else◌,
}
use scrybe.Common.Action.{Result, ok, err, Action, pure, raise, gets, modify, ◌>>=◌, ◌>>◌}
use scrybe.Text.{Text, text_eq}
use scrybe.Sessions.Error.{ErrorCode, storage_unavailable}
use scrybe.Sessions.Identity.{validate}
use scrybe.Sessions.Scan.{classify}
use scrybe.Sessions.Retention.{
  Chrono, Content, names, other, Folder, Node, directory, not_a_directory, Moved, done, not_moved,
  moved_not_durable, TrashEntry, IndexFile, missing, table, invalid, FileSystem, Tree,
}

abbrev pub put_name {ℓ} : {A : Type ℓ} → Text → A → (Text → A) → Text → A
put_name name a map g = if text_eq g name then a else map g

abbrev pub put_marker {ℓ} : {A : Type ℓ} → ℕ → A → (ℕ → A) → ℕ → A
put_marker marker a map m = if m == marker then a else map m

-- does a file say just this marker
abbrev pub says : ℕ → Option Content → Bool
says marker (some (names m)) = m == marker
says marker (some other) = false
says marker none = false

module _ (chrono : Chrono) (fs : FileSystem) where
  abbrev pub Retention : Type 0 → Type 0
  Retention A = Action (Tree chrono fs) ErrorCode A

  -- an operation whose failure the caller looks at
  unfoldable pub attempt : Retention Bool
  attempt s =
      let (world, succeeded) = fs.attempt s.world in (ok succeeded, record s { world = world })

  succeed : Bool → Retention (Unit {0})
  succeed true = pure tt
  succeed false = raise storage_unavailable

  -- an operation that must succeed
  unfoldable pub required : Retention (Unit {0})
  unfolding succeed
  required = attempt >>= succeed

  -- a result that the caller looks at or drops
  unfoldable pub caught : {A : Type 0} → Retention A → Retention (Result ErrorCode A)
  caught m s = let (result, t) = m s in (ok result, t)

  loaded : IndexFile chrono → Retention (List (Text × TrashEntry chrono))
  loaded missing = pure []
  loaded (table index) = pure index
  loaded invalid = raise storage_unavailable

  -- `Index::read`
  unfoldable pub read_index : Retention (List (Text × TrashEntry chrono))
  unfolding loaded
  read_index = do required; file ← gets (λ s. s.index_file); loaded file

  outcome : Retention Moved
  outcome s = let (world, moved) = fs.outcome s.world in (ok moved, record s { world = world })

  replaced : List (Text × TrashEntry chrono) → Moved → Retention (Unit {0})
  replaced index done = modify (λ s. record s { index_file = table index })
  replaced index not_moved = raise storage_unavailable
  replaced index moved_not_durable = do
    modify (λ s. record s { index_file = table index })
    raise storage_unavailable

  -- `Index::write`
  unfoldable pub write_index : List (Text × TrashEntry chrono) → Retention (Unit {0})
  unfolding outcome replaced
  write_index index = outcome >>= replaced index

  -- a move to a free name
  moving :
      (Node → Tree chrono fs → Tree chrono fs) → Option Node → Option Node → Moved → Retention Moved
  moving move none target moved = pure not_moved
  moving move (some node) (some _) moved = pure not_moved
  moving move (some node) none not_moved = pure not_moved
  moving move (some node) none done = do modify (move node); pure done
  moving move (some node) none moved_not_durable = do modify (move node); pure moved_not_durable

  unfoldable pub durable_rename :
      (source target : Tree chrono fs → Option Node)
      → (Node → Tree chrono fs → Tree chrono fs)
      → Retention Moved
  unfolding outcome moving
  durable_rename source target move = do
    moved ← outcome
    from ← gets source
    to ← gets target
    moving move from to moved
