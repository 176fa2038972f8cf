-- ===== src/Sessions/Retention/Disk/Quiet.antt =====
-- The operations of the file system that leave every folder where it is.
use scrybe.Common.{◌≡◌, refl, sym, ap, ◌∙◌, Bool, true, false, Option, none, some, List, []}
use scrybe.Common.Action.{
  Ensures, Ensures-bind, Ensures-pure, Ensures-raise, Keeps, Keeps-bind, Keeps-pure, Keeps-raise,
  ◌>>=◌,
}
use scrybe.Text.{Text}
use scrybe.Sessions.Retention.{
  Chrono, Node, Moved, done, not_moved, moved_not_durable, TrashEntry, IndexFile, missing, table,
  invalid, FileSystem, Tree,
}
use scrybe.Sessions.Retention.Disk.{
  Retention, attempt, succeed, required, caught, loaded, read_index, outcome, replaced, write_index,
  moving, durable_rename,
}

-- the folders that are sessions of the root or that the service has put away
pub record Folders : Type 0 where
  pub root : Text → Option Node
  pub trashed : Text → Option Node
  pub archived : Text → Option Node

module _ (chrono : Chrono) (fs : FileSystem) where
  abbrev pub folders : Tree chrono fs → Folders
  folders t = record { root = t.root; trashed = t.trashed; archived = t.archived }

  -- an operation that changes none of them
  abbrev pub IsQuiet : {A : Type 0} → Retention chrono fs A → Type 0
  IsQuiet m = Keeps folders m

  pub attempt-IsQuiet : IsQuiet (attempt chrono fs)
  unfolding attempt
  attempt-IsQuiet = record { same = λ s. refl }

  succeed-IsQuiet : (b : Bool) → IsQuiet (succeed chrono fs b)
  unfolding succeed
  succeed-IsQuiet true = Keeps-pure tt
  succeed-IsQuiet false = Keeps-raise _

  pub required-IsQuiet : IsQuiet (required chrono fs)
  unfolding required
  required-IsQuiet = Keeps-bind _ _ attempt-IsQuiet succeed-IsQuiet

  pub caught-IsQuiet :
      {A : Type 0} (m : Retention chrono fs A) → IsQuiet m → IsQuiet (caught chrono fs m)
  unfolding caught
  caught-IsQuiet m k = record { same = k.same }

  outcome-IsQuiet : IsQuiet (outcome chrono fs)
  unfolding outcome
  outcome-IsQuiet = record { same = λ s. refl }

  replaced-IsQuiet :
      (index : List (Text × TrashEntry chrono)) (moved : Moved)
      → IsQuiet (replaced chrono fs index moved)
  unfolding replaced
  replaced-IsQuiet index done = record { same = λ s. refl }
  replaced-IsQuiet index not_moved = Keeps-raise _
  replaced-IsQuiet index moved_not_durable =
      Keeps-bind _ _ (record { same = λ s. refl }) λ _. Keeps-raise _

  pub write_index-IsQuiet :
      (index : List (Text × TrashEntry chrono)) → IsQuiet (write_index chrono fs index)
  unfolding write_index
  write_index-IsQuiet index = Keeps-bind _ _ outcome-IsQuiet (replaced-IsQuiet index)

  moving-Ensures :
      (K : Folders → Type 0) (move : Node → Tree chrono fs → Tree chrono fs)
      → ((node : Node) (t : Tree chrono fs) → K (folders t) → K (folders (move node t)))
      → (from to : Option Node) (moved : Moved)
      → Ensures
          (λ t. K (folders t))
          (λ _ t. K (folders t))
          (λ t. K (folders t))
          (moving chrono fs move from to moved)
  unfolding moving ◌>>=◌
  moving-Ensures K move h none to moved = record { at = λ s k. k }
  moving-Ensures K move h (some node) (some _) moved = record { at = λ s k. k }
  moving-Ensures K move h (some node) none not_moved = record { at = λ s k. k }
  moving-Ensures K move h (some node) none done = record { at = λ s k. h node s k }
  moving-Ensures K move h (some node) none moved_not_durable = record { at = λ s k. h node s k }

  -- a rename keeps what its move keeps
  pub durable_rename-Ensures :
      (K : Folders → Type 0) (source target : Tree chrono fs → Option Node)
      (move : Node → Tree chrono fs → Tree chrono fs)
      → ((node : Node) (t : Tree chrono fs) → K (folders t) → K (folders (move node t)))
      → Ensures
          (λ t. K (folders t))
          (λ _ t. K (folders t))
          (λ t. K (folders t))
          (durable_rename chrono fs source target move)
  unfolding durable_rename outcome
  durable_rename-Ensures K source target move h =
      Ensures-bind {Q = λ _ t. K (folders t)} _ _ (record { at = λ s k. k })
        λ moved.
          Ensures-bind {Q = λ _ t. K (folders t)} _ _ (record { at = λ s k. k })
            λ from.
              Ensures-bind {Q = λ _ t. K (folders t)} _ _ (record { at = λ s k. k })
                λ to. moving-Ensures K move h from to moved

  -- the entries that an index file has
  abbrev pub entries : IndexFile chrono → List (Text × TrashEntry chrono)
  entries (table index) = index
  entries missing = []
  entries invalid = []

  -- the folders and the file as they were
  abbrev Same : Tree chrono fs → Tree chrono fs → Type 0
  Same t u = (folders u ≡ folders t) × (u.index_file ≡ t.index_file)

  succeed-Same :
      (t : Tree chrono fs) (b : Bool)
      → Ensures (λ u. folders u ≡ folders t) (λ _. Same t) (Same t) (succeed chrono fs b)
  unfolding succeed
  succeed-Same t true = Ensures-pure tt (λ s k. k)
  succeed-Same t false = Ensures-raise _ (λ s k. k.0)

  pub required-Same :
      (t : Tree chrono fs)
      → Ensures
          (λ u. folders u ≡ folders t)
          (λ _ u. (folders u ≡ folders t) × (u.index_file ≡ t.index_file))
          (λ u. (folders u ≡ folders t) × (u.index_file ≡ t.index_file))
          (required chrono fs)
  unfolding required attempt
  required-Same t = Ensures-bind {Q = λ _. Same t} _ _ (record { at = λ s k. k }) (succeed-Same t)

  loaded-Same :
      (t : Tree chrono fs) (file : IndexFile chrono)
      → Ensures
          (λ u. folders u ≡ folders t)
          (λ index u. (folders u ≡ folders t) × (index ≡ entries t.index_file))
          (λ u. Same t u × (u.index_file ≡ file))
          (loaded chrono fs file)
  unfolding loaded
  loaded-Same t missing = Ensures-pure _ (λ s k. (k.0.0, ap entries (sym k.1 ∙ k.0.1)))
  loaded-Same t (table index) = Ensures-pure _ (λ s k. (k.0.0, ap entries (sym k.1 ∙ k.0.1)))
  loaded-Same t invalid = Ensures-raise _ (λ s k. k.0.0)

  -- reading the index leaves the folders, and gives the entries of its file
  pub read_index-Same :
      (t : Tree chrono fs)
      → Ensures
          (λ u. folders u ≡ folders t)
          (λ index u. (folders u ≡ folders t) × (index ≡ entries t.index_file))
          (λ u. (folders u ≡ folders t) × (u.index_file ≡ t.index_file))
          (read_index chrono fs)
  unfolding read_index
  read_index-Same t = Ensures-bind _ _ (required-Same t) λ _.
      Ensures-bind {Q = λ file u. Same t u × (u.index_file ≡ file)} _ _
        (record { at = λ s k. (k, refl) }) (loaded-Same t)
