-- ===== src/Sessions/Retention/Disk/Seen.antt =====
-- The operations of the file system as rules about the folders and the index: what holds after each
-- of its ways to end.
use scrybe.Common.{◌≡◌, refl, Bool, true, false, Option, none, some, List}
use scrybe.Common.Action.{
  Result, ok, err, Outcome, Ensures, Ensures-bind, Ensures-pure, Ensures-raise, ◌>>=◌,
}
use scrybe.Text.{Text}
use scrybe.Sessions.Error.{ErrorCode}
use scrybe.Sessions.Retention.{
  Chrono, Node, Moved, done, not_moved, moved_not_durable, TrashEntry, IndexFile, missing, table,
  invalid, FileSystem, Tree,
}
use scrybe.Sessions.Retention.Disk.{
  Retention, attempt, succeed, required, caught, loaded, read_index, outcome, replaced, write_index,
  moving, durable_rename,
}

module _ (chrono : Chrono) (fs : FileSystem) where
  -- what of the tree a move is about
  pub record Sight : Type 0 where
    pub root : Text → Option Node
    pub trashed : Text → Option Node
    pub archived : Text → Option Node
    pub index_file : IndexFile chrono

  abbrev pub sees : Tree chrono fs → Sight
  sees t = record {
    root = t.root;
    trashed = t.trashed;
    archived = t.archived;
    index_file = t.index_file;
  }

  module _ (P R : Sight → Type 0) where
    pub attempt-Seen :
        Ensures (λ t. R (sees t)) (λ _ t. P (sees t)) (λ t. P (sees t)) (attempt chrono fs)
    unfolding attempt
    attempt-Seen = record { at = λ s k. k }

    module _ (h : (v : Sight) → P v → R v) where
      succeed-Seen :
          (b : Bool)
          → Ensures (λ t. R (sees t)) (λ _ t. P (sees t)) (λ t. P (sees t)) (succeed chrono fs b)
      unfolding succeed
      succeed-Seen true = Ensures-pure tt (λ s k. k)
      succeed-Seen false = Ensures-raise _ (λ s k. h _ k)

      pub required-Seen :
          Ensures (λ t. R (sees t)) (λ _ t. P (sees t)) (λ t. P (sees t)) (required chrono fs)
      unfolding required
      required-Seen = Ensures-bind _ _ attempt-Seen succeed-Seen

      loaded-Seen :
          (file : IndexFile chrono)
          → Ensures (λ t. R (sees t)) (λ _ t. P (sees t)) (λ t. P (sees t)) (loaded chrono fs file)
      unfolding loaded
      loaded-Seen missing = Ensures-pure _ (λ s k. k)
      loaded-Seen (table index) = Ensures-pure _ (λ s k. k)
      loaded-Seen invalid = Ensures-raise _ (λ s k. h _ k)

      pub read_index-Seen :
          Ensures (λ t. R (sees t)) (λ _ t. P (sees t)) (λ t. P (sees t)) (read_index chrono fs)
      unfolding read_index
      read_index-Seen =
          Ensures-bind _ _ required-Seen
            λ _. Ensures-bind {Q = λ _ t. P (sees t)} _ _ (record { at = λ s k. k }) loaded-Seen

  module _ (P Q R : Sight → Type 0) (index : List (Text × TrashEntry chrono)) where
    outcome-Seen :
        Ensures (λ t. R (sees t)) (λ _ t. P (sees t)) (λ t. P (sees t)) (outcome chrono fs)
    unfolding outcome
    outcome-Seen = record { at = λ s k. k }

    module _ (unwritten : (v : Sight) → P v → R v)
        (unknown : (v : Sight) → P v → R (record v { index_file = table index }))
        (written : (v : Sight) → P v → Q (record v { index_file = table index })) where
      replaced-Seen :
          (moved : Moved)
          → Ensures
              (λ t. R (sees t))
              (λ _ t. Q (sees t))
              (λ t. P (sees t))
              (replaced chrono fs index moved)
      unfolding replaced ◌>>=◌
      replaced-Seen done = record { at = λ s k. written _ k }
      replaced-Seen not_moved = record { at = λ s k. unwritten _ k }
      replaced-Seen moved_not_durable = record { at = λ s k. unknown _ k }

      -- an index that could not be written may have been written all the same
      pub write_index-Seen :
          Ensures
            (λ t. R (sees t))
            (λ _ t. Q (sees t))
            (λ t. P (sees t))
            (write_index chrono fs index)
      unfolding write_index
      write_index-Seen = Ensures-bind _ _ outcome-Seen replaced-Seen

  -- a result that is looked at
  abbrev pub Either : {A : Type 0} → Type 0 → Type 0 → Result ErrorCode A → Type 0
  Either Q R (ok _) = Q
  Either Q R (err _) = R

  pub caught-Seen :
      {A : Type 0} (P Q R T : Sight → Type 0) (m : Retention chrono fs A)
      → Ensures (λ t. R (sees t)) (λ _ t. Q (sees t)) (λ t. P (sees t)) m
      → Ensures
          (λ t. T (sees t))
          (λ r t. Either (Q (sees t)) (R (sees t)) r)
          (λ t. P (sees t))
          (caught chrono fs m)
  unfolding caught
  caught-Seen {A} P Q R T m h = record { at = λ s k. looked_at (m s) (h.at s k) }
    where
      looked_at :
          (r : Result ErrorCode A × Tree chrono fs)
          → Outcome (λ t. R (sees t)) (λ _ t. Q (sees t)) r
          → Either (Q (sees r.1)) (R (sees r.1)) r.0
      looked_at (ok a, t) k = k
      looked_at (err e, t) k = k

  abbrev pub After : (Sight → Type 0) → (Sight → Type 0) → Moved → Sight → Type 0
  After P Q done v = Q v
  After P Q moved_not_durable v = Q v
  After P Q not_moved v = P v

  module _ (P Q R : Sight → Type 0) (source target : Tree chrono fs → Option Node)
      (move : Node → Tree chrono fs → Tree chrono fs) where
    module _
        (moves : (node : Node) (t : Tree chrono fs)
          → source t ≡ some node
          → P (sees t)
          → Q (sees (move node t))) where
      moving-Seen :
          (from to : Option Node) (moved : Moved)
          → Ensures
              (λ t. R (sees t))
              (λ m t. After P Q m (sees t))
              (λ t. P (sees t) × (source t ≡ from))
              (moving chrono fs move from to moved)
      unfolding moving ◌>>=◌
      moving-Seen none to moved = record { at = λ s k. k.0 }
      moving-Seen (some node) (some _) moved = record { at = λ s k. k.0 }
      moving-Seen (some node) none not_moved = record { at = λ s k. k.0 }
      moving-Seen (some node) none done = record { at = λ s k. moves node s k.1 k.0 }
      moving-Seen (some node) none moved_not_durable = record { at = λ s k. moves node s k.1 k.0 }

      -- what did not move stays, and what moved did so whether it is durable or not
      pub durable_rename-Seen :
          Ensures
            (λ t. R (sees t))
            (λ m t. After P Q m (sees t))
            (λ t. P (sees t))
            (durable_rename chrono fs source target move)
      unfolding durable_rename outcome
      durable_rename-Seen =
          Ensures-bind {Q = λ _ t. P (sees t)} _ _ (record { at = λ s k. k })
            λ moved.
              Ensures-bind {Q = λ from t. P (sees t) × (source t ≡ from)} _ _
                (record { at = λ s k. (k, refl) })
                λ from.
                  Ensures-bind {Q = λ _ t. P (sees t) × (source t ≡ from)} _ _
                    (record { at = λ s k. k }) λ to. moving-Seen from to moved
