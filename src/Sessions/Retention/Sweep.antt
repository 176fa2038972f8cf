-- ===== src/Sessions/Retention/Sweep.antt =====
-- scrybe-application/src/sessions/retention.rs: the sweep of the trash. The sweep has the index in
-- memory and the outcome so far beside the file system.
pub mod Spares
pub mod Removals
pub mod Steps
pub mod Safety
use scrybe.Common.{
  ℕ, ◌*◌, Bool, true, false, not, ◌&&◌, Option, none, some, is_some, List, [], ◌∷◌, ◌++◌,
  if◌then◌else◌,
}
use scrybe.Common.Int.{ℤ, pos, ltb_ℤ}
use scrybe.Common.Action.{Result, ok, err, Action, pure, raise, gets, modify, ◌>>=◌, ◌>>◌}
use scrybe.Text.{Text}
use scrybe.Sessions.Error.{ErrorCode, storage_unavailable}
use scrybe.Sessions.Identity.{validate}
use scrybe.Sessions.Scan.{classify}
use scrybe.Sessions.Retention.{
  SweepOutcome, Chrono, Content, Folder, Node, directory, not_a_directory, Presence, absent,
  ordinary, occupied, Moved, done, not_moved, moved_not_durable, IndexChange, unchanged, dirty,
  persisted, TrashEntry, FileSystem, Tree,
}
use scrybe.Sessions.Retention.Index.{lookup, remove, change, keys}
use scrybe.Sessions.Retention.Staging.{
  Candidate, owned, not_owned, unreadable, owned_candidate, purge_authorized, remove_staging,
  drop_authorization, stage,
}
use scrybe.Sessions.Retention.Disk.{
  put_name, put_marker, says, Retention, attempt, required, caught, read_index, write_index,
  durable_rename,
}

abbrev pub no_outcome : SweepOutcome
no_outcome = record { removed = []; retained = []; forgotten = [] }

module _ (chrono : Chrono) (fs : FileSystem) where
  pub record Sweep : Type 0 where
    pub tree : Tree chrono fs
    pub index : List (Text × TrashEntry chrono)
    pub outcome : SweepOutcome

  abbrev pub Sweeping : Type 0 → Type 0
  Sweeping A = Action Sweep ErrorCode A

  unfoldable pub on_tree : {A : Type 0} → Retention chrono fs A → Sweeping A
  on_tree m s = let (result, t) = m s.tree in (result, record s { tree = t })

  -- the folder stays, for this sweep
  abbrev keep : Text → IndexChange → Sweeping IndexChange
  keep folder change s = (
    ok change,
    record s { outcome = record s.outcome { retained = s.outcome.retained ++ folder ∷ [] } },
  )

  -- the entry goes, for want of a folder that it authorizes to remove
  abbrev forget : Text → Sweeping IndexChange
  forget folder s = (
    ok dirty,
    record s {
      index = remove folder s.index;
      outcome = record s.outcome { forgotten = s.outcome.forgotten ++ folder ∷ [] };
    },
  )

  abbrev kept_change : Bool → IndexChange
  kept_change persisted_entry = if persisted_entry then persisted else unchanged

  after_removal : Text → ℕ → Bool → Bool → Sweeping IndexChange
  after_removal folder marker persisted_entry false = keep folder (kept_change persisted_entry)
  after_removal folder marker persisted_entry true = do
    on_tree (drop_authorization chrono fs marker)
    modify (λ s. record s {
      index = remove folder s.index;
      outcome = record s.outcome { removed = s.outcome.removed ++ folder ∷ [] };
    })
    pure dirty

  purge_where : Text → ℕ → Bool → Result ErrorCode Bool → Sweeping IndexChange
  unfolding after_removal
  purge_where folder marker persisted_entry (ok true) =
      on_tree (remove_staging chrono fs marker) >>= after_removal folder marker persisted_entry
  purge_where folder marker persisted_entry _ = keep folder (kept_change persisted_entry)

  -- the end of `sweep_folder`, where the folder is staged
  unfoldable pub purge : Text → ℕ → Bool → Sweeping IndexChange
  unfolding purge_where
  purge folder marker persisted_entry =
      on_tree (caught chrono fs (purge_authorized chrono fs marker))
      >>= purge_where folder marker persisted_entry

  pub staged : Text → ℕ → Bool → Moved → Sweeping IndexChange
  staged folder marker persisted_entry done = purge folder marker persisted_entry
  staged folder marker persisted_entry _ = keep folder (kept_change persisted_entry)

  restage : Text → ℕ → Candidate → Sweeping IndexChange
  unfolding staged
  restage folder marker owned =
      on_tree (stage chrono fs folder marker) >>= staged folder marker false
  restage folder marker not_owned = do on_tree (drop_authorization chrono fs marker); forget folder
  restage folder marker unreadable = keep folder unchanged

  -- what the staged name holds, or none where that cannot be told
  look : ℕ → Retention chrono fs (Option (Option Node))
  look marker = do
    seen ← attempt chrono fs
    node ← gets (λ s. s.staging marker)
    pure (if seen then some node else none)

  resume_at : Text → ℕ → Option (Option Node) → Sweeping IndexChange
  unfolding restage
  resume_at folder marker (some (some (directory _))) = purge folder marker false
  resume_at folder marker (some none) =
      on_tree (owned_candidate chrono fs folder marker) >>= restage folder marker
  resume_at folder marker _ = keep folder unchanged

  -- an entry whose removal has begun
  resume : Text → ℕ → Sweeping IndexChange
  unfolding look resume_at
  resume folder marker = on_tree (look marker) >>= resume_at folder marker

  -- has the window of an entry passed
  unfoldable pub is_due : chrono.DateTime → TrashEntry chrono → Bool
  is_due now entry =
      not (ltb_ℤ (chrono.seconds_since now entry.trashed_at) (pos (entry.retention_days * 86400)))

  -- the removal is recorded before the folder is moved away
  start_purge : Text → ℕ → Sweeping IndexChange
  unfolding staged
  start_purge folder marker = do
    modify (λ s. record s { index = change folder (λ e. record e { purging = true }) s.index })
    index ← gets (λ s. s.index)
    on_tree (write_index chrono fs index)
    moved ← on_tree (stage chrono fs folder marker)
    staged folder marker true moved

  begin_at : chrono.DateTime → Text → TrashEntry chrono → Candidate → Sweeping IndexChange
  unfolding start_purge
  begin_at now folder entry owned =
      if is_due now entry then start_purge folder entry.marker else keep folder unchanged
  begin_at now folder entry not_owned = forget folder
  begin_at now folder entry unreadable = keep folder unchanged

  sweep_entry : chrono.DateTime → Text → Option (TrashEntry chrono) → Sweeping IndexChange
  unfolding resume begin_at
  sweep_entry now folder none = pure unchanged
  sweep_entry now folder (some entry) =
      if entry.purging
      then resume folder entry.marker
      else on_tree (owned_candidate chrono fs folder entry.marker) >>= begin_at now folder entry

  unfoldable pub sweep_folder : chrono.DateTime → Text → Sweeping IndexChange
  unfolding sweep_entry
  sweep_folder now folder = gets (λ s. lookup folder s.index) >>= sweep_entry now folder

  -- is a change of the index still to be written
  abbrev changes : IndexChange → Bool → Bool
  changes unchanged changed = changed
  changes dirty changed = true
  changes persisted changed = false

  sweep_folders : chrono.DateTime → List Text → Bool → Sweeping Bool
  sweep_folders now [] changed = pure changed
  sweep_folders now (folder ∷ folders) changed =
      sweep_folder now folder >>= λ change. sweep_folders now folders (changes change changed)

  pub sweep_index : chrono.DateTime → Sweeping SweepOutcome
  unfolding sweep_folders
  sweep_index now = do
    folders ← gets (λ s. keys s.index)
    changed ← sweep_folders now folders false
    index ← gets (λ s. s.index)
    if changed then on_tree (write_index chrono fs index) else pure tt
    gets (λ s. s.outcome)

  load : Sweeping (Unit {0})
  load = do
    index ← on_tree (read_index chrono fs)
    modify (λ s. record s { index = index; outcome = no_outcome })

  sweep_in : chrono.DateTime → Presence → Sweeping SweepOutcome
  unfolding load sweep_index
  sweep_in now absent = pure no_outcome
  sweep_in now occupied = raise storage_unavailable
  sweep_in now ordinary = load >> sweep_index now

  -- `sweep`; an empty index leaves nothing to do
  unfoldable pub sweep : chrono.DateTime → Sweeping SweepOutcome
  unfolding sweep_in
  sweep now = do
    on_tree (required chrono fs)
    present ← gets (λ s. s.tree.trash_directory)
    sweep_in now present
