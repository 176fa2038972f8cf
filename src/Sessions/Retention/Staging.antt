-- ===== src/Sessions/Retention/Staging.antt =====
-- scrybe-application/src/sessions/retention.rs: which folder an entry authorizes to remove, and the
-- staged folder with its authorization, which outlives a removal that was cut short.
pub mod Quiet
use scrybe.Common.{
  ℕ, ◌*◌, Bool, true, false, not, ◌&&◌, Option, none, some, is_some, List, [], ◌∷◌, ◌++◌,
  if◌then◌else◌,
}
use scrybe.Common.Int.{ℤ, pos, ltb_ℤ}
use scrybe.Common.Action.{Result, ok, err, Action, pure, raise, gets, modify, ◌>>=◌, ◌>>◌}
use scrybe.Text.{Text}
use scrybe.Sessions.Error.{ErrorCode, storage_unavailable}
use scrybe.Sessions.Identity.{validate}
use scrybe.Sessions.Scan.{classify}
use scrybe.Sessions.Retention.{
  SweepOutcome, Chrono, Content, names, other, Folder, Node, directory, not_a_directory, Presence,
  absent, ordinary, occupied, Moved, done, not_moved, moved_not_durable, IndexChange, unchanged,
  dirty, persisted, TrashEntry, FileSystem, Tree,
}
use scrybe.Sessions.Retention.Index.{lookup, remove, change, keys}
use scrybe.Sessions.Retention.Disk.{
  put_name, put_marker, says, Retention, attempt, required, caught, read_index, write_index,
  durable_rename,
}

-- what `owned_candidate` finds
pub data Candidate : Type 0 where
  owned not_owned unreadable : Candidate

module _ (chrono : Chrono) (fs : FileSystem) where
  -- does the marker in a folder authorize the entry, and is the folder a session
  unfoldable pub is_owned : Text → ℕ → Folder → Bool
  is_owned folder marker found =
      says marker (found.markers marker)
      && (not (is_some (validate fs.is_absolute folder)) && is_some (classify found.view))

  candidate_at : Text → ℕ → Option Node → Retention chrono fs Candidate
  candidate_at folder marker none = pure not_owned
  candidate_at folder marker (some not_a_directory) = pure not_owned
  candidate_at folder marker (some (directory found)) = do
    read ← attempt chrono fs
    pure (if read then (if is_owned folder marker found then owned else not_owned) else unreadable)

  inspected : Text → ℕ → Bool → Retention chrono fs Candidate
  unfolding candidate_at
  inspected folder marker false = pure unreadable
  inspected folder marker true = do
    node ← gets (λ s. s.trashed folder)
    candidate_at folder marker node

  unfoldable pub owned_candidate : Text → ℕ → Retention chrono fs Candidate
  unfolding inspected
  owned_candidate folder marker = attempt chrono fs >>= inspected folder marker

  abbrev pub staged_says : ℕ → Option Node → Bool
  staged_says marker (some (directory found)) = says marker (found.markers marker)
  staged_says marker _ = false

  -- the authorization is made where the staged folder has its marker; the service's lock is held, so
  -- no other run makes it first
  authorize : ℕ → Bool → Retention chrono fs Bool
  authorize marker false = pure false
  authorize marker true = do
    required chrono fs
    modify (λ s. record s { authorization = put_marker marker (some other) s.authorization })
    required chrono fs
    modify
        (λ s. record s { authorization = put_marker marker (some (names marker)) s.authorization })
    required chrono fs
    pure true

  authorized_by : ℕ → Option Content → Retention chrono fs Bool
  unfolding authorize
  authorized_by marker (some found) =
      if says marker (some found) then required chrono fs >> pure true else pure false
  authorized_by marker none = do
    required chrono fs
    staged ← gets (λ s. staged_says marker (s.staging marker))
    authorize marker staged

  unfoldable pub purge_authorized : ℕ → Retention chrono fs Bool
  unfolding authorized_by
  purge_authorized marker = do
    required chrono fs
    found ← gets (λ s. s.authorization marker)
    authorized_by marker found

  left : ℕ → Option Folder → Retention chrono fs Bool
  left marker none = do
    modify (λ s. record s { staging = put_marker marker none s.staging })
    pure true
  left marker (some rest) = do
    modify (λ s. record s { staging = put_marker marker (some (directory rest)) s.staging })
    pure false

  remove_node : ℕ → Option Node → Retention chrono fs Bool
  unfolding left
  remove_node marker (some (directory found)) s =
      let (world, rest) = fs.remove_dir_all found s.world in
      left marker rest (record s { world = world })
  remove_node marker _ s = (ok false, s)

  -- `remove_dir_all` of the staged folder
  unfoldable pub remove_staging : ℕ → Retention chrono fs Bool
  unfolding remove_node
  remove_staging marker = gets (λ s. s.staging marker) >>= remove_node marker

  -- the removal of an authorization, whose result is dropped
  unfoldable pub drop_authorization : ℕ → Retention chrono fs (Unit {0})
  drop_authorization marker = do
    removed ← attempt chrono fs
    modify (λ s. record s {
      authorization = if removed then put_marker marker none s.authorization else s.authorization;
    })

  unfoldable pub stage : Text → ℕ → Retention chrono fs Moved
  stage folder marker =
      durable_rename chrono fs (λ s. s.trashed folder) (λ s. s.staging marker)
        (λ node s. record s {
          trashed = put_name folder none s.trashed;
          staging = put_marker marker (some node) s.staging;
        })
