-- ===== src/Sessions/Retention/Staging/Quiet.antt =====
-- What looks at a candidate, authorizes its removal and removes what is staged leaves every folder
-- that has a name of its own; and a candidate that is found to be owned is.
use scrybe.Common.{ℕ, ◌≡◌, refl, Bool, true, false, Option, none, some, if◌then◌else◌}
use scrybe.Common.Action.{
  Ensures, Ensures-bind, Ensures-pure, Keeps-bind, Keeps-pure, Keeps-gets, Keeps-if, pure,
}
use scrybe.Text.{Text}
use scrybe.Sessions.Error.{ErrorCode}
use scrybe.Sessions.Retention.{
  Chrono, Content, Folder, Node, directory, not_a_directory, FileSystem, Tree,
}
use scrybe.Sessions.Retention.Disk.{attempt, says}
use scrybe.Sessions.Retention.Disk.Quiet.{
  Folders, folders, IsQuiet, attempt-IsQuiet, required-IsQuiet,
}
use scrybe.Sessions.Retention.Staging.{
  Candidate, owned, not_owned, unreadable, is_owned, candidate_at, inspected, owned_candidate,
  authorize, authorized_by, purge_authorized, left, remove_node, remove_staging, drop_authorization,
}

module _ (chrono : Chrono) (fs : FileSystem) where
  -- the trash holds a folder of this name that the marker owns
  pub record IsOwned (folder : Text) (marker : ℕ) (f : Folders) : Type 0 where
    pub found : Folder
    pub there : f.trashed folder ≡ some (directory found)
    pub owns : is_owned chrono fs folder marker found ≡ true

  abbrev pub Found : Text → ℕ → Candidate → Folders → Type 0
  Found folder marker owned f = IsOwned folder marker f
  Found folder marker _ f = Unit

  Found-if :
      (folder : Text) (marker : ℕ) (found : Folder) (f : Folders) (b : Bool)
      → f.trashed folder ≡ some (directory found)
      → is_owned chrono fs folder marker found ≡ b
      → Found folder marker (if b then owned else not_owned) f
  Found-if folder marker found f true there e = record { found = found; there = there; owns = e }
  Found-if folder marker found f false there e = tt

  module _ (K : Folders → Type 0) (folder : Text) (marker : ℕ) where
    abbrev At : Tree chrono fs → Type 0
    At t = K (folders chrono fs t)

    abbrev Judged : Candidate → Tree chrono fs → Type 0
    Judged c t = At t × Found folder marker c (folders chrono fs t)

    read_candidate :
        (found : Folder) (read : Bool)
        → Ensures {E = ErrorCode} At Judged
            (λ t. At t × (t.trashed folder ≡ some (directory found)))
            (pure (
              if read
              then (if is_owned chrono fs folder marker found then owned else not_owned)
              else unreadable))
    read_candidate found false = Ensures-pure _ (λ s k. (k.0, tt))
    read_candidate found true =
        Ensures-pure _ (λ s k. (k.0, Found-if folder marker found (folders chrono fs s) _ k.1 refl))

    candidate_at-Judged :
        (node : Option Node)
        → Ensures At Judged
            (λ t. At t × (t.trashed folder ≡ node))
            (candidate_at chrono fs folder marker node)
    unfolding candidate_at attempt
    candidate_at-Judged none = Ensures-pure _ (λ s k. (k.0, tt))
    candidate_at-Judged (some not_a_directory) = Ensures-pure _ (λ s k. (k.0, tt))
    candidate_at-Judged (some (directory found)) =
        Ensures-bind {Q = λ _ t. At t × (t.trashed folder ≡ some (directory found))} _ _
          (record { at = λ s k. k }) (read_candidate found)

    inspected-Judged : (seen : Bool) → Ensures At Judged At (inspected chrono fs folder marker seen)
    unfolding inspected
    inspected-Judged false = Ensures-pure _ (λ s k. (k, tt))
    inspected-Judged true =
        Ensures-bind {Q = λ node t. At t × (t.trashed folder ≡ node)} _ _
          (record { at = λ s k. (k, refl) }) candidate_at-Judged

    pub owned_candidate-Judged :
        Ensures
          (λ t. K (folders chrono fs t))
          (λ c t. K (folders chrono fs t) × Found folder marker c (folders chrono fs t))
          (λ t. K (folders chrono fs t))
          (owned_candidate chrono fs folder marker)
    unfolding owned_candidate attempt
    owned_candidate-Judged =
        Ensures-bind {Q = λ _. At} _ _ (record { at = λ s k. k }) inspected-Judged

  authorize-IsQuiet : (marker : ℕ) (b : Bool) → IsQuiet chrono fs (authorize chrono fs marker b)
  unfolding authorize
  authorize-IsQuiet marker false = Keeps-pure false
  authorize-IsQuiet marker true = Keeps-bind _ _ (required-IsQuiet chrono fs) λ _.
      Keeps-bind _ _ (record { same = λ s. refl })
        λ _. Keeps-bind _ _ (required-IsQuiet chrono fs) λ _.
          Keeps-bind _ _ (record { same = λ s. refl })
            λ _. Keeps-bind _ _ (required-IsQuiet chrono fs) λ _. Keeps-pure true

  authorized_by-IsQuiet :
      (marker : ℕ) (found : Option Content)
      → IsQuiet chrono fs (authorized_by chrono fs marker found)
  unfolding authorized_by
  authorized_by-IsQuiet marker (some found) =
      Keeps-if (says marker (some found)) _ _
        (Keeps-bind _ _ (required-IsQuiet chrono fs) λ _. Keeps-pure true) (Keeps-pure false)
  authorized_by-IsQuiet marker none =
      Keeps-bind _ _ (required-IsQuiet chrono fs)
        λ _. Keeps-bind _ _ (Keeps-gets _) (authorize-IsQuiet marker)

  pub purge_authorized-IsQuiet :
      (marker : ℕ) → IsQuiet chrono fs (purge_authorized chrono fs marker)
  unfolding purge_authorized
  purge_authorized-IsQuiet marker =
      Keeps-bind _ _ (required-IsQuiet chrono fs)
        λ _. Keeps-bind _ _ (Keeps-gets _) (authorized_by-IsQuiet marker)

  left-IsQuiet :
      (marker : ℕ) (rest : Option Folder) → IsQuiet chrono fs (left chrono fs marker rest)
  unfolding left
  left-IsQuiet marker none = Keeps-bind _ _ (record { same = λ s. refl }) λ _. Keeps-pure true
  left-IsQuiet marker (some rest) =
      Keeps-bind _ _ (record { same = λ s. refl }) λ _. Keeps-pure false

  remove_node-IsQuiet :
      (marker : ℕ) (node : Option Node) → IsQuiet chrono fs (remove_node chrono fs marker node)
  unfolding remove_node
  remove_node-IsQuiet marker none = record { same = λ s. refl }
  remove_node-IsQuiet marker (some not_a_directory) = record { same = λ s. refl }
  remove_node-IsQuiet marker (some (directory found)) = record {
    same = λ s.
        (left-IsQuiet marker (fs.remove_dir_all found s.world).1).same
          (record s { world = (fs.remove_dir_all found s.world).0 });
  }

  pub remove_staging-IsQuiet : (marker : ℕ) → IsQuiet chrono fs (remove_staging chrono fs marker)
  unfolding remove_staging
  remove_staging-IsQuiet marker = Keeps-bind _ _ (Keeps-gets _) (remove_node-IsQuiet marker)

  pub drop_authorization-IsQuiet :
      (marker : ℕ) → IsQuiet chrono fs (drop_authorization chrono fs marker)
  unfolding drop_authorization
  drop_authorization-IsQuiet marker =
      Keeps-bind _ _ (attempt-IsQuiet chrono fs) λ _. record { same = λ s. refl }
