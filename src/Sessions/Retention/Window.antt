-- ===== src/Sessions/Retention/Window.antt =====
-- A session in the trash outlives every sweep before its window has passed.
use scrybe.Common.{ℕ, ◌*◌, ◌≡◌, ◌⊎◌, inl, inr, ap, ◌∙◌, true, false, arith, Option, some, []}
use scrybe.Common.Int.{pos, ltb_ℤ, ◌≤ℤ◌}
use mathlib.Core.Path.{subst}
use scrybe.Common.Action.{Outcome, Outcome-both}
use scrybe.Text.{Text}
use scrybe.Sessions.Scan.{FolderView}
use scrybe.Sessions.Retention.{trash, Chrono, Folder, directory, TrashEntry, FileSystem, Tree}
use scrybe.Sessions.Retention.Index.{lookup}
use scrybe.Sessions.Retention.Disk.Seen.{Sight, sees}
use scrybe.Sessions.Retention.Disk.Quiet.{entries}
use scrybe.Sessions.Retention.Sweep.{Sweep, sweep, no_outcome}
use scrybe.Sessions.Retention.Sweep.Safety.{sweep-IsSpared}
use scrybe.Sessions.Retention.Retain.{retain}
use scrybe.Sessions.Retention.Retain.Placed.{IsTrashed, Stays}
use scrybe.Sessions.Retention.Retain.Safety.{retain-IsPlaced}

module _ (chrono : Chrono) (fs : FileSystem) where
  -- a sweep that starts from a tree
  abbrev pub sweep_of : Tree chrono fs → Sweep chrono fs
  sweep_of t = record { tree = t; index = []; outcome = no_outcome }

  same_entry : {A : Type 0} (a b : A) (o : Option A) → o ≡ some a → o ≡ some b → a ≡ b
  same_entry a b o e f = cc

  not_due :
      (now later : chrono.DateTime) (retention_days marker : ℕ)
      → ltb_ℤ (chrono.seconds_since later now) (pos (retention_days * 86400)) ≡ true
      → (e : TrashEntry chrono)
      → e ≡ record {
        trashed_at = now;
        retention_days = retention_days;
        marker = marker;
        purging = false;
      }
      → ¬ (
          (e.purging ≡ true)
          ⊎ (pos (e.retention_days * 86400) ≤ℤ chrono.seconds_since later e.trashed_at))
  not_due now later retention_days marker early e same (inl begun) =
      let quiet : e.purging ≡ false = ap (λ x. x.purging) same in absurd cc
  not_due now later retention_days marker early e same (inr due) =
      let passed : pos (retention_days * 86400) ≤ℤ chrono.seconds_since later now =
        subst (λ x. pos (x.retention_days * 86400) ≤ℤ chrono.seconds_since later x.trashed_at) same
          due in
      absurd (ground arith)

  IsTrashed-survives :
      (folder : Text) (view : FolderView) (before : Sight chrono fs) (now later : chrono.DateTime)
      (retention_days : ℕ) (u : Tree chrono fs)
      → ltb_ℤ (chrono.seconds_since later now) (pos (retention_days * 86400)) ≡ true
      → IsTrashed chrono fs folder view before now retention_days (sees chrono fs u)
      → (sweep chrono fs later (sweep_of u)).1.tree.trashed folder ≡ u.trashed folder
  IsTrashed-survives folder view before now later retention_days u early k =
      elim ((sweep-IsSpared chrono fs later (sweep_of u)).each folder) [
        | inl stays ↦ stays
        | inr r ↦
            let e =
              same_entry _ _ _ r.listed
                (ap (λ file. lookup folder (entries chrono fs file)) k.on_disk ∙ k.listed) in
            absurd (not_due now later retention_days k.marker early r.entry e r.due)
      ]

  -- the trash holds a folder with these files, and a sweep at this instant leaves it
  pub record Survives (folder : Text) (view : FolderView) (later : chrono.DateTime)
      (u : Tree chrono fs) : Type 0 where
    pub node : Folder
    pub there : u.trashed folder ≡ some (directory node)
    pub same : node.view ≡ view
    pub swept : (sweep chrono fs later (sweep_of u)).1.tree.trashed folder ≡ some (directory node)

  IsTrashed-Survives :
      (folder : Text) (view : FolderView) (before : Sight chrono fs) (now later : chrono.DateTime)
      (retention_days : ℕ) (u : Tree chrono fs)
      → ltb_ℤ (chrono.seconds_since later now) (pos (retention_days * 86400)) ≡ true
      → IsTrashed chrono fs folder view before now retention_days (sees chrono fs u)
      → Survives folder view later u
  IsTrashed-Survives folder view before now later retention_days u early k = record {
    node = k.found;
    there = k.there;
    same = k.same;
    swept = IsTrashed-survives folder view before now later retention_days u early k ∙ k.there;
  }

-- A session that was moved to the trash at one instant with a window of some days is left there, with
-- all that it holds, by a sweep at an instant before the window's end, whatever fails during the
-- sweep; a move that fails leaves the session under the root or as well in the trash.
pub retain-sweep :
    (chrono : Chrono) (fs : FileSystem) (folder : Text) (now later : chrono.DateTime)
    (retention_days : ℕ) (found : Folder) (t : Tree chrono fs)
    → t.root folder ≡ some (directory found)
    → ltb_ℤ (chrono.seconds_since later now) (pos (retention_days * 86400)) ≡ true
    → Outcome
        (λ u.
          Stays chrono fs folder found.view (sees chrono fs t) (sees chrono fs u)
          ⊎ Survives chrono fs folder found.view later u)
        (λ _. Survives chrono fs folder found.view later)
        (retain chrono fs folder trash now retention_days t)
retain-sweep chrono fs folder now later retention_days found t here early =
    Outcome-both either (λ _. survives) (retain chrono fs folder trash now retention_days t)
      (retain-IsPlaced chrono fs folder trash now retention_days found t here)
  where
    survives :
        (u : Tree chrono fs)
        → IsTrashed chrono fs folder found.view
            (sees chrono fs t)
            now
            retention_days
            (sees chrono fs u)
        → Survives chrono fs folder found.view later u
    survives u =
        IsTrashed-Survives chrono fs folder found.view (sees chrono fs t) now later retention_days u
          early

    either :
        (u : Tree chrono fs)
        → Stays chrono fs folder found.view (sees chrono fs t) (sees chrono fs u)
          ⊎ IsTrashed chrono fs folder found.view
              (sees chrono fs t)
              now
              retention_days
              (sees chrono fs u)
        → Stays chrono fs folder found.view (sees chrono fs t) (sees chrono fs u)
          ⊎ Survives chrono fs folder found.view later u
    either u (inl stays) = inl stays
    either u (inr k) = inr (survives u k)
