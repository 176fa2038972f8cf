-- ===== src/Sessions/Retention/Sweep/Safety.antt =====
-- A whole sweep, on a file system whose operations fail as they like.
use scrybe.Common.Int.{pos, ◌≤ℤ◌}
use scrybe.Common.{
  ℕ, ◌*◌, ◌≡◌, ◌⊎◌, inl, inr, refl, ap, true, not, Option, none, some, is_some, and_cases, arith,
}
use scrybe.Sessions.Identity.{validate}
use scrybe.Sessions.Identity.Confined.{IsConfined, validate-IsConfined}
use scrybe.Sessions.Scan.{ScannedSession, classify}
use scrybe.Common.Action.{
  Result, ok, err, Outcome, Ensures, Ensures-bind, Ensures-pure, Ensures-raise, Ensures-mono,
}
use scrybe.Text.{Text}
use scrybe.Sessions.Error.{ErrorCode}
use scrybe.Sessions.Retention.{
  SweepOutcome, Chrono, Presence, absent, ordinary, occupied, FileSystem, Tree, TrashEntry, Folder,
  directory, Content, names, other,
}
use scrybe.Sessions.Retention.Index.{lookup}
use scrybe.Sessions.Retention.Disk.{Retention, says}
use scrybe.Sessions.Retention.Staging.{is_owned}
use scrybe.Sessions.Retention.Disk.Quiet.{Folders, folders}
use scrybe.Sessions.Retention.Sweep
use scrybe.Sessions.Retention.Sweep.Spares.{Index, IsRemovable}
use scrybe.Sessions.Retention.Sweep.Steps.{sweep_index-Spares}
use scrybe.Sessions.Retention.Sweep.Removals.{Safe}
use scrybe.Sessions.Retention.Disk.Quiet.{entries, read_index-Same, required-Same}

module _ (chrono : Chrono) (fs : FileSystem) where
  -- the index listed a folder of the trash; the file of the entry's marker is in the folder and has the
  -- marker's text, the folder's name is one component and its files are a session's; and its removal
  -- had begun, or the days of its window have passed in full
  pub record MayGo (now : chrono.DateTime) (before : Folders) (listing : Index chrono fs)
      (folder : Text) : Type 0 where
    pub entry : TrashEntry chrono
    pub listed : lookup folder listing ≡ some entry
    pub found : Folder
    pub there : before.trashed folder ≡ some (directory found)
    pub marked : found.markers entry.marker ≡ some (names entry.marker)
    pub named : IsConfined folder
    pub session : ScannedSession
    pub classified : classify found.view ≡ some session
    pub due :
        (entry.purging ≡ true)
        ⊎ (pos (entry.retention_days * 86400) ≤ℤ chrono.seconds_since now entry.trashed_at)

  says-names : (marker : ℕ) (c : Option Content) → says marker c ≡ true → c ≡ some (names marker)
  says-names marker none h = absurd (cc)
  says-names marker (some other) h = absurd (cc)
  says-names marker (some (names m)) h =
      ap {B = Option Content} (λ n. some (names n)) (ground arith)

  some_of : {A : Type 0} (o : Option A) → is_some o ≡ true → (a : A) × (o ≡ some a)
  some_of none h = absurd (cc)
  some_of (some a) h = (a, refl)

  missing : {A : Type 0} (o : Option A) → not (is_some o) ≡ true → o ≡ none
  missing none h = refl
  missing (some a) h = absurd (cc)

  is_due-passed :
      (now : chrono.DateTime) (entry : TrashEntry chrono)
      → Sweep.is_due chrono fs now entry ≡ true
      → pos (entry.retention_days * 86400) ≤ℤ chrono.seconds_since now entry.trashed_at
  unfolding Sweep.is_due
  is_due-passed now entry h = ground arith

  IsRemovable-MayGo :
      (now : chrono.DateTime) (before : Folders) (listing : Index chrono fs) (folder : Text)
      → IsRemovable chrono fs now before listing folder
      → MayGo now before listing folder
  unfolding is_owned
  IsRemovable-MayGo now before listing folder r =
      let (told, rest) =
        and_cases (says r.entry.marker (r.owns.found.markers r.entry.marker)) _ r.owns.owns in
      let (valid, files) = and_cases (not (is_some (validate fs.is_absolute folder))) _ rest in
      let (session, classified) = some_of (classify r.owns.found.view) files in
      record {
        entry = r.entry;
        listed = r.listed;
        found = r.owns.found;
        there = r.owns.there;
        marked = says-names r.entry.marker _ told;
        named = validate-IsConfined fs.is_absolute folder (missing _ valid);
        session = session;
        classified = classified;
        due = elim r.due [ inl begun ↦ inl begun | inr d ↦ inr (is_due-passed now r.entry d) ];
      }

  -- the sessions of the root and of the archive are as before, and what is missing in the trash, the
  -- index authorized the sweep to remove
  pub record IsSpared (now : chrono.DateTime) (before after : Tree chrono fs) : Type 0 where
    pub root : after.root ≡ before.root
    pub archived : after.archived ≡ before.archived
    pub each :
        (folder : Text)
        → (after.trashed folder ≡ before.trashed folder)
          ⊎ MayGo now (folders chrono fs before) (entries chrono fs before.index_file) folder

  abbrev as_sweep : Tree chrono fs → Index chrono fs → SweepOutcome → Sweep.Sweep chrono fs
  as_sweep t index outcome = record { tree = t; index = index; outcome = outcome }

  lift-Ensures :
      {A : Type 0} (R P : Tree chrono fs → Type 0) (Q : A → Tree chrono fs → Type 0)
      (m : Retention chrono fs A)
      → Ensures R Q P m
      → Ensures (λ s. R s.tree) (λ a s. Q a s.tree) (λ s. P s.tree) (Sweep.on_tree chrono fs m)
  unfolding Sweep.on_tree
  lift-Ensures {A} R P Q m h = record {
    at = λ s k. brought s.index s.outcome (m s.tree) (h.at s.tree k);
  }
    where
      brought :
          (index : Index chrono fs) (outcome : SweepOutcome)
          (r : Result ErrorCode A × Tree chrono fs)
          → Outcome R Q r
          → Outcome (λ s. R s.tree) (λ a s. Q a s.tree) (r.0, as_sweep r.1 index outcome)
      brought index outcome (ok a, t) k = k
      brought index outcome (err e, t) k = k

  module _ (now : chrono.DateTime) (before : Tree chrono fs) where
    abbrev Spared : Sweep.Sweep chrono fs → Type 0
    Spared s = IsSpared now before s.tree

    abbrev Kept : Sweep.Sweep chrono fs → Type 0
    Kept = Safe chrono fs now (folders chrono fs before) (entries chrono fs before.index_file)

    Kept-Spared : (s : Sweep.Sweep chrono fs) → Kept s → Spared s
    Kept-Spared s k = record {
      root = k.root;
      archived = k.archived;
      each = λ folder. elim (k.each folder) [
        | inl stays ↦ inl stays.0
        | inr removable ↦ inr (IsRemovable-MayGo now _ _ folder removable)
      ];
    }

    same-Spared :
        (t : Tree chrono fs)
        → folders chrono fs t ≡ folders chrono fs before
        → IsSpared now before t
    same-Spared t e = record {
      root = ap (λ f. f.root) e;
      archived = ap (λ f. f.archived) e;
      each = λ folder. inl (ap (λ f. f.trashed folder) e);
    }

    abbrev Before : Sweep.Sweep chrono fs → Type 0
    Before s =
        (folders chrono fs s.tree ≡ folders chrono fs before)
        × (s.tree.index_file ≡ before.index_file)

    load-Kept : Ensures Spared (λ _. Kept) Before (Sweep.load chrono fs)
    unfolding Sweep.load
    load-Kept =
        Ensures-bind _ _
          (lift-Ensures (IsSpared now before) _ _ _
            (Ensures-mono same-Spared (λ _ _ k. k) (read_index-Same chrono fs before)))
          λ index. record {
            at = λ s k. record {
              root = ap (λ f. f.root) k.0;
              archived = ap (λ f. f.archived) k.0;
              each = λ folder.
                  inl (ap (λ f. f.trashed folder) k.0, inl (ap (λ l. lookup folder l) k.1));
            };
          }

    sweep_in-Spared :
        (present : Presence)
        → Ensures Spared (λ _. Spared) Before (Sweep.sweep_in chrono fs now present)
    unfolding Sweep.sweep_in
    sweep_in-Spared absent = Ensures-pure _ (λ s k. same-Spared s.tree k.0)
    sweep_in-Spared occupied = Ensures-raise _ (λ s k. same-Spared s.tree k.0)
    sweep_in-Spared ordinary =
        Ensures-bind _ _ load-Kept
          λ _. Ensures-mono Kept-Spared (λ _. Kept-Spared) (sweep_index-Spares chrono fs now _ _)

    sweep-Ensures : Ensures Spared (λ _. Spared) Before (Sweep.sweep chrono fs now)
    unfolding Sweep.sweep
    sweep-Ensures =
        Ensures-bind {Q = λ _. Before} _ _
          (lift-Ensures (IsSpared now before) _ _ _
            (Ensures-mono same-Spared (λ _ _ k. k) (required-Same chrono fs before)))
          λ _. Ensures-bind {Q = λ _. Before} _ _ (record { at = λ s k. k }) sweep_in-Spared

  either_way :
      {A : Type 0} (R : Sweep.Sweep chrono fs → Type 0)
      (r : Result ErrorCode A × Sweep.Sweep chrono fs)
      → Outcome R (λ _. R) r
      → R r.1
  either_way R (ok a, s) h = h
  either_way R (err e, s) h = h

  -- Whatever fails during a sweep, and whether it returns or not, the sessions under the root and in
  -- the archive stay as they were, and each name in the trash still has what it had, or had a folder
  -- that the index listed, with the entry's own marker in it, whose name is one component and whose
  -- files are a session's, and whose window of days had passed in full at the sweep's instant unless
  -- its removal had begun before.
  pub sweep-IsSpared :
      (now : chrono.DateTime) (s : Sweep.Sweep chrono fs)
      → IsSpared now s.tree (Sweep.sweep chrono fs now s).1.tree
  sweep-IsSpared now s =
      either_way (Spared now s.tree) (Sweep.sweep chrono fs now s)
        ((sweep-Ensures now s.tree).at s (refl, refl))
