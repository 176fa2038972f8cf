-- ===== src/Sessions/Tests.antt =====
-- The theorems of the sessions' services: paging at a list of three rows, a name, and a sweep of a
-- trash with a folder that is due and one that the index does not list.
use scrybe.Common.{
  ℕ, suc, ◌≡◌, ◌-◌, ◌==◌, ◌||◌, ◌⊎◌, refl, if◌then◌else◌, true, false, none, some, List, [], ◌∷◌,
  drop, arith,
}
use scrybe.Text.{Text, text_eq, trim, trim_start, is_whitespace}
use scrybe.Common.Int.{pos}
use scrybe.Sessions.Identity.{validate}
use scrybe.Sessions.Identity.Confined.{IsConfined, validate-IsConfined}
use scrybe.Sessions.Scan.{FolderView}
use scrybe.Common.Action.{Outcome}
use scrybe.Sessions.Retention.{trash, archive}
use scrybe.Sessions.Retention.Disk.Seen.{sees}
use scrybe.Sessions.Retention.Retain.{retain}
use scrybe.Sessions.Retention.Retain.Placed.{Stays, HasMoved}
use scrybe.Sessions.Retention.Retain.Safety.{retain-IsPlaced}
use scrybe.Sessions.Retention.Window.{Survives, retain-sweep}
use scrybe.Sessions.Retention.{
  Chrono, names, Folder, directory, ordinary, absent, done, table, FileSystem, Tree,
}
use scrybe.Sessions.Retention.Sweep.{Sweep, no_outcome, sweep}
use scrybe.Sessions.Retention.Sweep.Safety.{IsSpared, sweep-IsSpared}
use scrybe.Sessions.Paging.{RawPageRequest}
use scrybe.Sessions.Paging.Walk.{walk, walk_complete}

abbrev rows : List ℕ
rows = 7 ∷ 8 ∷ 9 ∷ []

abbrev no_offset : RawPageRequest
no_offset = record { offset = none; limit = some 0 }

walk_complete_example : walk (suc 3) 0 2 rows ≡ some (drop 0 rows)
walk_complete_example = walk_complete 3 0 2 rows (omega arith) (omega arith)

-- `a-b`
abbrev standup : Text
standup = 97 ∷ 45 ∷ 98 ∷ []

standup_valid : validate (λ s. false) standup ≡ none
unfolding validate text_eq trim trim_start is_whitespace
standup_valid = refl

validate-IsConfined_example : IsConfined standup
validate-IsConfined_example = validate-IsConfined (λ s. false) standup standup_valid

abbrev chrono : Chrono
chrono = record { DateTime = ℕ; seconds_since = λ a b. pos (a - b) }

abbrev fs : FileSystem
fs = record {
  is_absolute = λ s. false;
  World = ℕ;
  attempt = λ w. (w, true);
  outcome = λ w. (w, done);
  new_marker = λ w. (suc w, w);
  remove_dir_all = λ found w. (w, none);
}

abbrev session_view : FolderView
session_view = record {
  notes = true;
  transcript = true;
  audio = false;
  playback = false;
  journal = false;
  meta = record { exists = true; parses = true };
  manifest = record { exists = false; parses = false };
}

abbrev marked_five : Folder
marked_five = record { view = session_view; markers = λ m. if m == 5 then some (names 5) else none }

-- the trash holds the session, which is listed, and a folder `x`, which is not
abbrev tree : Tree chrono fs
tree = record {
  world = 0;
  root = λ name. none;
  trash_directory = ordinary;
  archive_directory = absent;
  trashed = λ name.
      if text_eq name standup || text_eq name (120 ∷ [])
      then some (directory marked_five)
      else none;
  archived = λ name. none;
  staging = λ m. none;
  authorization = λ m. none;
  index_file =
      table (
        (standup, record { trashed_at = 0; retention_days = 7; marker = 5; purging = false }) ∷ []);
}

abbrev sweeping : Sweep chrono fs
sweeping = record { tree = tree; index = []; outcome = no_outcome }

sweep-IsSpared_example : IsSpared chrono fs 604800 tree (sweep chrono fs 604800 sweeping).1.tree
sweep-IsSpared_example = sweep-IsSpared chrono fs 604800 sweeping

-- the session under the root, before it is moved away
abbrev listed : Tree chrono fs
listed = record tree {
  root = λ name. if text_eq name standup then some (directory marked_five) else none;
  trashed = λ name. none;
}

listed-root : listed.root standup ≡ some (directory marked_five)
unfolding text_eq
listed-root = refl

retain-IsPlaced_example :
    Outcome
      (λ u.
        Stays chrono fs standup session_view (sees chrono fs listed) (sees chrono fs u)
        ⊎ HasMoved chrono fs standup session_view
            (sees chrono fs listed)
            archive
            10
            7
            (sees chrono fs u))
      (λ _ u.
        HasMoved chrono fs standup session_view
          (sees chrono fs listed)
          archive
          10
          7
          (sees chrono fs u))
      (retain chrono fs standup archive 10 7 listed)
retain-IsPlaced_example =
    retain-IsPlaced chrono fs standup archive 10 7 marked_five listed listed-root

retain-sweep_example :
    Outcome
      (λ u.
        Stays chrono fs standup session_view (sees chrono fs listed) (sees chrono fs u)
        ⊎ Survives chrono fs standup session_view 500 u)
      (λ _. Survives chrono fs standup session_view 500)
      (retain chrono fs standup trash 10 7 listed)
retain-sweep_example = retain-sweep chrono fs standup 10 500 7 marked_five listed listed-root refl
