-- ===== src/Sessions/Retention/Sweep/Steps.antt =====
-- The steps of a sweep, from the staging of a folder to the end of the loop, spare every folder that
-- the index does not authorize it to remove.
use scrybe.Common.{ℕ, ◌≡◌, inl, inr, refl, Bool, true, false, Option, none, some, List, [], ◌∷◌}
use scrybe.Common.Action.{
  Ensures, Ensures-bind, Ensures-pure, Ensures-mono, Ensures-if, Keeps-bind, Keeps-gets, Keeps-pure,
}
use scrybe.Text.{Text}
use scrybe.Sessions.Retention.{Chrono, Node, directory, not_a_directory, TrashEntry, FileSystem}
use scrybe.Sessions.Retention.Index.{lookup}
use scrybe.Sessions.Retention.Disk.Quiet.{
  Folders, folders, IsQuiet, attempt-IsQuiet, write_index-IsQuiet,
}
use scrybe.Sessions.Retention.Staging.{Candidate, owned, not_owned, unreadable, owned_candidate}
use scrybe.Sessions.Retention.Staging.Quiet.{
  Found, owned_candidate-Judged, drop_authorization-IsQuiet,
}
use scrybe.Sessions.Retention.Sweep
use scrybe.Sessions.Retention.Sweep.Spares.{
  Index, Seen, seen, IsRemovable, Spares-change, IsOwned-Removable, on_tree-Ensures, quiet-Ensures,
}
use scrybe.Sessions.Retention.Sweep.Removals.{
  Holds, Safe, stage-Spares, forget-Spares, quiet, purge-Spares, staged-Spares,
}

module _ (chrono : Chrono) (fs : FileSystem) (now : chrono.DateTime) (before : Folders)
    (listed : Index chrono fs) where
  -- a folder whose entry in the index was just read
  abbrev Listed : Text → TrashEntry chrono → Seen chrono fs → Type 0
  Listed folder entry v = Holds chrono fs now before listed v × (lookup folder v.index ≡ some entry)

  candidate-Listed :
      (folder : Text) (entry : TrashEntry chrono)
      → Ensures
          (Safe chrono fs now before listed)
          (λ c s.
            Listed folder entry (seen chrono fs s)
            × Found chrono fs folder entry.marker c (seen chrono fs s).at)
          (λ s. Listed folder entry (seen chrono fs s))
          (Sweep.on_tree chrono fs (owned_candidate chrono fs folder entry.marker))
  candidate-Listed folder entry =
      on_tree-Ensures chrono fs now before listed (Listed folder entry)
        (λ c v. Listed folder entry v × Found chrono fs folder entry.marker c v.at) _
        λ index.
          Ensures-mono (λ _ k. k.0) (λ _ _ k. k)
            (owned_candidate-Judged chrono fs
              (λ f. Listed folder entry (record { at = f; index = index })) folder entry.marker)

  restage-Spares :
      (folder : Text) (entry : TrashEntry chrono) (c : Candidate)
      → entry.purging ≡ true
      → Ensures
          (Safe chrono fs now before listed)
          (λ _. Safe chrono fs now before listed)
          (λ s.
            Listed folder entry (seen chrono fs s)
            × Found chrono fs folder entry.marker c (seen chrono fs s).at)
          (Sweep.restage chrono fs folder entry.marker c)
  unfolding Sweep.restage
  restage-Spares folder entry owned p = record {
    at = λ s k.
        (Ensures-bind _ _
            (stage-Spares chrono fs now before listed folder entry.marker (
              IsOwned-Removable chrono fs now before listed (seen chrono fs s) folder entry k.0.0
                k.0.1 k.1 (inl p)))
            (staged-Spares chrono fs now before listed folder entry.marker false)).at
          s k.0.0;
  }
  restage-Spares folder entry not_owned p = record {
    at = λ s k.
        (Ensures-bind _ _
            (quiet chrono fs now before listed _
              (drop_authorization-IsQuiet chrono fs entry.marker))
            λ _. forget-Spares chrono fs now before listed folder).at
          s k.0.0;
  }
  restage-Spares folder entry unreadable p = record { at = λ s k. k.0.0 }

  look-IsQuiet : (marker : ℕ) → IsQuiet chrono fs (Sweep.look chrono fs marker)
  unfolding Sweep.look
  look-IsQuiet marker =
      Keeps-bind _ _ (attempt-IsQuiet chrono fs)
        λ _. Keeps-bind _ _ (Keeps-gets _) λ _. Keeps-pure _

  resume_at-Spares :
      (folder : Text) (entry : TrashEntry chrono) (node : Option (Option Node))
      → entry.purging ≡ true
      → Ensures
          (Safe chrono fs now before listed)
          (λ _. Safe chrono fs now before listed)
          (λ s. Listed folder entry (seen chrono fs s))
          (Sweep.resume_at chrono fs folder entry.marker node)
  unfolding Sweep.resume_at
  resume_at-Spares folder entry none p = record { at = λ s k. k.0 }
  resume_at-Spares folder entry (some none) p =
      Ensures-bind _ _ (candidate-Listed folder entry) λ c. restage-Spares folder entry c p
  resume_at-Spares folder entry (some (some not_a_directory)) p = record { at = λ s k. k.0 }
  resume_at-Spares folder entry (some (some (directory _))) p = record {
    at = λ s k. (purge-Spares chrono fs now before listed folder entry.marker false).at s k.0;
  }

  resume-Spares :
      (folder : Text) (entry : TrashEntry chrono)
      → entry.purging ≡ true
      → Ensures
          (Safe chrono fs now before listed)
          (λ _. Safe chrono fs now before listed)
          (λ s. Listed folder entry (seen chrono fs s))
          (Sweep.resume chrono fs folder entry.marker)
  unfolding Sweep.resume
  resume-Spares folder entry p =
      Ensures-bind _ _
        (quiet-Ensures chrono fs now before listed (Listed folder entry) _ (λ _ k. k.0)
          (look-IsQuiet entry.marker))
        λ node. resume_at-Spares folder entry node p

  start_purge-Spares :
      (folder : Text) (marker : ℕ)
      → IsRemovable chrono fs now before listed folder
      → Ensures
          (Safe chrono fs now before listed)
          (λ _. Safe chrono fs now before listed)
          (Safe chrono fs now before listed)
          (Sweep.start_purge chrono fs folder marker)
  unfolding Sweep.start_purge
  start_purge-Spares folder marker r =
      Ensures-bind {Q = λ _. Safe chrono fs now before listed} _ _
        (record {
          at = λ s k.
              Spares-change chrono fs now before listed (folders chrono fs s.tree) s.index folder _
                r k;
        })
        λ _.
          Ensures-bind {Q = λ _. Safe chrono fs now before listed} _ _ (record { at = λ s k. k })
            λ index.
              Ensures-bind _ _
                (quiet chrono fs now before listed _ (write_index-IsQuiet chrono fs index))
                λ _.
                  Ensures-bind _ _ (stage-Spares chrono fs now before listed folder marker r)
                    (staged-Spares chrono fs now before listed folder marker true)

  begin_at-Spares :
      (folder : Text) (entry : TrashEntry chrono) (c : Candidate)
      → Ensures
          (Safe chrono fs now before listed)
          (λ _. Safe chrono fs now before listed)
          (λ s.
            Listed folder entry (seen chrono fs s)
            × Found chrono fs folder entry.marker c (seen chrono fs s).at)
          (Sweep.begin_at chrono fs now folder entry c)
  unfolding Sweep.begin_at
  begin_at-Spares folder entry owned =
      Ensures-if (Sweep.is_due chrono fs now entry) _ _
        (λ due. record {
          at = λ s k.
              (start_purge-Spares folder entry.marker (
                  IsOwned-Removable chrono fs now before listed (seen chrono fs s) folder entry
                    k.0.0 k.0.1 k.1 (inr due))).at
                s k.0.0;
        })
        (λ _. record { at = λ s k. k.0.0 })
  begin_at-Spares folder entry not_owned = record {
    at = λ s k. (forget-Spares chrono fs now before listed folder).at s k.0.0;
  }
  begin_at-Spares folder entry unreadable = record { at = λ s k. k.0.0 }

  sweep_entry-Spares :
      (folder : Text) (entry : Option (TrashEntry chrono))
      → Ensures
          (Safe chrono fs now before listed)
          (λ _. Safe chrono fs now before listed)
          (λ s. Safe chrono fs now before listed s × (lookup folder s.index ≡ entry))
          (Sweep.sweep_entry chrono fs now folder entry)
  unfolding Sweep.sweep_entry
  sweep_entry-Spares folder none = record { at = λ s k. k.0 }
  sweep_entry-Spares folder (some entry) =
      Ensures-if entry.purging _ _ (resume-Spares folder entry)
        (λ _. Ensures-bind _ _ (candidate-Listed folder entry) (begin_at-Spares folder entry))

  sweep_folder-Spares :
      (folder : Text)
      → Ensures
          (Safe chrono fs now before listed)
          (λ _. Safe chrono fs now before listed)
          (Safe chrono fs now before listed)
          (Sweep.sweep_folder chrono fs now folder)
  unfolding Sweep.sweep_folder
  sweep_folder-Spares folder =
      Ensures-bind {Q = λ e s. Safe chrono fs now before listed s × (lookup folder s.index ≡ e)} _ _
        (record { at = λ s k. (k, refl) }) (sweep_entry-Spares folder)

  sweep_folders-Spares :
      (names : List Text) (changed : Bool)
      → Ensures
          (Safe chrono fs now before listed)
          (λ _. Safe chrono fs now before listed)
          (Safe chrono fs now before listed)
          (Sweep.sweep_folders chrono fs now names changed)
  unfolding Sweep.sweep_folders
  sweep_folders-Spares [] changed = Ensures-pure changed (λ s k. k)
  sweep_folders-Spares (folder ∷ names) changed =
      Ensures-bind _ _ (sweep_folder-Spares folder) λ c. sweep_folders-Spares names _

  pub sweep_index-Spares :
      Ensures
        (Safe chrono fs now before listed)
        (λ _. Safe chrono fs now before listed)
        (Safe chrono fs now before listed)
        (Sweep.sweep_index chrono fs now)
  unfolding Sweep.sweep_index
  sweep_index-Spares =
      Ensures-bind {Q = λ _. Safe chrono fs now before listed} _ _ (record { at = λ s k. k })
        λ names. Ensures-bind _ _ (sweep_folders-Spares names false) λ changed.
          Ensures-bind {Q = λ _. Safe chrono fs now before listed} _ _ (record { at = λ s k. k })
            λ index.
              Ensures-bind {Q = λ _. Safe chrono fs now before listed} _ _
                (Ensures-if changed _ _
                  (λ _. quiet chrono fs now before listed _ (write_index-IsQuiet chrono fs index))
                  (λ _. Ensures-pure tt (λ s k. k)))
                λ _. record { at = λ s k. k }
