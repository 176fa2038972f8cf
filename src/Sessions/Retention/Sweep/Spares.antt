-- ===== src/Sessions/Retention/Sweep/Spares.antt =====
-- What a sweep takes away: only folders that the index authorizes it to remove.
use scrybe.Common.{
  ◌≡◌, ◌⊎◌, inl, inr, sym, ap, ◌∙◌, true, none, some, List, if◌then◌else◌, Bool-cases,
}
use mathlib.Core.Path.{subst}
use scrybe.Common.Action.{Result, ok, err, Outcome, Ensures}
use scrybe.Text.{Text, text_eq, text_eq→eq}
use scrybe.Sessions.Error.{ErrorCode}
use scrybe.Sessions.Retention.{SweepOutcome, Chrono, TrashEntry, FileSystem, Tree}
use scrybe.Sessions.Retention.Index.{
  lookup, remove, change, lookup-remove_other, lookup-remove_same, lookup-change_other,
}
use scrybe.Sessions.Retention.Disk.{Retention, put_name}
use scrybe.Sessions.Retention.Disk.Quiet.{Folders, folders, IsQuiet}
use scrybe.Sessions.Retention.Staging.Quiet.{IsOwned}
use scrybe.Sessions.Retention.Sweep

module _ (chrono : Chrono) (fs : FileSystem) where
  abbrev pub Index : Type 0
  Index = List (Text × TrashEntry chrono)

  -- what a sweep goes by: where the folders are, and its index
  pub record Seen : Type 0 where
    pub at : Folders
    pub index : Index

  abbrev pub seen : Sweep.Sweep chrono fs → Seen
  seen s = record { at = folders chrono fs s.tree; index = s.index }

  -- The folder was in the trash, it was a session, its own marker is the one that the index names for
  -- it, and its window has passed or its removal had begun.
  pub record IsRemovable (now : chrono.DateTime) (before : Folders) (index : Index) (folder : Text)
      : Type 0 where
    pub entry : TrashEntry chrono
    pub listed : lookup folder index ≡ some entry
    pub owns : IsOwned chrono fs folder entry.marker before
    pub due : (entry.purging ≡ true) ⊎ (Sweep.is_due chrono fs now entry ≡ true)

  module _ (now : chrono.DateTime) (before : Folders) (listed : Index) where
    abbrev pub Removable : Text → Type 0
    Removable = IsRemovable now before listed

    -- a folder that is still there has its entry, or none
    abbrev pub Stays : Seen → Text → Type 0
    Stays v folder =
        (v.at.trashed folder ≡ before.trashed folder)
        × ((lookup folder v.index ≡ lookup folder listed) ⊎ (lookup folder v.index ≡ none))

    pub record Spares (v : Seen) : Type 0 where
      pub root : v.at.root ≡ before.root
      pub archived : v.at.archived ≡ before.archived
      pub each : (folder : Text) → Stays v folder ⊎ Removable folder

    abbrev pub Sparing : Sweep.Sweep chrono fs → Type 0
    Sparing s = Spares (seen s)

    pub Spares-moved :
        (f : Folders) (index : Index) (folder : Text)
        → Removable folder
        → Spares (record { at = f; index = index })
        → Spares
            (record { at = record f { trashed = put_name folder none f.trashed }; index = index })
    Spares-moved f index folder r k = record {
      root = k.root;
      archived = k.archived;
      each = λ g. elim (Bool-cases (text_eq g folder)) [
        | inl e ↦ inr (subst Removable (sym (text_eq→eq g folder e)) r)
        | inr e ↦ elim (k.each g) [
          | inl stays ↦ inl (ap (λ b. if b then none else f.trashed g) e ∙ stays.0, stays.1)
          | inr removable ↦ inr removable
        ]
      ];
    }

    pub Spares-remove :
        (f : Folders) (index : Index) (folder : Text)
        → Spares (record { at = f; index = index })
        → Spares (record { at = f; index = remove folder index })
    Spares-remove f index folder k = record {
      root = k.root;
      archived = k.archived;
      each = λ g. elim (k.each g) [
        | inl stays ↦ inl (
          stays.0,
          elim (Bool-cases (text_eq g folder)) [
            | inl e ↦ inr (
                subst (λ h. lookup h (remove folder index) ≡ none) (sym (text_eq→eq g folder e))
                  (lookup-remove_same folder index))
            | inr e ↦ elim stays.1 [
              | inl same ↦ inl (lookup-remove_other g folder index e ∙ same)
              | inr gone ↦ inr (lookup-remove_other g folder index e ∙ gone)
            ]
          ],
        )
        | inr removable ↦ inr removable
      ];
    }

    pub Spares-change :
        (f : Folders) (index : Index) (folder : Text)
        (change_of : TrashEntry chrono → TrashEntry chrono)
        → Removable folder
        → Spares (record { at = f; index = index })
        → Spares (record { at = f; index = change folder change_of index })
    Spares-change f index folder change_of r k = record {
      root = k.root;
      archived = k.archived;
      each = λ g. elim (Bool-cases (text_eq g folder)) [
        | inl e ↦ inr (subst Removable (sym (text_eq→eq g folder e)) r)
        | inr e ↦ elim (k.each g) [
          | inl stays ↦ inl (
            stays.0,
            elim stays.1 [
              | inl same ↦ inl (lookup-change_other g folder change_of index e ∙ same)
              | inr gone ↦ inr (lookup-change_other g folder change_of index e ∙ gone)
            ],
          )
          | inr removable ↦ inr removable
        ]
      ];
    }

    -- a folder of the index that is found to be owned may go once it is due
    pub IsOwned-Removable :
        (v : Seen) (folder : Text) (entry : TrashEntry chrono)
        → Spares v
        → lookup folder v.index ≡ some entry
        → IsOwned chrono fs folder entry.marker v.at
        → (entry.purging ≡ true) ⊎ (Sweep.is_due chrono fs now entry ≡ true)
        → Removable folder
    IsOwned-Removable v folder entry k l o due = elim (k.each folder) [
      | inl stays ↦ elim stays.1 [
        | inl same ↦ record {
          entry = entry;
          listed = sym same ∙ l;
          owns = record { found = o.found; there = sym stays.0 ∙ o.there; owns = o.owns };
          due = due;
        }
        | inr gone ↦ absurd (cc)
      ]
      | inr removable ↦ removable
    ]

    -- an operation on the file system, from what it does to the folders
    pub on_tree-Ensures :
        {A : Type 0} (P : Seen → Type 0) (Q : A → Seen → Type 0) (m : Retention chrono fs A)
        → ((index : Index)
            → Ensures
                (λ t. Spares (record { at = folders chrono fs t; index = index }))
                (λ a t. Q a (record { at = folders chrono fs t; index = index }))
                (λ t. P (record { at = folders chrono fs t; index = index }))
                m)
        → Ensures Sparing (λ a s. Q a (seen s)) (λ s. P (seen s)) (Sweep.on_tree chrono fs m)
    unfolding Sweep.on_tree
    on_tree-Ensures {A} P Q m h = record {
      at = λ s k. brought s.index s.outcome (m s.tree) ((h s.index).at s.tree k);
    }
      where
        brought :
            (index : Index) (outcome : SweepOutcome) (r : Result ErrorCode A × Tree chrono fs)
            → Outcome
                (λ t. Spares (record { at = folders chrono fs t; index = index }))
                (λ a t. Q a (record { at = folders chrono fs t; index = index }))
                r
            → Outcome Sparing
                (λ a s. Q a (seen s))
                (r.0, record { tree = r.1; index = index; outcome = outcome })
        brought index outcome (ok a, t) k = k
        brought index outcome (err e, t) k = k

    pub quiet-Ensures :
        {A : Type 0} (P : Seen → Type 0) (m : Retention chrono fs A)
        → ((v : Seen) → P v → Spares v)
        → IsQuiet chrono fs m
        → Ensures Sparing (λ _ s. P (seen s)) (λ s. P (seen s)) (Sweep.on_tree chrono fs m)
    quiet-Ensures {A} P m h q =
        on_tree-Ensures P (λ _. P) m
          λ index. record {
            at = λ t k.
                both index (m t)
                  (subst (λ f. P (record { at = f; index = index })) (sym (q.same t)) k);
          }
      where
        both :
            (index : Index) (r : Result ErrorCode A × Tree chrono fs)
            → P (record { at = folders chrono fs r.1; index = index })
            → Outcome
                (λ t. Spares (record { at = folders chrono fs t; index = index }))
                (λ _ t. P (record { at = folders chrono fs t; index = index }))
                r
        both index (ok a, t) k = k
        both index (err e, t) k = h _ k
