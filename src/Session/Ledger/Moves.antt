-- ===== src/Session/Ledger/Moves.antt =====
-- What one more record makes of the entries of a log.
use scrybe.Common.{◌≡◌, sym, ap, ◌∙◌, true, false, some, List, [], ◌∷◌, ◌++◌, Bool, if◌then◌else◌}
use mathlib.Core.Path.{subst}
use mathlib.Core.List.{Perm, append_assoc, append-nil, perm_middle, perm_append_singleton}
use mathlib.Core.List.Perm
use scrybe.Storage.TranscriptLog.{TranscriptPartialRecord}
use scrybe.Session.Ledger.{Entry, entries, entries-append}

module _ (p : TranscriptPartialRecord → Bool) (rs : List TranscriptPartialRecord)
    (r : TranscriptPartialRecord) where
  abbrev pub entry_if : Bool → List Entry
  entry_if b = if b then (some r.seq, r.chunk) ∷ [] else []

  pub gained : p r ≡ true → entries p (rs ++ r ∷ []) ≡ entries p rs ++ (some r.seq, r.chunk) ∷ []
  gained e = entries-append p rs r ∙ ap (λ b. entries p rs ++ entry_if b) e

  pub kept : p r ≡ false → entries p (rs ++ r ∷ []) ≡ entries p rs
  kept e =
      entries-append p rs r ∙ ap (λ b. entries p rs ++ entry_if b) e ∙ append-nil (entries p rs)

-- an entry moves from what is in hand to what is done
pub move_done :
    (all done rejected rest : List Entry) (e : Entry)
    → Perm all (done ++ (rejected ++ e ∷ rest))
    → Perm all ((done ++ e ∷ []) ++ (rejected ++ rest))
move_done all done rejected rest e h = Perm.trans h (
    subst (Perm (done ++ (rejected ++ e ∷ rest)))
      (sym (append_assoc done (e ∷ []) (rejected ++ rest)))
      (Perm.append_left done (perm_middle rejected rest)))

pub move_rejected :
    (all done rejected rest : List Entry) (e : Entry)
    → Perm all (done ++ (rejected ++ e ∷ rest))
    → Perm all (done ++ ((rejected ++ e ∷ []) ++ rest))
move_rejected all done rejected rest e h =
    subst (λ l. Perm all (done ++ l)) (sym (append_assoc rejected (e ∷ []) rest)) h

-- a new entry is in hand first
pub move_new :
    (all done rejected rest : List Entry) (e : Entry)
    → Perm all (done ++ (rejected ++ rest))
    → Perm (all ++ e ∷ []) (done ++ (rejected ++ e ∷ rest))
move_new all done rejected rest e h = Perm.trans (perm_append_singleton e all) (
    Perm.trans (Perm.cons e h) (
      Perm.symm (
        Perm.trans (Perm.append_left done (perm_middle rejected rest))
          (perm_middle done (rejected ++ rest)))))
