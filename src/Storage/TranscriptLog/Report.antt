-- ===== src/Storage/TranscriptLog/Report.antt =====
-- The report of a recovery scan, read off the map, and so off the log.
use scrybe.Common.{
  ℕ, ◌<◌, ◌≡◌, refl, sym, ap, ◌∙◌, inl, inr, Bool, true, false, not, ◌&&◌, ◌||◌, Option, none, some,
  is_some, List, [], ◌∷◌, ◌++◌, All, All-mono, arith, leb, le→leb, ◌==◌, if◌then◌else◌, Bool-cases,
}
use mathlib.Core.List.{append-nil, append_assoc}
use scrybe.Common.Sorting.{sort_by, IsSortedBy, sort_by_of_IsSortedBy}
use scrybe.Storage.TranscriptLog.{
  TranscriptPartialRecord, TranscriptRecordKind, final, suppressed, RecoveryReport, file_record,
  file_all, sort_report, by_seq, report_of, empty_report,
}
use scrybe.Storage.TranscriptLog.Latest.{
  find_seq, verdict, enter_all, Ascending, above-find_seq, enter_all-Ascending,
  find_seq-enter_all-verdict,
}

abbrev is_final : TranscriptRecordKind → Bool
is_final final = true
is_final _ = false

abbrev is_suppressed_kind : TranscriptRecordKind → Bool
is_suppressed_kind suppressed = true
is_suppressed_kind _ = false

-- pending work, what reached the transcript, and what was rejected as an echo
abbrev pub is_orphan : TranscriptPartialRecord → Bool
is_orphan r = is_final r.kind && not r.flushed_to_transcript

abbrev pub is_flushed : TranscriptPartialRecord → Bool
is_flushed r = is_final r.kind && r.flushed_to_transcript

abbrev pub is_suppressed : TranscriptPartialRecord → Bool
is_suppressed r = is_suppressed_kind r.kind

keep :
    (TranscriptPartialRecord → Bool) → List TranscriptPartialRecord → List TranscriptPartialRecord
keep p [] = []
keep p (r ∷ m) = let rest = keep p m in if p r then r ∷ rest else rest

seqs : List TranscriptPartialRecord → List ℕ
seqs [] = []
seqs (r ∷ m) = r.seq ∷ seqs m

one {ℓ} : {A : Type ℓ} → Bool → A → List A
one b a = if b then a ∷ [] else []

file_record_lists :
    (r : TranscriptPartialRecord) (out : RecoveryReport)
    → let out' = file_record r.kind r out in
      (out'.flushed_seqs ≡ out.flushed_seqs ++ one (is_flushed r) r.seq)
      × (out'.orphans ≡ out.orphans ++ one (is_orphan r) r)
      × (out'.suppressed_seqs ≡ out.suppressed_seqs ++ one (is_suppressed r) r.seq)
unfolding file_record one
file_record_lists r out =
    ground
      (arith, append-nil out.flushed_seqs, append-nil out.orphans, append-nil out.suppressed_seqs)

seqs-keep_cons :
    (p : TranscriptPartialRecord → Bool) (r : TranscriptPartialRecord)
    (m : List TranscriptPartialRecord)
    → one (p r) r.seq ++ seqs (keep p m) ≡ seqs (keep p (r ∷ m))
unfolding keep seqs one
seqs-keep_cons p r m = elim (Bool-cases (p r)) [ inl e ↦ rw e | inr e ↦ rw e ]

keep_cons :
    (p : TranscriptPartialRecord → Bool) (r : TranscriptPartialRecord)
    (m : List TranscriptPartialRecord)
    → one (p r) r ++ keep p m ≡ keep p (r ∷ m)
unfolding keep one
keep_cons p r m = elim (Bool-cases (p r)) [ inl e ↦ rw e | inr e ↦ rw e ]

-- what is filed now goes before what the rest of the map files
filed {ℓ} :
    {A : Type ℓ} (total now out first rest both : List A)
    → total ≡ now ++ rest
    → now ≡ out ++ first
    → first ++ rest ≡ both
    → total ≡ out ++ both
filed total now out first rest both t n b =
    t ∙ ap (λ l. l ++ rest) n ∙ append_assoc out first rest ∙ ap (λ l. out ++ l) b

file_all_lists :
    (m : List TranscriptPartialRecord) (out : RecoveryReport)
    → ((file_all m out).flushed_seqs ≡ out.flushed_seqs ++ seqs (keep is_flushed m))
      × ((file_all m out).orphans ≡ out.orphans ++ keep is_orphan m)
      × ((file_all m out).suppressed_seqs ≡ out.suppressed_seqs ++ seqs (keep is_suppressed m))
unfolding file_all
file_all_lists [] out =
    unfold keep seqs in (sym (append-nil _), sym (append-nil _), sym (append-nil _))
file_all_lists (r ∷ m) out =
    let now = file_record_lists r out in
    let rest = file_all_lists m (file_record r.kind r out) in
    (
      filed _ _ _ _ _ _ rest.0 now.0 (seqs-keep_cons is_flushed r m),
      filed _ _ _ _ _ _ rest.1 now.1 (keep_cons is_orphan r m),
      filed _ _ _ _ _ _ rest.2 now.2 (seqs-keep_cons is_suppressed r m),
    )

keep-Ascending :
    (p : TranscriptPartialRecord → Bool) (m : List TranscriptPartialRecord)
    → Ascending m
    → Ascending (keep p m)
unfolding keep
keep-Ascending p [] a = tt
keep-Ascending p (e ∷ m) a = elim (Bool-cases (p e)) [
  | inl t ↦ rw t (keep-All m a.0, keep-Ascending p m a.1)
  | inr t ↦ rw t (keep-Ascending p m a.1)
]
  where
    keep-All :
        (l : List TranscriptPartialRecord)
        → All (λ x. e.seq < x.seq) l
        → All (λ x. e.seq < x.seq) (keep p l)
    keep-All [] h = tt
    keep-All (x ∷ l) h = elim (Bool-cases (p x)) [
      | inl t ↦ rw t (h.0, keep-All l h.1)
      | inr t ↦ rw t (keep-All l h.1)
    ]

by_seq-IsSortedBy : (m : List TranscriptPartialRecord) → Ascending m → IsSortedBy by_seq m
by_seq-IsSortedBy [] a = tt
by_seq-IsSortedBy (e ∷ m) a = (
  All-mono (λ x. e.seq < x.seq) (λ x. by_seq e x ≡ true) (λ x h. le→leb e.seq x.seq (omega arith)) m
      a.0,
  by_seq-IsSortedBy m a.1,
)

seqs-IsSortedBy : (m : List TranscriptPartialRecord) → Ascending m → IsSortedBy leb (seqs m)
unfolding seqs
seqs-IsSortedBy [] a = tt
seqs-IsSortedBy (e ∷ m) a = (above m a.0, seqs-IsSortedBy m a.1)
  where
    above :
        (l : List TranscriptPartialRecord)
        → All (λ x. e.seq < x.seq) l
        → All (λ s. leb e.seq s ≡ true) (seqs l)
    above [] h = tt
    above (x ∷ l) h = (le→leb e.seq x.seq (omega arith), above l h.1)

-- on an ascending map the report's sorts change nothing
report_of_lists :
    (m : List TranscriptPartialRecord) (bad : ℕ)
    → Ascending m
    → ((report_of (m, bad)).flushed_seqs ≡ seqs (keep is_flushed m))
      × ((report_of (m, bad)).orphans ≡ keep is_orphan m)
      × ((report_of (m, bad)).suppressed_seqs ≡ seqs (keep is_suppressed m))
report_of_lists m bad a =
    let (f, o, s) = file_all_lists m (record empty_report { malformed_line_count = bad }) in
    unfold report_of sort_report in
    (
      ap (sort_by leb) f
          ∙ sort_by_of_IsSortedBy leb _ (seqs-IsSortedBy _ (keep-Ascending is_flushed m a)),
      ap (sort_by by_seq) o
          ∙ sort_by_of_IsSortedBy by_seq _ (by_seq-IsSortedBy _ (keep-Ascending is_orphan m a)),
      ap (sort_by leb) s
          ∙ sort_by_of_IsSortedBy leb _ (seqs-IsSortedBy _ (keep-Ascending is_suppressed m a)),
    )

abbrev pub only :
    (TranscriptPartialRecord → Bool)
    → Option TranscriptPartialRecord
    → Option TranscriptPartialRecord
only p none = none
only p (some r) = if p r then some r else none

abbrev pub has : ℕ → List ℕ → Bool
has s [] = false
has s (n ∷ ns) = n == s || has s ns

find_seq-keep :
    (s : ℕ) (p : TranscriptPartialRecord → Bool) (m : List TranscriptPartialRecord)
    → Ascending m
    → find_seq s (keep p m) ≡ only p (find_seq s m)
unfolding keep
find_seq-keep s p [] a = refl
find_seq-keep s p (e ∷ m) a = ground (arith, find_seq-keep s p m a.1, above-find_seq e.seq s m)

has-seqs : (s : ℕ) (m : List TranscriptPartialRecord) → has s (seqs m) ≡ is_some (find_seq s m)
unfolding seqs
has-seqs s [] = refl
has-seqs s (e ∷ m) = ground (arith, has-seqs s m)

-- For every sequence number, the report of a scan says of it what the whole log says: it is an
-- orphan, with the record that is replayed, exactly when the log's verdict on it is a final that
-- is not flushed; it counts as flushed, or as suppressed, exactly when the verdict is that.
pub report_of-verdict :
    (s bad : ℕ) (rs : List TranscriptPartialRecord)
    → let report = report_of (enter_all rs [], bad) in
      (find_seq s report.orphans ≡ only is_orphan (verdict s rs))
      × (has s report.flushed_seqs ≡ is_some (only is_flushed (verdict s rs)))
      × (has s report.suppressed_seqs ≡ is_some (only is_suppressed (verdict s rs)))
report_of-verdict s bad rs =
    let m = enter_all rs [] in
    let a : Ascending m = enter_all-Ascending rs [] tt in
    let (f, o, u) = report_of_lists m bad a in
    let v = find_seq-enter_all-verdict s rs in
    (
      ap (find_seq s) o ∙ find_seq-keep s is_orphan m a ∙ ap (only is_orphan) v,
      ap (has s) f
          ∙ has-seqs s (keep is_flushed m)
          ∙ ap is_some (find_seq-keep s is_flushed m a ∙ ap (only is_flushed) v),
      ap (has s) u
          ∙ has-seqs s (keep is_suppressed m)
          ∙ ap is_some (find_seq-keep s is_suppressed m a ∙ ap (only is_suppressed) v),
    )
