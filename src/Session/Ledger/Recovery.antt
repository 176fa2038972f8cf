-- ===== src/Session/Ledger/Recovery.antt =====
-- What a crash recovers of a session whose account is whole: just the finals that are not decided.
use scrybe.Common.{
  ℕ, ◌+◌, ◌≤◌, ◌<◌, ◌≡◌, sym, ap, ◌∙◌, inl, inr, Bool, true, false, not, ◌&&◌, ◌||◌, none, some,
  is_some, List, [], ◌∷◌, ◌++◌, map, All, leb, ◌==◌, arith, Option-cases,
}
use scrybe.Common.Counting.{count_if, count_if-append, count_if-Perm}
use scrybe.Common.Words.{u64_max}
use scrybe.Text.{Text}
use scrybe.Storage.TranscriptLog.{TranscriptPartialRecord, JsonCodec, IsLineCodec, scan_recovery}
use scrybe.Storage.TranscriptLog.Latest.{find_seq, find_flushed, or_else, verdict}
use scrybe.Storage.TranscriptLog.Report.{is_orphan, is_flushed, is_suppressed, only}
use scrybe.Storage.TranscriptLog.Lifecycle.{report_of_log}
use scrybe.Session.AcceptedFinal.{AcceptedFinal}
use scrybe.Session.AcceptedFinal.Conservation.{finals}
use scrybe.Session.View.{View}
use scrybe.Session.Ledger.{Entry, entry_of, entries, count_seq, takes_number, IsLedger}

-- does the entry have this number
abbrev pub has_number : ℕ → Entry → Bool
has_number q (none, _) = false
has_number q (some seq, _) = seq == q

abbrev Marked : List TranscriptPartialRecord → Type 0
Marked = All (λ r. (is_orphan r || r.flushed_to_transcript) ≡ true)

module _ (q : ℕ) where
  abbrev count_of : (TranscriptPartialRecord → Bool) → List TranscriptPartialRecord → ℕ
  count_of p rs = count_if (has_number q) (entries p rs)

  is_hypothesis : TranscriptPartialRecord → Bool
  is_hypothesis r = takes_number r && not (is_orphan r)

  count_seq-split :
      (rs : List TranscriptPartialRecord)
      → count_seq q rs ≡ count_of is_orphan rs + count_of is_hypothesis rs
  unfolding is_hypothesis
  count_seq-split [] = omega arith
  count_seq-split (r ∷ rs) = ground (arith, count_seq-split rs)

  -- how many marks of every kind the log has for the number
  abbrev marks : List TranscriptPartialRecord → ℕ
  marks rs = count_of is_flushed rs + count_of is_suppressed rs + count_of is_hypothesis rs

  unflushed→unmarked :
      (rs : List TranscriptPartialRecord) → Marked rs → find_flushed q rs ≡ none → marks rs ≡ 0
  unfolding is_hypothesis
  unflushed→unmarked [] m e = omega arith
  unflushed→unmarked (r ∷ rs) m e = ground (arith, m.0, unflushed→unmarked rs m.1)

  flushed→marked :
      (rs : List TranscriptPartialRecord) (r : TranscriptPartialRecord)
      → find_flushed q rs ≡ some r
      → (r.flushed_to_transcript ≡ true) × (1 ≤ marks rs)
  unfolding is_hypothesis
  flushed→marked [] r e = absurd (cc)
  flushed→marked (x ∷ rs) r e = ground (arith, flushed→marked rs r)

  unflushed-orphan :
      (rs : List TranscriptPartialRecord)
      → Marked rs
      → find_flushed q rs ≡ none
      → is_some (only is_orphan (find_seq q rs)) ≡ leb 1 (count_of is_orphan rs)
  unflushed-orphan [] m e = ground arith
  unflushed-orphan (r ∷ rs) m e = ground (arith, m.0, unflushed-orphan rs m.1)

  verdict-orphan :
      (rs : List TranscriptPartialRecord) (undecided : List Entry)
      → Marked rs
      → count_seq q rs ≤ 1
      → count_of is_orphan rs
        ≡ count_of is_flushed rs + (count_of is_suppressed rs + count_if (has_number q) undecided)
      → is_some (only is_orphan (verdict q rs)) ≡ leb 1 (count_if (has_number q) undecided)
  verdict-orphan rs undecided m once same = elim (Option-cases (find_flushed q rs)) [
    | inl e ↦
        let none_left : count_of is_orphan rs ≡ count_if (has_number q) undecided =
          omega (arith, unflushed→unmarked rs m e, same) in
        ap (λ o. is_some (only is_orphan (or_else o (find_seq q rs)))) e
        ∙ unflushed-orphan rs m e
        ∙ ap (leb 1) none_left
    | inr (r, e) ↦
        let found = flushed→marked rs r e in
        let none_left : count_if (has_number q) undecided ≡ 0 =
          omega (arith, found.1, count_seq-split rs, same, once) in
        ap (λ o. is_some (only is_orphan (or_else o (find_seq q rs)))) e
        ∙ flushed_no_orphan r (found.0)
        ∙ ap (leb 1) (sym none_left)
  ]
    where
      flushed_no_orphan :
          (r : TranscriptPartialRecord)
          → r.flushed_to_transcript ≡ true
          → is_some (only is_orphan (some r)) ≡ false
      flushed_no_orphan r f = ground arith

module _ (codec : JsonCodec) (c : IsLineCodec codec) (header : Text) where
  abbrev pub undecided_entries : List AcceptedFinal → View → List Entry
  undecided_entries hand v = map entry_of (hand ++ finals v.boundary.pending)

  -- A crash between two writes of a streaming session, while the log's numbers last, recovers an
  -- orphan under a number if and only if a final with that number is in hand or still held: nothing
  -- that was flushed or suppressed comes back, and nothing undecided is lost.
  pub scan_recovery-undecided :
      (hand : List AcceptedFinal) (tail : Text) (v : View) (q : ℕ)
      → IsLedger codec header hand tail v
      → v.wal.next_seq < u64_max
      → is_some (find_seq q (scan_recovery codec v.wal.file).orphans)
        ≡ leb 1 (count_if (has_number q) (undecided_entries hand v))
  scan_recovery-undecided hand tail v q l low = elim l.numbered [
    | inl high ↦ absurd (omega (arith, high, low))
    | inr n ↦
        ap is_some (report_of_log codec c l.records v.wal q l.whole).0
        ∙ verdict-orphan q l.records (undecided_entries hand v) n.marked (n.once q) (
            count_if-Perm (has_number q) l.settled
            ∙ count_if-append (has_number q) (entries is_flushed l.records) _
            ∙ ap (λ k. count_of q is_flushed l.records + k)
                (count_if-append (has_number q) (entries is_suppressed l.records) _))
  ]
