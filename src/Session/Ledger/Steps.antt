-- ===== src/Session/Ledger/Steps.antt =====
-- What each write to the disk makes of the account, whole or cut off.
use scrybe.Common.{
  ℕ, ◌≡◌, refl, sym, ap, ◌∙◌, inl, inr, true, false, none, some, List, [], ◌∷◌, ◌++◌, map, arith,
  Bool, Bool-cases, Option-cases,
}
use mathlib.Core.Path.{subst}
use mathlib.Core.List.{Perm, append-nil}
use mathlib.Core.List.Perm
use scrybe.Common.Words.{sat_add_u64}
use scrybe.Common.Counting.{count_if, count_if-append, count_if-Perm}
use scrybe.Text.{Text}
use scrybe.Types.{AttributedChunk}
use scrybe.Notes.Transcript.{render_transcript_line}
use scrybe.Storage.TranscriptLog.{
  TranscriptPartialRecord, TranscriptPartialLog, JsonCodec, IsLineCodec, contents, write_line,
}
use scrybe.Storage.TranscriptLog.Report.{is_orphan, is_flushed, is_suppressed}
use scrybe.Storage.TranscriptLog.File.{contents-write_line}
use scrybe.Session.AcceptedFinal.{AcceptedFinal, AcceptedFinalBoundary}
use scrybe.Session.AcceptedFinal.Conservation.{finals}
use scrybe.Session.Persist.{attributed, flushed_record, suppressed_record}
use scrybe.Session.Streaming.{pending_record, partial_record}
use scrybe.Session.View.{View}
use scrybe.Session.Ledger.{Entry, entry_of, entries, written, IsLedger, written-append}
use scrybe.Session.Ledger.Lines.{IsNumbered-append, IsNumbered-settle, with_wal}
use scrybe.Session.Ledger.Moves.{move_done, move_rejected, move_new, gained, kept}

module _ (codec : JsonCodec) (c : IsLineCodec codec) (header : Text) where
  -- the flushed mark of the final in hand
  pub flush_whole :
      {v : View} (f : AcceptedFinal) (seq : ℕ) (hand : List AcceptedFinal)
      → f.wal_seq ≡ some seq
      → IsLedger codec header (f ∷ hand) (render_transcript_line (attributed f)) v
      → IsLedger codec header hand []
          (with_wal (write_line codec (flushed_record seq (attributed f)) v.wal) v)
  unfolding write_line
  flush_whole {v} f seq hand e l =
      let r = flushed_record seq (attributed f) in
      let rs = l.records in
      let open_entries = map entry_of (hand ++ finals v.boundary.pending) in
      let done = entries is_flushed rs in
      let rejected = entries is_suppressed rs in
      record {
        records = rs ++ r ∷ [];
        whole = contents-write_line codec c rs r v.wal l.whole;
        numbered = IsNumbered-settle v.wal.next_seq rs r l.numbered refl refl;
        settled =
            rw (kept is_orphan rs r refl, gained is_flushed rs r refl, kept is_suppressed rs r refl)
              (move_done (entries is_orphan rs) done rejected open_entries (some seq, attributed f)
                (subst
                  (λ k.
                    Perm (entries is_orphan rs)
                      (done ++ (rejected ++ (k, attributed f) ∷ open_entries)))
                  e l.settled));
        lines =
            l.lines
            ∙ ap (λ t. header ++ t)
                (ap (λ t. written done ++ t) (sym (append-nil _))
                  ∙ sym (written-append done ((some seq, attributed f) ∷ []))
                  ∙ sym (append-nil _)
                  ∙ ap (λ es. written es ++ []) (sym (gained is_flushed rs r refl)));
      }

  -- the suppressed mark of the final in hand
  pub suppress_whole :
      {v : View} (f : AcceptedFinal) (seq : ℕ) (hand : List AcceptedFinal)
      → f.wal_seq ≡ some seq
      → IsLedger codec header (f ∷ hand) [] v
      → IsLedger codec header hand []
          (with_wal (write_line codec (suppressed_record seq (attributed f)) v.wal) v)
  unfolding write_line
  suppress_whole {v} f seq hand e l =
      let r = suppressed_record seq (attributed f) in
      let rs = l.records in
      let open_entries = map entry_of (hand ++ finals v.boundary.pending) in
      let done = entries is_flushed rs in
      let rejected = entries is_suppressed rs in
      record {
        records = rs ++ r ∷ [];
        whole = contents-write_line codec c rs r v.wal l.whole;
        numbered = IsNumbered-settle v.wal.next_seq rs r l.numbered refl refl;
        settled =
            rw (kept is_orphan rs r refl, kept is_flushed rs r refl, gained is_suppressed rs r refl)
              (move_rejected (entries is_orphan rs) done rejected open_entries
                (some seq, attributed f)
                (subst
                  (λ k.
                    Perm (entries is_orphan rs)
                      (done ++ (rejected ++ (k, attributed f) ∷ open_entries)))
                  e l.settled));
        lines = l.lines ∙ ap (λ es. header ++ (written es ++ [])) (sym (kept is_flushed rs r refl));
      }

  -- a closed segment is pending, and in hand
  pub pending_whole :
      {v : View} (f : AcceptedFinal) (hand : List AcceptedFinal) (wal : TranscriptPartialLog)
      → f.wal_seq ≡ some v.wal.next_seq
      → contents wal.file
        ≡ contents (write_line codec (pending_record v.wal.next_seq (attributed f)) v.wal).file
      → wal.next_seq ≡ sat_add_u64 v.wal.next_seq 1
      → IsLedger codec header hand [] v
      → IsLedger codec header (f ∷ hand) [] (with_wal wal v)
  pending_whole {v} f hand wal e w n l =
      let r = pending_record v.wal.next_seq (attributed f) in
      let rs = l.records in
      let open_entries = map entry_of (hand ++ finals v.boundary.pending) in
      let done = entries is_flushed rs in
      let rejected = entries is_suppressed rs in
      record {
        records = rs ++ r ∷ [];
        whole = w ∙ contents-write_line codec c rs r v.wal l.whole;
        numbered = rw n (IsNumbered-append v.wal.next_seq rs r l.numbered refl refl);
        settled =
            rw (gained is_orphan rs r refl, kept is_flushed rs r refl, kept is_suppressed rs r refl)
              (subst
                (λ k.
                  Perm (entries is_orphan rs ++ (some v.wal.next_seq, attributed f) ∷ [])
                    (done ++ (rejected ++ (k, attributed f) ∷ open_entries)))
                (sym e)
                (move_new (entries is_orphan rs) done rejected open_entries
                  (some v.wal.next_seq, attributed f) l.settled));
        lines = l.lines ∙ ap (λ es. header ++ (written es ++ [])) (sym (kept is_flushed rs r refl));
      }

  -- a hypothesis of the recognizer only takes a number
  pub partial_whole :
      {v : View} (chunk : AttributedChunk) (hand : List AcceptedFinal) (wal : TranscriptPartialLog)
      → contents wal.file
        ≡ contents (write_line codec (partial_record v.wal.next_seq chunk) v.wal).file
      → wal.next_seq ≡ sat_add_u64 v.wal.next_seq 1
      → IsLedger codec header hand [] v
      → IsLedger codec header hand [] (with_wal wal v)
  partial_whole {v} chunk hand wal w n l =
      let r = partial_record v.wal.next_seq chunk in
      let rs = l.records in
      record {
        records = rs ++ r ∷ [];
        whole = w ∙ contents-write_line codec c rs r v.wal l.whole;
        numbered = rw n (IsNumbered-append v.wal.next_seq rs r l.numbered refl refl);
        settled =
            rw (kept is_orphan rs r refl, kept is_flushed rs r refl, kept is_suppressed rs r refl)
              l.settled;
        lines = l.lines ∙ ap (λ es. header ++ (written es ++ [])) (sym (kept is_flushed rs r refl));
      }

-- the boundary takes finals from what is in hand, or hands them on
pub boundary_whole :
    (codec : JsonCodec) (header : Text) {v : View} (hand hand' : List AcceptedFinal)
    (b : AcceptedFinalBoundary)
    → Perm (hand' ++ finals b.pending) (hand ++ finals v.boundary.pending)
    → IsLedger codec header hand [] v
    → IsLedger codec header hand' [] (record v { boundary = b })
boundary_whole codec header hand hand' b p l = record {
  records = l.records;
  whole = l.whole;
  numbered = l.numbered;
  settled = Perm.trans l.settled (
      Perm.append_left (entries is_flushed l.records)
        (Perm.append_left (entries is_suppressed l.records) (Perm.symm (Perm.map entry_of p))));
  lines = l.lines;
}

abbrev unnumbered : Entry → Bool
unnumbered (none, _) = true
unnumbered (some _, _) = false

entries-numbered :
    (p : TranscriptPartialRecord → Bool) (rs : List TranscriptPartialRecord)
    → count_if unnumbered (entries p rs) ≡ 0
entries-numbered p [] = refl
entries-numbered p (r ∷ rs) = elim (Bool-cases (p r)) [
  | inl e ↦ rw e (omega (arith, entries-numbered p rs))
  | inr e ↦ rw e (entries-numbered p rs)
]

-- The final in hand has a number of the log.
pub hand-numbered :
    {codec : JsonCodec} {header tail : Text} {v : View} (f : AcceptedFinal)
    (hand : List AcceptedFinal)
    → IsLedger codec header (f ∷ hand) tail v
    → (seq : ℕ) × (f.wal_seq ≡ some seq)
hand-numbered {v = v} f hand l = elim (Option-cases f.wal_seq) [
  | inl e ↦
      let done = entries is_flushed l.records in
      let rejected = entries is_suppressed l.records in
      let rest = map entry_of (hand ++ finals v.boundary.pending) in
      absurd (
        omega (
          arith,
          count_if-Perm unnumbered l.settled,
          entries-numbered is_orphan l.records,
          count_if-append unnumbered done (rejected ++ entry_of f ∷ rest),
          count_if-append unnumbered rejected (entry_of f ∷ rest),
          ap (λ k. count_if unnumbered ((k, attributed f) ∷ rest)) e,
        ))
  | inr (seq, e) ↦ (seq, e)
]
