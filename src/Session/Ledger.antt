-- ===== src/Session/Ledger.antt =====
-- The account that a streaming session keeps on its disk: what the log and transcript.md say of the
-- finals that the session has closed, between two operations and after one that failed.
pub mod Lines
pub mod Moves
pub mod Steps
pub mod Run
pub mod Recovery
use scrybe.Common.{
  ℕ, ◌+◌, ◌≤◌, ◌≡◌, refl, sym, ap, ◌∙◌, ◌⊎◌, inl, inr, Bool, true, false, ◌&&◌, ◌||◌, Option, some,
  List, [], ◌∷◌, ◌++◌, map, All, arith, ◌==◌, if◌then◌else◌, Bool-cases,
}
use mathlib.Core.List.{Perm, append_assoc}
use scrybe.Common.Words.{u64_max}
use scrybe.Text.{Text}
use scrybe.Types.{AttributedChunk}
use scrybe.Notes.Transcript.{render_transcript_line}
use scrybe.Storage.TranscriptLog
use scrybe.Storage.TranscriptLog.{
  TranscriptPartialRecord, TranscriptRecordKind, JsonCodec, contents,
}
use scrybe.Storage.TranscriptLog.Report.{is_orphan, is_flushed, is_suppressed}
use scrybe.Storage.TranscriptLog.File.{file_of}
use scrybe.Session.AcceptedFinal.{AcceptedFinal}
use scrybe.Session.AcceptedFinal.Conservation.{finals}
use scrybe.Session.Persist.{attributed}
use scrybe.Session.View.{View}

-- a number of the log and what it stands for
abbrev pub Entry : Type 0
Entry = Option ℕ × AttributedChunk

abbrev pub entry_of : AcceptedFinal → Entry
entry_of f = (f.wal_seq, attributed f)

-- the entries of the records with some property, in the order of the log
abbrev pub entries : (TranscriptPartialRecord → Bool) → List TranscriptPartialRecord → List Entry
entries p [] = []
entries p (r ∷ rs) = if p r then (some r.seq, r.chunk) ∷ entries p rs else entries p rs

abbrev pub written : List Entry → Text
written [] = []
written (e ∷ es) = render_transcript_line e.1 ++ written es

abbrev is_partial_kind : TranscriptRecordKind → Bool
is_partial_kind TranscriptLog.partial = true
is_partial_kind _ = false

-- the records that take a number of their own
abbrev pub takes_number : TranscriptPartialRecord → Bool
takes_number r = is_orphan r || is_partial_kind r.kind

abbrev pub count_seq : ℕ → List TranscriptPartialRecord → ℕ
count_seq q [] = 0
count_seq q (r ∷ rs) = if takes_number r && r.seq == q then 1 + count_seq q rs else count_seq q rs

-- no number below the next one is taken twice, none from there on is taken, and what is not pending
-- counts as flushed for a recovery
pub record IsNumbered (next : ℕ) (rs : List TranscriptPartialRecord) : Type 0 where
  pub once : (q : ℕ) → count_seq q rs ≤ 1
  pub fresh : (q : ℕ) → next ≤ q → count_seq q rs ≡ 0
  pub marked : All (λ r. (is_orphan r || r.flushed_to_transcript) ≡ true) rs

-- Every final that the session closed is settled in the log, in hand, or held by the boundary; the
-- transcript has exactly the flushed ones, in the log's order, and then the text `tail`.
pub record IsLedger (codec : JsonCodec) (header : Text) (hand : List AcceptedFinal) (tail : Text)
    (v : View) : Type 0 where
  pub records : List TranscriptPartialRecord
  pub whole : contents v.wal.file ≡ file_of codec records
  pub numbered : (u64_max ≤ v.wal.next_seq) ⊎ IsNumbered v.wal.next_seq records
  pub settled : Perm (entries is_orphan records) (
      entries is_flushed records
      ++ (entries is_suppressed records ++ map entry_of (hand ++ finals v.boundary.pending)))
  pub lines : v.transcript ≡ header ++ (written (entries is_flushed records) ++ tail)

-- The account of a session whose finals are all decided: every final that it closed is flushed or
-- suppressed in the log, once, and the transcript is the header and the flushed ones' lines.
pub record IsSettled (codec : JsonCodec) (header : Text) (v : View) : Type 0 where
  pub records : List TranscriptPartialRecord
  pub whole : contents v.wal.file ≡ file_of codec records
  pub numbered : (u64_max ≤ v.wal.next_seq) ⊎ IsNumbered v.wal.next_seq records
  pub settled :
      Perm (entries is_orphan records) (entries is_flushed records ++ entries is_suppressed records)
  pub lines : v.transcript ≡ header ++ written (entries is_flushed records)

-- the first part of a text
abbrev pub IsPrefix : Text → Text → Type 0
IsPrefix t whole = (rest : Text) × (t ++ rest ≡ whole)

-- The same after a failure: at most the final that was in hand first is ambiguous, its line whole or
-- torn at the end of the transcript, and the log may end in a torn record.
pub record IsTorn (codec : JsonCodec) (header : Text) (v : View) : Type 0 where
  pub records : List TranscriptPartialRecord
  pub hand : List AcceptedFinal
  pub torn_line : Text
  pub torn_record : Text
  pub whole : contents v.wal.file ≡ file_of codec records ++ torn_record
  pub unfinished :
      (torn_record ≡ [])
      ⊎ ((r : TranscriptPartialRecord) × IsPrefix torn_record (codec.to_string r ++ 10 ∷ []))
  pub settled : Perm (entries is_orphan records) (
      entries is_flushed records
      ++ (entries is_suppressed records ++ map entry_of (hand ++ finals v.boundary.pending)))
  pub lines : v.transcript ≡ header ++ (written (entries is_flushed records) ++ torn_line)
  pub ambiguous :
      (torn_line ≡ [])
      ⊎ ((f : AcceptedFinal) × (rest : List AcceptedFinal) × (hand ≡ f ∷ rest)
          × IsPrefix torn_line (render_transcript_line (attributed f)))

pub entries-append :
    (p : TranscriptPartialRecord → Bool) (rs : List TranscriptPartialRecord)
    (r : TranscriptPartialRecord)
    → entries p (rs ++ r ∷ []) ≡ entries p rs ++ entries p (r ∷ [])
entries-append p [] r = refl
entries-append p (x ∷ rs) r = elim (Bool-cases (p x)) [
  | inl e ↦ rw e (ap (λ l. (some x.seq, x.chunk) ∷ l) (entries-append p rs r))
  | inr e ↦ rw e (entries-append p rs r)
]

pub written-append : (es fs : List Entry) → written (es ++ fs) ≡ written es ++ written fs
written-append [] fs = refl
written-append (e ∷ es) fs =
    ap (λ t. render_transcript_line e.1 ++ t) (written-append es fs)
    ∙ sym (append_assoc (render_transcript_line e.1) (written es) (written fs))

pub count_seq-append :
    (q : ℕ) (rs : List TranscriptPartialRecord) (r : TranscriptPartialRecord)
    → count_seq q (rs ++ r ∷ []) ≡ count_seq q rs + count_seq q (r ∷ [])
count_seq-append q [] r = omega arith
count_seq-append q (x ∷ rs) r = ground (arith, count_seq-append q rs r)
