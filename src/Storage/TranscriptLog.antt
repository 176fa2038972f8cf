-- ===== src/Storage/TranscriptLog.antt =====
-- scrybe-core/src/storage/transcript_log.rs: the write-ahead log, its writer, and the recovery scan.
-- The log file is its text, or nothing where it is missing. The writer's state is the next sequence
-- number. The JSON form of a record is serde_json's, so it is a parameter of the operations; Torn has
-- the error of a file that is not UTF-8; other failures of the file system are not modelled.
pub mod Latest
pub mod Report
pub mod File
pub mod Torn
pub mod Appended
pub mod Lifecycle
pub mod LineFormat
mod Tests
use scrybe.Common.{
  ℕ, ◌+◌, ◌≡◌, ◌≢◌, Bool, true, false, not, ◌&&◌, Option, none, some, List, [], ◌∷◌, ◌++◌, map, All,
  ltb, leb, ◌==◌, max, if◌then◌else◌,
}
use scrybe.Common.Words.{sat_add_u64}
use scrybe.Common.Sorting.{sort_by}
use scrybe.Text.{Text, trim, lines}
use scrybe.Types.{AttributedChunk}

pub data TranscriptRecordKind : Type 0 where
  final partial suppressed : TranscriptRecordKind

pub record TranscriptPartialRecord : Type 0 where
  pub seq : ℕ
  pub flushed_to_transcript : Bool
  pub kind : TranscriptRecordKind
  pub chunk : AttributedChunk

-- serde_json's two directions
pub record JsonCodec : Type 0 where
  pub to_string : TranscriptPartialRecord → Text
  pub from_str : Text → Option TranscriptPartialRecord

-- what the log relies on: a record is written as one nonempty line, and read back from it
pub record IsLineCodec (codec : JsonCodec) : Type 0 where
  pub one_line : (r : TranscriptPartialRecord) → All (λ c. c ≢ 10) (codec.to_string r)
  pub nonempty : (r : TranscriptPartialRecord) → trim (codec.to_string r) ≢ []
  pub reads_back :
      (r : TranscriptPartialRecord) → codec.from_str (trim (codec.to_string r)) ≡ some r

pub record RecoveryReport : Type 0 where
  pub flushed_seqs : List ℕ
  pub orphans : List TranscriptPartialRecord
  pub malformed_line_count : ℕ
  pub partial_record_count : ℕ
  pub suppressed_seqs : List ℕ

abbrev pub empty_report : RecoveryReport
empty_report = record {
  flushed_seqs = [];
  orphans = [];
  malformed_line_count = 0;
  partial_record_count = 0;
  suppressed_seqs = [];
}

-- the entry that stays when `new` comes after `entry`
abbrev pub supersede : TranscriptPartialRecord → TranscriptPartialRecord → TranscriptPartialRecord
supersede new entry =
    if new.flushed_to_transcript && not entry.flushed_to_transcript then new else entry

-- `latest_per_seq`, a map by sequence number in ascending order
unfoldable pub enter :
    TranscriptPartialRecord → List TranscriptPartialRecord → List TranscriptPartialRecord
enter r [] = r ∷ []
enter r (e ∷ m) =
    let rest = enter r m in
    if r.seq == e.seq then supersede r e ∷ m else if ltb r.seq e.seq then r ∷ e ∷ m else e ∷ rest

-- one record of the map, filed in the report
file_record : TranscriptRecordKind → TranscriptPartialRecord → RecoveryReport → RecoveryReport
file_record partial r out = record out {
  partial_record_count = sat_add_u64 out.partial_record_count 1;
}
file_record suppressed r out = record out { suppressed_seqs = out.suppressed_seqs ++ r.seq ∷ [] }
file_record final r out =
    if r.flushed_to_transcript
    then record out { flushed_seqs = out.flushed_seqs ++ r.seq ∷ [] }
    else record out { orphans = out.orphans ++ r ∷ [] }

unfoldable pub file_all : List TranscriptPartialRecord → RecoveryReport → RecoveryReport
unfolding file_record
file_all [] out = out
file_all (r ∷ m) out = file_all m (file_record r.kind r out)

abbrev by_seq : TranscriptPartialRecord → TranscriptPartialRecord → Bool
by_seq r s = leb r.seq s.seq

unfoldable pub sort_report : RecoveryReport → RecoveryReport
sort_report out = record out {
  flushed_seqs = sort_by leb out.flushed_seqs;
  orphans = sort_by by_seq out.orphans;
  suppressed_seqs = sort_by leb out.suppressed_seqs;
}

-- a line of the file: blank, a record, or malformed
pub data Line : Type 0 where
  blank malformed : Line
  holds : TranscriptPartialRecord → Line

-- the map so far and the malformed lines so far
scan_lines : List Line → List TranscriptPartialRecord → ℕ → List TranscriptPartialRecord × ℕ
scan_lines [] latest bad = (latest, bad)
scan_lines (blank ∷ rest) latest bad = scan_lines rest latest bad
scan_lines (malformed ∷ rest) latest bad = scan_lines rest latest (sat_add_u64 bad 1)
scan_lines (holds r ∷ rest) latest bad = scan_lines rest (enter r latest) bad

unfoldable pub report_of : List TranscriptPartialRecord × ℕ → RecoveryReport
report_of (latest, bad) =
    sort_report (file_all latest (record empty_report { malformed_line_count = bad }))

-- the highest sequence number of the lines, or 0
max_seq : ℕ → List Line → ℕ
max_seq top [] = top
max_seq top (holds r ∷ rest) = max_seq (if ltb top r.seq then r.seq else top) rest
max_seq top (_ ∷ rest) = max_seq top rest

-- the file beside the writer, in place of its path
pub record TranscriptPartialLog : Type 0 where
  pub file : Option Text
  pub next_seq : ℕ

abbrev pub contents : Option Text → Text
contents none = []
contents (some text) = text

module _ (codec : JsonCodec) where
  open codec use {to_string, from_str}

  read_trimmed : Text → Line
  read_trimmed [] = blank
  read_trimmed (c ∷ s) = elim (from_str (c ∷ s)) [ none ↦ malformed | some r ↦ holds r ]

  unfoldable pub read_line : Text → Line
  unfolding read_trimmed
  read_line line = read_trimmed (trim line)

  unfoldable pub read_lines : Text → List Line
  unfolding read_line
  read_lines text = map read_line (lines text)

  unfoldable pub scan_recovery : Option Text → RecoveryReport
  unfolding scan_lines
  scan_recovery none = empty_report
  scan_recovery (some text) = report_of (scan_lines (read_lines text) [] 0)

  unfoldable pub last_seq : Text → ℕ
  unfolding max_seq
  last_seq text = max_seq 0 (read_lines text)

  unfoldable pub open_log : Option Text → TranscriptPartialLog
  open_log none = record { file = none; next_seq = 1 }
  open_log (some text) = record {
    file = some text;
    next_seq = max (sat_add_u64 (last_seq text) 1) 1;
  }

  unfoldable pub write_line : TranscriptPartialRecord → TranscriptPartialLog → TranscriptPartialLog
  write_line r log = record log { file = some (contents log.file ++ (to_string r ++ 10 ∷ [])) }

  unfoldable pub append_pending : AttributedChunk → TranscriptPartialLog → TranscriptPartialLog × ℕ
  append_pending chunk log =
      let r : TranscriptPartialRecord = record {
        seq = log.next_seq;
        flushed_to_transcript = false;
        kind = final;
        chunk = chunk;
      } in
      (record (write_line r log) { next_seq = sat_add_u64 log.next_seq 1 }, log.next_seq)

  unfoldable pub mark_flushed : ℕ → AttributedChunk → TranscriptPartialLog → TranscriptPartialLog
  mark_flushed seq chunk =
      write_line (record { seq = seq; flushed_to_transcript = true; kind = final; chunk = chunk })

  unfoldable pub mark_suppressed : ℕ → AttributedChunk → TranscriptPartialLog → TranscriptPartialLog
  mark_suppressed seq chunk =
      write_line
        (record { seq = seq; flushed_to_transcript = true; kind = suppressed; chunk = chunk })

  unfoldable pub append_partial : AttributedChunk → TranscriptPartialLog → TranscriptPartialLog × ℕ
  append_partial chunk log =
      let r : TranscriptPartialRecord = record {
        seq = log.next_seq;
        flushed_to_transcript = true;
        kind = partial;
        chunk = chunk;
      } in
      (record (write_line r log) { next_seq = sat_add_u64 log.next_seq 1 }, log.next_seq)
