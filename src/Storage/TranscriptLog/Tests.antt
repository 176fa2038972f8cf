-- ===== src/Storage/TranscriptLog/Tests.antt =====
-- The log's theorems at concrete logs.
use scrybe.Common.{
  ◌<◌, ◌≡◌, refl, ap, ◌∙◌, is_some, true, false, none, some, List, [], ◌∷◌, ◌++◌, All, arith,
}
use scrybe.Common.Words.{u64_max}
use scrybe.Types.{mic, me, AttributedChunk}
use scrybe.Storage.TranscriptLog.{
  TranscriptPartialRecord, TranscriptPartialLog, final, report_of, scan_recovery, last_seq,
  append_pending, mark_flushed, max_seq,
}
use scrybe.Storage.TranscriptLog.Latest.{find_seq, enter_all, verdict}
use scrybe.Storage.TranscriptLog.Report.{
  is_orphan, is_flushed, is_suppressed, only, has, report_of-verdict,
}
use scrybe.Storage.TranscriptLog.File.{file_of, scan_recovery-file_of, read_lines_whole}
use scrybe.Storage.TranscriptLog.Torn.{
  Encoding, IsEncoding, IsChars, scan_recovery_bytes, scan_recovery_bytes-torn,
}
use scrybe.Common.{ℕ, Option, Bool, ltb, if◌then◌else◌}
use mathlib.Core.Option
use scrybe.Common.Results.{ok, err}
use scrybe.Errors.{io}
use scrybe.Text.{Text}
use scrybe.Text.Lines.{IsOneLine}
use scrybe.Storage.TranscriptLog.{read_line, malformed}
use scrybe.Storage.TranscriptLog.Lifecycle.{
  IsLogOf, pending, append_pending-orphan, mark_flushed-settles,
}
use scrybe.Storage.TranscriptLog.LineFormat.Codec.{codec, codec-IsLineCodec, codec-refuses}

abbrev hello : AttributedChunk
hello = record {
  chunk = record {
    text = 104 ∷ 105 ∷ [];
    source = mic;
    start_ms = 1;
    duration_ms = 2;
    language = none;
    tokens = [];
  };
  speaker = me;
}

abbrev first_flushed : TranscriptPartialRecord
first_flushed = record { seq = 1; flushed_to_transcript = true; kind = final; chunk = hello }

abbrev records : List TranscriptPartialRecord
records = pending 1 hello ∷ pending 2 hello ∷ first_flushed ∷ []

abbrev log : TranscriptPartialLog
log = record { file = some (file_of codec records); next_seq = 3 }

log-IsLogOf : IsLogOf codec records log
log-IsLogOf = record { whole = refl; given_out = (omega arith, (omega arith, (omega arith, tt))) }

-- an encoding for tests: a character below 128 is a byte, and any other has the byte 128 in front
small_bytes : Text → List ℕ
small_bytes [] = []
small_bytes (c ∷ text) =
    let rest = small_bytes text in if ltb c 128 then c ∷ rest else 128 ∷ c ∷ rest

mutual
  small_text : List ℕ → Option Text
  small_text [] = some []
  small_text (b ∷ rest) =
      let alone = small_text rest in
      let wide = small_wide rest in if ltb b 128 then Option.map (λ t. b ∷ t) alone else wide

  small_wide : List ℕ → Option Text
  small_wide [] = none
  small_wide (c ∷ more) = Option.map (λ t. c ∷ t) (small_text more)

abbrev small : Encoding
small = record { is_char = λ c. true; to_bytes = small_bytes; from_utf8 = small_text }

put_before :
    (c : ℕ) (text : Text) (o : Option Text)
    → Option.map (λ t. c ∷ t) (Option.map (λ rest. text ++ rest) o)
      ≡ Option.map (λ rest. c ∷ text ++ rest) o
put_before c text none = refl
put_before c text (some rest) = refl

kept : (o : Option Text) → o ≡ Option.map (λ rest. [] ++ rest) o
kept none = refl
kept (some rest) = refl

small-reads :
    (text : Text) (bytes : List ℕ)
    → small_text (small_bytes text ++ bytes) ≡ Option.map (λ rest. text ++ rest) (small_text bytes)
unfolding small_bytes small_text small_wide
small-reads [] bytes = kept (small_text bytes)
small-reads (c ∷ text) bytes =
    on (ltb c 128) refl
      (ap (Option.map (λ t. c ∷ t)) (small-reads text bytes) ∙ put_before c text _)
  where
    on :
        (b : Bool)
        → ltb c 128 ≡ b
        → Option.map (λ t. c ∷ t) (small_text (small_bytes text ++ bytes))
          ≡ Option.map (λ rest. c ∷ text ++ rest) (small_text bytes)
        → small_text ((if b then c ∷ small_bytes text else 128 ∷ c ∷ small_bytes text) ++ bytes)
          ≡ Option.map (λ rest. c ∷ text ++ rest) (small_text bytes)
    on true e later =
        ap
          (λ b.
            if b
            then Option.map (λ t. c ∷ t) (small_text (small_bytes text ++ bytes))
            else small_wide (small_bytes text ++ bytes))
          e
        ∙ later
    on false e later = later

small-IsEncoding : IsEncoding small
small-IsEncoding = record { reads = λ text bytes chars. small-reads text bytes }

chars : (text : Text) → IsChars small text
chars [] = tt
chars (c ∷ text) = (refl, chars text)

scan_recovery_bytes-torn_example :
    let scanned =
      scan_recovery_bytes small codec
        (some (small_bytes (file_of codec records) ++ 120 ∷ 49 ∷ [])) in
    (small_text (120 ∷ 49 ∷ []) ≡ none → scanned ≡ err io)
    × ((x : ℕ) (torn : Text)
        → small_text (120 ∷ 49 ∷ []) ≡ some (x ∷ torn)
        → IsOneLine (x ∷ torn)
        → read_line codec (x ∷ torn) ≡ malformed
        → scanned ≡ ok (report_of (enter_all records [], 1)))
scan_recovery_bytes-torn_example =
    scan_recovery_bytes-torn small small-IsEncoding codec codec-IsLineCodec records (120 ∷ 49 ∷ [])
      (chars (file_of codec records))

-- the same log and tear, read
torn_line-read :
    scan_recovery_bytes small codec (some (small_bytes (file_of codec records) ++ 120 ∷ 49 ∷ []))
    ≡ ok (report_of (enter_all records [], 1))
unfolding small_text small_wide
torn_line-read =
    (scan_recovery_bytes-torn small small-IsEncoding codec codec-IsLineCodec records (120 ∷ 49 ∷ [])
        (chars (file_of codec records))).1
      120 (49 ∷ []) refl (omega arith, (omega arith, tt)) codec-refuses

report_of-verdict_example :
    (find_seq 2 (report_of (enter_all records [], 0)).orphans ≡ only is_orphan (verdict 2 records))
    × (has 2 (report_of (enter_all records [], 0)).flushed_seqs
        ≡ is_some (only is_flushed (verdict 2 records)))
    × (has 2 (report_of (enter_all records [], 0)).suppressed_seqs
        ≡ is_some (only is_suppressed (verdict 2 records)))
report_of-verdict_example = report_of-verdict 2 0 records

append_pending-orphan_example :
    let after = append_pending codec hello log in
    let orphans = (scan_recovery codec after.0.file).orphans in
    (after.1 ≡ log.next_seq)
    × All (λ r. r.seq < after.1) records
    × IsLogOf codec (records ++ pending after.1 hello ∷ []) after.0
    × (find_seq after.1 orphans ≡ some (pending after.1 hello))
    × (find_seq 2 orphans ≡ find_seq 2 (scan_recovery codec log.file).orphans)
append_pending-orphan_example =
    append_pending-orphan codec codec-IsLineCodec records log hello 2 log-IsLogOf (omega arith)
      (omega arith)

second_waits : find_seq 2 (scan_recovery codec log.file).orphans ≡ some (pending 2 hello)
second_waits =
    ap (λ r. find_seq 2 r.orphans) (scan_recovery-file_of codec codec-IsLineCodec records)
    ∙ (report_of-verdict 2 0 records).0

mark_flushed-settles_example :
    let report = scan_recovery codec (mark_flushed codec 2 hello log).file in
    (find_seq 2 report.orphans ≡ none)
    × (has 2 report.flushed_seqs ≡ true)
    × (has 2 report.suppressed_seqs ≡ false)
    × (find_seq 1 report.orphans ≡ find_seq 1 (scan_recovery codec log.file).orphans)
mark_flushed-settles_example =
    mark_flushed-settles codec codec-IsLineCodec records log 2 (pending 2 hello) hello 1 log-IsLogOf
      second_waits (omega arith)

last_below : last_seq codec (file_of codec records) < u64_max
unfolding last_seq max_seq
last_below = rw (read_lines_whole codec codec-IsLineCodec records) (omega arith)
