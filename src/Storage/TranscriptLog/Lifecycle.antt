-- ===== src/Storage/TranscriptLog/Lifecycle.antt =====
-- One chunk's way through the log: pending, then flushed or suppressed, with a crash anywhere.
use scrybe.Common.{
  ℕ, ◌<◌, ◌≡◌, ◌≢◌, refl, sym, ap, ◌∙◌, true, false, Option, none, some, is_some, List, [], ◌∷◌,
  ◌++◌, All, All-append, All-mono, arith, max,
}
use scrybe.Common.Words.{sat_add_u64, u64_max}
use scrybe.Text.{Text}
use scrybe.Types.{AttributedChunk}
use scrybe.Storage.TranscriptLog.{
  TranscriptPartialRecord, TranscriptPartialLog, final, suppressed, JsonCodec, IsLineCodec,
  scan_recovery, last_seq, open_log, contents, write_line, append_pending, mark_flushed,
  mark_suppressed,
}
use scrybe.Storage.TranscriptLog.Latest.{find_seq, verdict}
use scrybe.Storage.TranscriptLog.Report.{
  is_orphan, is_flushed, is_suppressed, only, has, report_of-verdict,
}
use scrybe.Storage.TranscriptLog.File.{
  file_of, contents-write_line, scan_recovery-contents, last_seq-file_of, file_of_nonempty,
}
use scrybe.Storage.TranscriptLog.Appended.{verdict-append, verdict_fresh, verdict_marked}

-- the file holds these records, and all of them have numbers already given out
pub record IsLogOf (codec : JsonCodec) (rs : List TranscriptPartialRecord)
    (log : TranscriptPartialLog) : Type 0 where
  pub whole : contents log.file ≡ file_of codec rs
  pub given_out : All (λ r. r.seq < log.next_seq) rs

abbrev pub pending : ℕ → AttributedChunk → TranscriptPartialRecord
pending seq chunk = record { seq = seq; flushed_to_transcript = false; kind = final; chunk = chunk }

module _ (codec : JsonCodec) (c : IsLineCodec codec) where
  pub report_of_log :
      (rs : List TranscriptPartialRecord) (log : TranscriptPartialLog) (s : ℕ)
      → contents log.file ≡ file_of codec rs
      → let report = scan_recovery codec log.file in
        (find_seq s report.orphans ≡ only is_orphan (verdict s rs))
        × (has s report.flushed_seqs ≡ is_some (only is_flushed (verdict s rs)))
        × (has s report.suppressed_seqs ≡ is_some (only is_suppressed (verdict s rs)))
  report_of_log rs log s h =
      rw (scan_recovery-contents codec c rs log.file h) (report_of-verdict s 0 rs)

  -- Appending a pending chunk to a whole log, while numbers last, gives it the log's next number,
  -- which is above all numbers of the log; the log then holds that record too, a crash at this point
  -- recovers just this chunk under that number, and what a crash recovers under every other number
  -- is as before.
  pub append_pending-orphan :
      (rs : List TranscriptPartialRecord) (log : TranscriptPartialLog) (chunk : AttributedChunk)
      (s : ℕ)
      → IsLogOf codec rs log
      → log.next_seq < u64_max
      → log.next_seq ≢ s
      → let after = append_pending codec chunk log in
        let orphans = (scan_recovery codec after.0.file).orphans in
        (after.1 ≡ log.next_seq)
        × All (λ r. r.seq < after.1) rs
        × IsLogOf codec (rs ++ pending after.1 chunk ∷ []) after.0
        × (find_seq after.1 orphans ≡ some (pending after.1 chunk))
        × (find_seq s orphans ≡ find_seq s (scan_recovery codec log.file).orphans)
  unfolding append_pending
  append_pending-orphan rs log chunk s l h n =
      let r = pending log.next_seq chunk in
      let after : TranscriptPartialLog = (append_pending codec chunk log).0 in
      let w : contents after.file ≡ file_of codec (rs ++ r ∷ []) =
        contents-write_line codec c rs r log l.whole in
      (
        refl,
        l.given_out,
        record {
          whole = w;
          given_out =
              All-append (λ x. x.seq < after.next_seq) rs (r ∷ [])
                (All-mono (λ x. x.seq < log.next_seq) (λ x. x.seq < after.next_seq)
                  (λ x q. omega (arith, h)) rs l.given_out)
                (omega (arith, h), tt);
        },
        (report_of_log (rs ++ r ∷ []) after log.next_seq w).0
            ∙ ap (only is_orphan) (verdict_fresh rs r l.given_out),
        (report_of_log (rs ++ r ∷ []) after s w).0
            ∙ ap (only is_orphan) (verdict-append s rs r n)
            ∙ sym (report_of_log rs log s l.whole).0,
      )

  -- a flushed record of a number that is an orphan
  marked :
      (rs : List TranscriptPartialRecord) (log : TranscriptPartialLog)
      (old r : TranscriptPartialRecord) (s : ℕ)
      → IsLogOf codec rs log
      → r.flushed_to_transcript ≡ true
      → find_seq r.seq (scan_recovery codec log.file).orphans ≡ some old
      → r.seq ≢ s
      → let after = write_line codec r log in
        let report = scan_recovery codec after.file in
        (find_seq r.seq report.orphans ≡ only is_orphan (some r))
        × (has r.seq report.flushed_seqs ≡ is_some (only is_flushed (some r)))
        × (has r.seq report.suppressed_seqs ≡ is_some (only is_suppressed (some r)))
        × (find_seq s report.orphans ≡ find_seq s (scan_recovery codec log.file).orphans)
  marked rs log old r s l f h n =
      let w = contents-write_line codec c rs r log l.whole in
      let v : verdict r.seq (rs ++ r ∷ []) ≡ some r =
        verdict_marked rs old r (sym (report_of_log rs log r.seq l.whole).0 ∙ h) f in
      let report = report_of_log (rs ++ r ∷ []) (write_line codec r log) r.seq w in
      (
        report.0 ∙ ap (only is_orphan) v,
        report.1 ∙ ap (λ x. is_some (only is_flushed x)) v,
        report.2 ∙ ap (λ x. is_some (only is_suppressed x)) v,
        (report_of_log (rs ++ r ∷ []) (write_line codec r log) s w).0
            ∙ ap (only is_orphan) (verdict-append s rs r n)
            ∙ sym (report_of_log rs log s l.whole).0,
      )

  -- Once an orphan is marked as flushed, a crash no longer recovers it: the report counts its
  -- number as flushed and not as an orphan, and what is recovered under other numbers stays.
  pub mark_flushed-settles :
      (rs : List TranscriptPartialRecord) (log : TranscriptPartialLog) (seq : ℕ)
      (old : TranscriptPartialRecord) (chunk : AttributedChunk) (s : ℕ)
      → IsLogOf codec rs log
      → find_seq seq (scan_recovery codec log.file).orphans ≡ some old
      → seq ≢ s
      → let report = scan_recovery codec (mark_flushed codec seq chunk log).file in
        (find_seq seq report.orphans ≡ none)
        × (has seq report.flushed_seqs ≡ true)
        × (has seq report.suppressed_seqs ≡ false)
        × (find_seq s report.orphans ≡ find_seq s (scan_recovery codec log.file).orphans)
  unfolding mark_flushed
  mark_flushed-settles rs log seq old chunk s l h n =
      marked rs log old
        (record { seq = seq; flushed_to_transcript = true; kind = final; chunk = chunk }) s l refl h
        n

  -- Once an orphan is marked as suppressed, a crash no longer recovers it: the report counts its
  -- number as suppressed, neither flushed nor an orphan, and what is recovered under other numbers
  -- stays.
  pub mark_suppressed-settles :
      (rs : List TranscriptPartialRecord) (log : TranscriptPartialLog) (seq : ℕ)
      (old : TranscriptPartialRecord) (chunk : AttributedChunk) (s : ℕ)
      → IsLogOf codec rs log
      → find_seq seq (scan_recovery codec log.file).orphans ≡ some old
      → seq ≢ s
      → let report = scan_recovery codec (mark_suppressed codec seq chunk log).file in
        (find_seq seq report.orphans ≡ none)
        × (has seq report.flushed_seqs ≡ false)
        × (has seq report.suppressed_seqs ≡ true)
        × (find_seq s report.orphans ≡ find_seq s (scan_recovery codec log.file).orphans)
  unfolding mark_suppressed
  mark_suppressed-settles rs log seq old chunk s l h n =
      marked rs log old
        (record { seq = seq; flushed_to_transcript = true; kind = suppressed; chunk = chunk }) s l
        refl h n

  -- A log that is opened again on the whole records it held gives out only fresh numbers, as long
  -- as the highest of them is below the 64-bit limit.
  pub open_log-IsLogOf :
      (rs : List TranscriptPartialRecord) (file : Option Text)
      → contents file ≡ file_of codec rs
      → last_seq codec (file_of codec rs) < u64_max
      → IsLogOf codec rs (open_log codec file)
  unfolding open_log
  open_log-IsLogOf [] none h b = record { whole = refl; given_out = tt }
  open_log-IsLogOf (r ∷ rs) none h b = absurd (file_of_nonempty codec c r rs h)
  open_log-IsLogOf rs (some text) h b = record {
    whole = h;
    given_out = rw h (
        All-mono _ (λ r. r.seq < max (sat_add_u64 (last_seq codec (file_of codec rs)) 1) 1)
          (λ r q. omega arith) rs (last_seq-file_of codec c rs));
  }
