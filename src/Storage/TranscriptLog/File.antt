-- ===== src/Storage/TranscriptLog/File.antt =====
-- The text of the log: what the writer appends, the recovery scan reads back.
use scrybe.Common.{
  ℕ, ◌≤◌, ◌≡◌, ◌≢◌, refl, sym, ap, ◌∙◌, Option, none, some, List, [], ◌∷◌, ◌++◌, map, All, arith,
  ltb, if◌then◌else◌,
}
use mathlib.Core.Path.{subst}
use mathlib.Core.List.{append-nil, append_assoc}
use scrybe.Common.Sorting.{sort_by}
use scrybe.Text.{Text, trim, lines}
use scrybe.Text.Lines.{IsOneLine, lines-append, lines_torn}
use scrybe.Storage.TranscriptLog.{
  TranscriptPartialRecord, JsonCodec, IsLineCodec, Line, malformed, holds, enter, scan_lines,
  report_of, sort_report, file_all, max_seq, read_trimmed, read_line, read_lines, scan_recovery,
  last_seq, contents, write_line, TranscriptPartialLog,
}
use scrybe.Storage.TranscriptLog.Latest.{enter_all}

module _ (codec : JsonCodec) where
  -- the text of a log that holds these records
  abbrev pub file_of : List TranscriptPartialRecord → Text
  file_of [] = []
  file_of (r ∷ rs) = codec.to_string r ++ 10 ∷ file_of rs

max_seq-holds :
    (top : ℕ) (rs : List TranscriptPartialRecord)
    → (top ≤ max_seq top (map holds rs)) × All (λ r. r.seq ≤ max_seq top (map holds rs)) rs
unfolding max_seq
max_seq-holds top [] = (omega arith, tt)
max_seq-holds top (r ∷ rs) =
    let top' = if ltb top r.seq then r.seq else top in
    let higher : (top ≤ top') × (r.seq ≤ top') = (ground arith, ground arith) in
    let rest = max_seq-holds top' rs in
    (omega (arith, rest.0, higher.0), (omega (arith, rest.0, higher.1), rest.1))

scan_lines-holds :
    (rs m : List TranscriptPartialRecord) (bad : ℕ) (tail : List Line)
    → scan_lines (map holds rs ++ tail) m bad ≡ scan_lines tail (enter_all rs m) bad
unfolding scan_lines
scan_lines-holds [] m bad tail = refl
scan_lines-holds (r ∷ rs) m bad tail = scan_lines-holds rs (enter r m) bad tail

module _ (codec : JsonCodec) (c : IsLineCodec codec) where
  read_line-to_string :
      (r : TranscriptPartialRecord) → read_line codec (codec.to_string r) ≡ holds r
  unfolding read_line
  read_line-to_string r = whole (trim (codec.to_string r)) refl
    where
      whole : (t : Text) → trim (codec.to_string r) ≡ t → read_trimmed codec t ≡ holds r
      whole [] e = absurd (c.nonempty r e)
      whole (x ∷ s) e =
          let q : codec.from_str (x ∷ s) ≡ some r = rw e at (c.reads_back r) in rw (q, read_trimmed)

  read_lines-file_of :
      (rs : List TranscriptPartialRecord) (tail : Text)
      → read_lines codec (file_of codec rs ++ tail) ≡ map holds rs ++ read_lines codec tail
  unfolding read_lines
  read_lines-file_of [] tail = refl
  read_lines-file_of (r ∷ rs) tail =
      let rest = read_lines-file_of rs tail in
      ap (λ t. map (read_line codec) (lines t))
        (append_assoc (codec.to_string r) (10 ∷ file_of codec rs) tail)
      ∙ ap (map (read_line codec))
          (lines-append (codec.to_string r) (file_of codec rs ++ tail) (c.one_line r))
      ∙ ap (λ l. l ∷ map (read_line codec) (lines (file_of codec rs ++ tail)))
          (read_line-to_string r)
      ∙ ap (λ l. holds r ∷ l) rest

  scan_lines-file_of :
      (rs : List TranscriptPartialRecord) (tail : Text)
      → scan_lines (read_lines codec (file_of codec rs ++ tail)) [] 0
        ≡ scan_lines (read_lines codec tail) (enter_all rs []) 0
  scan_lines-file_of rs tail =
      ap (λ l. scan_lines l [] 0) (read_lines-file_of rs tail)
      ∙ scan_lines-holds rs [] 0 (read_lines codec tail)

  -- The scan of a log that holds these records, whole, reports on just these records.
  pub scan_recovery-file_of :
      (rs : List TranscriptPartialRecord)
      → scan_recovery codec (some (file_of codec rs)) ≡ report_of (enter_all rs [], 0)
  unfolding scan_recovery scan_lines read_lines lines
  scan_recovery-file_of rs = ap report_of (
      ap (λ t. scan_lines (read_lines codec t) [] 0) (sym (append-nil (file_of codec rs)))
      ∙ scan_lines-file_of rs [])

  -- A crash that tears the last line off leaves the report on the whole records as it was, with
  -- one malformed line, provided that the torn text is one unfinished line that is no record.
  pub scan_recovery-torn :
      (rs : List TranscriptPartialRecord) (x : ℕ) (torn : Text)
      → IsOneLine (x ∷ torn)
      → read_line codec (x ∷ torn) ≡ malformed
      → scan_recovery codec (some (file_of codec rs ++ x ∷ torn)) ≡ report_of (enter_all rs [], 1)
  unfolding scan_recovery scan_lines read_lines
  scan_recovery-torn rs x torn one bad = ap report_of (
      scan_lines-file_of rs (x ∷ torn)
      ∙ ap (λ l. scan_lines (map (read_line codec) l) (enter_all rs []) 0) (lines_torn x torn one)
      ∙ ap (λ l. scan_lines (l ∷ []) (enter_all rs []) 0) bad)

  -- What `write_line` appends is the next record of the file.
  file_of-append :
      (rs : List TranscriptPartialRecord) (r : TranscriptPartialRecord)
      → file_of codec (rs ++ r ∷ []) ≡ file_of codec rs ++ (codec.to_string r ++ 10 ∷ [])
  file_of-append [] r = refl
  file_of-append (x ∷ rs) r =
      ap (λ t. codec.to_string x ++ 10 ∷ t) (file_of-append rs r)
      ∙ sym (append_assoc (codec.to_string x) (10 ∷ file_of codec rs) _)

  pub contents-write_line :
      (rs : List TranscriptPartialRecord) (r : TranscriptPartialRecord) (log : TranscriptPartialLog)
      → contents log.file ≡ file_of codec rs
      → contents (write_line codec r log).file ≡ file_of codec (rs ++ r ∷ [])
  unfolding write_line
  contents-write_line rs r log h = rw (h, file_of-append rs r)

  pub file_of_nonempty :
      (r : TranscriptPartialRecord) (rs : List TranscriptPartialRecord)
      → [] ≢ file_of codec (r ∷ rs)
  file_of_nonempty r rs = nonempty (codec.to_string r)
    where
      nonempty : (t : Text) → [] ≢ t ++ 10 ∷ file_of codec rs
      nonempty [] e = cc
      nonempty (x ∷ t) e = cc

  -- a missing file reports as an empty one
  pub scan_recovery-contents :
      (rs : List TranscriptPartialRecord) (file : Option Text)
      → contents file ≡ file_of codec rs
      → scan_recovery codec file ≡ report_of (enter_all rs [], 0)
  unfolding scan_recovery
  scan_recovery-contents rs (some text) h =
      ap (λ t. scan_recovery codec (some t)) h ∙ scan_recovery-file_of rs
  scan_recovery-contents [] none h = unfold report_of sort_report file_all sort_by in refl
  scan_recovery-contents (r ∷ rs) none h = absurd (file_of_nonempty r rs h)

  pub read_lines_whole :
      (rs : List TranscriptPartialRecord) → read_lines codec (file_of codec rs) ≡ map holds rs
  unfolding read_lines lines
  read_lines_whole rs =
      ap (read_lines codec) (sym (append-nil (file_of codec rs)))
      ∙ read_lines-file_of rs []
      ∙ append-nil (map holds rs)

  pub last_seq-file_of :
      (rs : List TranscriptPartialRecord) → All (λ r. r.seq ≤ last_seq codec (file_of codec rs)) rs
  unfolding last_seq max_seq
  last_seq-file_of rs =
      subst (λ l. All (λ r. r.seq ≤ max_seq 0 l) rs) (sym (read_lines_whole rs))
        (max_seq-holds 0 rs).1
