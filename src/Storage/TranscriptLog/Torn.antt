-- ===== src/Storage/TranscriptLog/Torn.antt =====
-- A log whose last line a crash tore off, in bytes: `read_to_string` refuses a file that is not
-- UTF-8, and a tear may leave a part of a character. The encoding is the standard library's.
use scrybe.Common.{ℕ, All, Bool, true, ◌≡◌, ap, ◌∙◌, Option, none, some, List, [], ◌∷◌, ◌++◌}
use mathlib.Core.Option
use scrybe.Common.Results.{Result, ok, err}
use scrybe.Errors.{StorageError, io}
use scrybe.Text.{Text}
use scrybe.Text.Lines.{IsOneLine}
use scrybe.Storage.TranscriptLog.{
  TranscriptPartialRecord, JsonCodec, IsLineCodec, RecoveryReport, malformed, read_line, report_of,
  scan_recovery,
}
use scrybe.Storage.TranscriptLog.Latest.{enter_all}
use scrybe.Storage.TranscriptLog.File.{file_of, scan_recovery-torn}

-- the code points that are a `char`, the bytes of a text of them, and the text of bytes where they
-- are one
pub record Encoding : Type 0 where
  pub is_char : ℕ → Bool
  pub to_bytes : Text → List ℕ
  pub from_utf8 : List ℕ → Option Text

abbrev pub IsChars : Encoding → Text → Type 0
IsChars e text = All (λ c. e.is_char c ≡ true) text

-- a text's bytes are read back as it, whatever bytes follow, and the others after it
pub record IsEncoding (e : Encoding) : Type 0 where
  pub reads :
      (text : Text) (bytes : List ℕ)
      → IsChars e text
      → e.from_utf8 (e.to_bytes text ++ bytes)
        ≡ Option.map (λ rest. text ++ rest) (e.from_utf8 bytes)

module _ (encoding : Encoding) (codec : JsonCodec) where
  scan_text : Option Text → Result StorageError RecoveryReport
  scan_text none = err io
  scan_text (some text) = ok (scan_recovery codec (some text))

  -- `scan_recovery` from the file's bytes, or from none where it is missing
  unfoldable pub scan_recovery_bytes : Option (List ℕ) → Result StorageError RecoveryReport
  unfolding scan_text
  scan_recovery_bytes none = ok (scan_recovery codec none)
  scan_recovery_bytes (some bytes) = scan_text (encoding.from_utf8 bytes)

module _ (encoding : Encoding) (encodes : IsEncoding encoding) (codec : JsonCodec)
    (law : IsLineCodec codec) where
  torn-read :
      (rs : List TranscriptPartialRecord) (bytes : List ℕ) (torn : Option Text)
      → IsChars encoding (file_of codec rs)
      → encoding.from_utf8 bytes ≡ torn
      → scan_recovery_bytes encoding codec (some (encoding.to_bytes (file_of codec rs) ++ bytes))
        ≡ scan_text encoding codec (Option.map (λ rest. file_of codec rs ++ rest) torn)
  unfolding scan_recovery_bytes
  torn-read rs bytes torn chars e = ap (scan_text encoding codec) (
      encodes.reads (file_of codec rs) bytes chars
      ∙ ap (Option.map (λ rest. file_of codec rs ++ rest)) e)

  -- A crash leaves the whole lines of a log and some bytes of the next. Where the tear is in the
  -- middle of a character, so that these bytes are not UTF-8, the scan fails with an I/O error. Where
  -- they are a text that is one unfinished line and no record, the scan returns the report on the
  -- whole records, with one malformed line.
  pub scan_recovery_bytes-torn :
      (rs : List TranscriptPartialRecord) (bytes : List ℕ)
      → IsChars encoding (file_of codec rs)
      → let scanned =
          scan_recovery_bytes encoding codec
            (some (encoding.to_bytes (file_of codec rs) ++ bytes)) in
        (encoding.from_utf8 bytes ≡ none → scanned ≡ err io)
        × ((x : ℕ) (torn : Text)
            → encoding.from_utf8 bytes ≡ some (x ∷ torn)
            → IsOneLine (x ∷ torn)
            → read_line codec (x ∷ torn) ≡ malformed
            → scanned ≡ ok (report_of (enter_all rs [], 1)))
  unfolding scan_text
  scan_recovery_bytes-torn rs bytes chars = (
    λ broken. torn-read rs bytes none chars broken,
    λ x torn e one bad.
        torn-read rs bytes (some (x ∷ torn)) chars e
        ∙ ap ok (scan_recovery-torn codec law rs x torn one bad),
  )
