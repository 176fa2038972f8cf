-- ===== src/Notes/Document/Numbered.antt =====
-- The segments of a transcript that is accepted are numbered from 1, one by one.
use scrybe.Common.{ℕ, ◌+◌, ◌≡◌, refl, inl, inr, List, [], ◌∷◌, ◌++◌, length, Bool-cases, arith}
use mathlib.Core.Path.{subst}
use scrybe.Text.{Text}
use scrybe.Notes.Segments.{TranscriptSegment}
use scrybe.Notes.Transcript.{ParsedLine, malformed, parsed, parse_segment_line}
use scrybe.Notes.Document.{
  is_blank, skip_header, doc_lines, Transcript, rejected, accepted, with_rest, add_line, parse_body,
  parse_canonical_transcript,
}

abbrev pub IsNumbered : ℕ → List TranscriptSegment → Type 0
IsNumbered from [] = Unit
IsNumbered from (s ∷ rest) = (s.ordinal ≡ from) × IsNumbered (from + 1) rest

pub IsNumbered-append :
    (from : ℕ) (a b : List TranscriptSegment)
    → IsNumbered from (a ++ b)
    → IsNumbered from a × IsNumbered (from + length a) b
IsNumbered-append from [] b h = (tt, subst (λ n. IsNumbered n b) (omega arith) h)
IsNumbered-append from (s ∷ a) b h =
    let (front, back) = IsNumbered-append (from + 1) a b h.1 in
    ((h.0, front), subst (λ n. IsNumbered n b) (omega arith) back)

abbrev AreNumbered : ℕ → Transcript → Type 0
AreNumbered from (rejected line reason) = Unit
AreNumbered from (accepted segments) = IsNumbered from segments

with_rest-AreNumbered :
    (segment : TranscriptSegment) (rest : Transcript)
    → AreNumbered (segment.ordinal + 1) rest
    → AreNumbered segment.ordinal (with_rest segment rest)
unfolding with_rest
with_rest-AreNumbered segment (rejected line reason) h = tt
with_rest-AreNumbered segment (accepted segments) h = (refl, h)

add_line-AreNumbered :
    (ordinal : ℕ) (line : ParsedLine) (rest : Transcript)
    → AreNumbered (ordinal + 1) rest
    → AreNumbered ordinal (add_line ordinal line rest)
unfolding add_line
add_line-AreNumbered ordinal (malformed line reason) rest h = tt
add_line-AreNumbered ordinal (parsed speaker start_ms text) rest h = with_rest-AreNumbered _ rest h

parse_body-AreNumbered :
    (line_no ordinal : ℕ) (body : List Text) → AreNumbered ordinal (parse_body line_no ordinal body)
unfolding parse_body
parse_body-AreNumbered line_no ordinal [] = tt
parse_body-AreNumbered line_no ordinal (raw ∷ rest) =
    let blank = parse_body-AreNumbered (line_no + 1) ordinal rest in
    let line =
      add_line-AreNumbered ordinal (parse_segment_line raw line_no) _
        (parse_body-AreNumbered (line_no + 1) (ordinal + 1) rest) in
    elim (Bool-cases (is_blank raw)) [ inl e ↦ rw e blank | inr e ↦ rw e line ]

pub parse_canonical_transcript-IsNumbered :
    (transcript : Text) (segments : List TranscriptSegment)
    → parse_canonical_transcript transcript ≡ accepted segments
    → IsNumbered 1 segments
unfolding parse_canonical_transcript
parse_canonical_transcript-IsNumbered transcript segments e =
    let (start, body) = skip_header (doc_lines transcript) in
    subst (AreNumbered 1) e (parse_body-AreNumbered (start + 1) 1 body)
