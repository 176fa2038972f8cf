-- ===== src/Notes/Document.antt =====
-- A whole transcript.md: `parse_canonical_transcript` of scrybe-core/src/notes_segments.rs.
pub mod Parsed
pub mod Numbered
pub mod Whole
use scrybe.Common.{
  ℕ, ◌+◌, Bool, true, false, ◌&&◌, Option, none, some, is_some, List, [], ◌∷◌, ◌==◌, if◌then◌else◌,
}
use scrybe.Text.{Text, trim}
use scrybe.Notes.Segments.{TranscriptSegment, is_empty}
use scrybe.Notes.Transcript.{
  strip_prefix, Malformed, ParsedLine, malformed, parsed, parse_segment_line,
}

before_line : ℕ → List Text → List Text
before_line c [] = (c ∷ []) ∷ []
before_line c (line ∷ rest) = (c ∷ line) ∷ rest

begins_newline : Text → Bool
begins_newline [] = false
begins_newline (c ∷ _) = c == 10

-- `str::lines`: one carriage return before a newline belongs to the newline
unfoldable pub doc_lines : Text → List Text
unfolding before_line begins_newline
doc_lines [] = []
doc_lines (c ∷ s) =
    let rest = doc_lines s in
    if c == 10 then [] ∷ rest else if c == 13 && begins_newline s then rest else before_line c rest

abbrev pub is_blank : Text → Bool
is_blank line = is_empty (trim line)

ends_with_star : Text → Bool
ends_with_star [] = false
ends_with_star (c ∷ []) = c == 42
ends_with_star (c ∷ d ∷ s) = ends_with_star (d ∷ s)

-- a star at both ends, and two characters at least
star_to_star : Text → Bool
unfolding ends_with_star
star_to_star [] = false
star_to_star (c ∷ s) = c == 42 && ends_with_star s

unfoldable pub is_timestamp_meta_line : Text → Bool
unfolding star_to_star
is_timestamp_meta_line line = star_to_star (trim line)

-- the lines that are skipped, and the lines after them
skip_blank : ℕ → List Text → ℕ × List Text
skip_blank idx [] = (idx, [])
skip_blank idx (line ∷ rest) =
    let later = skip_blank (idx + 1) rest in if is_blank line then later else (idx, line ∷ rest)

skip_meta : ℕ → List Text → ℕ × List Text
unfolding skip_blank
skip_meta idx [] = (idx, [])
skip_meta idx (line ∷ rest) =
    if is_timestamp_meta_line line then skip_blank (idx + 1) rest else skip_blank idx (line ∷ rest)

unfoldable pub skip_header : List Text → ℕ × List Text
unfolding skip_meta
skip_header [] = (0, [])
skip_header (line ∷ rest) =
    if is_some (strip_prefix (35 ∷ 32 ∷ []) line)
    then skip_meta 1 rest
    else skip_meta 0 (line ∷ rest)

pub data Transcript : Type 0 where
  rejected : ℕ → Malformed → Transcript
  accepted : List TranscriptSegment → Transcript

-- a segment in front of the rest
with_rest : TranscriptSegment → Transcript → Transcript
with_rest segment (rejected line reason) = rejected line reason
with_rest segment (accepted segments) = accepted (segment ∷ segments)

add_line : ℕ → ParsedLine → Transcript → Transcript
unfolding with_rest
add_line ordinal (malformed line reason) rest = rejected line reason
add_line ordinal (parsed speaker start_ms text) rest =
    with_rest (record { ordinal = ordinal; speaker = speaker; start_ms = start_ms; text = text })
      rest

-- the loop over the body, from a line's number and the next segment's ordinal on
unfoldable pub parse_body : ℕ → ℕ → List Text → Transcript
unfolding add_line
parse_body line_no ordinal [] = accepted []
parse_body line_no ordinal (raw ∷ rest) =
    let skipped = parse_body (line_no + 1) ordinal rest in
    let later = parse_body (line_no + 1) (ordinal + 1) rest in
    if is_blank raw then skipped else add_line ordinal (parse_segment_line raw line_no) later

unfoldable pub parse_canonical_transcript : Text → Transcript
parse_canonical_transcript markdown =
    let (body_start, body) = skip_header (doc_lines markdown) in parse_body (body_start + 1) 1 body
