-- ===== src/Notes/Document/Parsed.antt =====
-- A transcript that was rendered line by line is parsed into its segments.
use scrybe.Common.{
  ℕ, ◌+◌, ◌*◌, ◌/◌, ◌≤◌, ◌≡◌, ◌≢◌, refl, sym, ap, ◌∙◌, inl, inr, true, false, is_some, List, [],
  ◌∷◌, ◌++◌, All, All-append, All-mono, ◌<◌, ◌==◌, if◌then◌else◌, Bool-cases, arith,
}
use mathlib.Core.List.{reverse, reverse_aux, reverse_aux-eq, reverse-reverse, append_assoc}
use scrybe.Common.Words.{u64_max}
use scrybe.Text.{Text, trim, trim_start, is_whitespace}
use scrybe.Types.{SpeakerLabel, me, them, named, unknown, AttributedChunk}
use scrybe.Notes.Segments.{TranscriptSegment, is_empty}
use scrybe.Notes.Transcript.{
  strip_prefix, label_for, format_hms_ms, render_transcript_line, parse_segment_line,
}
use scrybe.Notes.Transcript.Decimal.{IsStamp, format_hms_ms-IsStamp}
use scrybe.Notes.Transcript.RoundTrip.{rendered_text, parse_segment_line-render_transcript_line}
use scrybe.Notes.Document.{
  doc_lines, before_line, begins_newline, is_blank, is_timestamp_meta_line, skip_blank, skip_meta,
  skip_header, accepted, with_rest, add_line, parse_body, parse_canonical_transcript,
}

-- neither a newline nor a carriage return
abbrev pub IsPlain : ℕ → Type 0
IsPlain c = (c ≢ 10) × (c ≢ 13)

doc_lines-append :
    (line rest : Text) → All IsPlain line → doc_lines (line ++ 10 ∷ rest) ≡ line ∷ doc_lines rest
unfolding doc_lines before_line begins_newline
doc_lines-append [] rest h = refl
doc_lines-append (c ∷ line) rest h =
    let newline : (c == 10) ≡ false = ground (arith, h.0) in
    let return : (c == 13) ≡ false = ground (arith, h.0) in
    rw (doc_lines, newline, return, doc_lines-append line rest h.1) refl

-- a line with a star in front is not blank
trim_start_star : (l : Text) → trim_start (l ++ 42 ∷ []) ≢ []
unfolding trim_start is_whitespace
trim_start_star [] e = cc
trim_start_star (c ∷ l) e = elim (Bool-cases (is_whitespace c)) [
  | inl w ↦ trim_start_star l (rw (trim_start, w) at e)
  | inr w ↦ cc (rw (trim_start, w) at e)
]

not_empty-reverse : (t : Text) → t ≢ [] → is_empty (reverse t) ≡ false
not_empty-reverse t h = on (reverse t) refl
  where
    on : (r : Text) → reverse t ≡ r → is_empty r ≡ false
    on [] e = absurd (h (sym (reverse-reverse t) ∙ ap reverse e))
    on (c ∷ r) e = refl

is_blank_star : (s : Text) → is_blank (42 ∷ s) ≡ false
unfolding trim trim_start is_whitespace
is_blank_star s =
    not_empty-reverse (trim_start (reverse_aux s (42 ∷ [])))
      (λ e. trim_start_star (reverse s) (ap trim_start (sym (reverse_aux-eq s (42 ∷ []))) ∙ e))

-- the segments of chunks, numbered from an ordinal on
abbrev pub segments_from : ℕ → List AttributedChunk → List TranscriptSegment
segments_from ordinal [] = []
segments_from ordinal (chunk ∷ rest) =
    record {
      ordinal = ordinal;
      speaker = label_for chunk.speaker;
      start_ms = chunk.chunk.start_ms / 1000 * 1000;
      text = trim chunk.chunk.text;
    }
    ∷ segments_from (ordinal + 1) rest

abbrev pub rendered : List AttributedChunk → Text
rendered [] = []
rendered (chunk ∷ rest) = render_transcript_line chunk ++ rendered rest

abbrev pub IsRenderable : AttributedChunk → Type 0
IsRenderable chunk = (chunk.chunk.start_ms ≤ u64_max) × All IsPlain (trim chunk.chunk.text)

texts : List AttributedChunk → List Text
texts [] = []
texts (chunk ∷ rest) = rendered_text chunk ∷ texts rest

rendered_text-IsPlain :
    (chunk : AttributedChunk) → IsRenderable chunk → All IsPlain (rendered_text chunk)
rendered_text-IsPlain chunk h = (
  plain 42 (omega arith),
  (
    plain 42 (omega arith),
    All-append IsPlain (label_for chunk.speaker) _ (labels chunk.speaker) (
      plain 42 (omega arith),
      (
        plain 42 (omega arith),
        (
          plain 32 (omega arith),
          (
            plain 91 (omega arith),
            All-append IsPlain (format_hms_ms chunk.chunk.start_ms) _
                (All-mono IsStamp IsPlain (λ c k. plain c (omega (arith, k.0))) _
                  (format_hms_ms-IsStamp chunk.chunk.start_ms))
                (plain 93 (omega arith), (plain 58 (omega arith), (plain 32 (omega arith), h.1))),
          ),
        ),
      ),
    ),
  ),
)
  where
    plain : (c : ℕ) → 13 < c → IsPlain c
    plain c k = (λ e. omega arith, λ e. omega arith)

    labels : (label : SpeakerLabel) → All IsPlain (label_for label)
    labels me = ground arith
    labels them = ground arith
    labels (named name) = ground arith
    labels unknown = ground arith

doc_lines-rendered :
    (chunks : List AttributedChunk)
    → All IsRenderable chunks
    → doc_lines (rendered chunks) ≡ texts chunks
unfolding texts
doc_lines-rendered [] h = unfold doc_lines in refl
doc_lines-rendered (chunk ∷ rest) h =
    ap (λ t. doc_lines (t ++ rendered rest))
      (parse_segment_line-render_transcript_line chunk 0 h.0.0).0
    ∙ ap doc_lines (append_assoc (rendered_text chunk) (10 ∷ []) (rendered rest))
    ∙ doc_lines-append (rendered_text chunk) (rendered rest) (rendered_text-IsPlain chunk h.0)
    ∙ ap (λ l. rendered_text chunk ∷ l) (doc_lines-rendered rest h.1)

rendered_text-is_blank : (chunk : AttributedChunk) → is_blank (rendered_text chunk) ≡ false
rendered_text-is_blank chunk = is_blank_star _

parse_body-texts :
    (chunks : List AttributedChunk) (line_no ordinal : ℕ)
    → All IsRenderable chunks
    → parse_body line_no ordinal (texts chunks) ≡ accepted (segments_from ordinal chunks)
unfolding texts parse_body add_line with_rest
parse_body-texts [] line_no ordinal h = refl
parse_body-texts (chunk ∷ rest) line_no ordinal h =
    let skipped = parse_body (line_no + 1) ordinal (texts rest) in
    let later = parse_body (line_no + 1) (ordinal + 1) (texts rest) in
    let line = parse_segment_line (rendered_text chunk) line_no in
    ap (λ b. if b then skipped else add_line ordinal line later) (rendered_text-is_blank chunk)
    ∙ ap (λ l. add_line ordinal l later)
        (parse_segment_line-render_transcript_line chunk line_no h.0.0).1
    ∙ ap (with_rest _) (parse_body-texts rest (line_no + 1) (ordinal + 1) h.1)

skip_blank-texts :
    (idx : ℕ) (chunks : List AttributedChunk) → skip_blank idx (texts chunks) ≡ (idx, texts chunks)
unfolding skip_blank texts
skip_blank-texts idx [] = refl
skip_blank-texts idx (chunk ∷ rest) =
    ap
      (λ b.
        if b then skip_blank (idx + 1) (texts rest) else (idx, rendered_text chunk ∷ texts rest))
      (rendered_text-is_blank chunk)

skip_blank-empty :
    (idx : ℕ) (rest : List Text) → skip_blank idx ([] ∷ rest) ≡ skip_blank (idx + 1) rest
unfolding skip_blank trim trim_start
skip_blank-empty idx rest = refl

-- A transcript whose header is a title line and a timestamp line, without line breaks of their own,
-- and a blank line, and whose body was rendered chunk by chunk, is parsed into one segment for each
-- chunk, in order and numbered from 1, with the chunk's label, its start less what is left of its
-- last second, and its trimmed text; provided that each text is one line and each start is below the
-- 64-bit limit.
pub parse_canonical_transcript-rendered :
    (title meta : Text) (chunks : List AttributedChunk)
    → All IsPlain title
    → All IsPlain meta
    → is_some (strip_prefix (35 ∷ 32 ∷ []) title) ≡ true
    → is_timestamp_meta_line meta ≡ true
    → All IsRenderable chunks
    → parse_canonical_transcript (title ++ 10 ∷ (meta ++ 10 ∷ 10 ∷ rendered chunks))
      ≡ accepted (segments_from 1 chunks)
unfolding parse_canonical_transcript skip_header skip_meta
parse_canonical_transcript-rendered title meta chunks t m is_title is_meta h =
    let split : doc_lines (title ++ 10 ∷ (meta ++ 10 ∷ 10 ∷ rendered chunks))
        ≡ title ∷ meta ∷ [] ∷ texts chunks =
      doc_lines-append title _ t
      ∙ ap (λ l. title ∷ l)
          (doc_lines-append meta _ m
            ∙ ap (λ l. meta ∷ l)
                (doc_lines-append [] (rendered chunks) tt
                  ∙ ap (λ l. [] ∷ l) (doc_lines-rendered chunks h))) in
    let skipped : skip_header (title ∷ meta ∷ [] ∷ texts chunks) ≡ (3, texts chunks) =
      ap
        (λ b.
          if b
          then skip_meta 1 (meta ∷ [] ∷ texts chunks)
          else skip_meta 0 (title ∷ meta ∷ [] ∷ texts chunks))
        is_title
      ∙ ap
          (λ b.
            if b then skip_blank 2 ([] ∷ texts chunks) else skip_blank 1 (meta ∷ [] ∷ texts chunks))
          is_meta
      ∙ skip_blank-empty 2 (texts chunks)
      ∙ skip_blank-texts 3 chunks in
    ap (λ l. parse_body ((skip_header l).0 + 1) 1 (skip_header l).1) split
    ∙ ap (λ k. parse_body (k.0 + 1) 1 k.1) skipped
    ∙ parse_body-texts chunks 4 1 h
