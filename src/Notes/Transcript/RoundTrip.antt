-- ===== src/Notes/Transcript/RoundTrip.antt =====
-- A rendered transcript line is parsed into the parts that it was rendered from.
use scrybe.Common.{
  ℕ, ◌*◌, ◌/◌, ◌≤◌, ◌≡◌, refl, sym, ap, ◌∙◌, false, some, [], ◌∷◌, ◌++◌, All, ◌==◌, arith,
}
use mathlib.Core.List.{append_assoc}
use scrybe.Common.Words.{u64_max}
use scrybe.Text.{Text, trim}
use scrybe.Types.{SpeakerLabel, me, them, named, unknown, AttributedChunk}
use scrybe.Notes.Transcript.{
  label_for, format_hms_ms, render_transcript_line, strip_prefix, split_once, after_char, parsed,
  with_start, with_timestamp, with_speaker, opened, parse_segment_line,
}
use scrybe.Notes.Transcript.Decimal.{IsStamp, format_hms_ms-IsStamp, parse_hms-format_hms_ms}

-- the first delimiter ends the timestamp, whatever the text holds
split_once-delimiter :
    (a b : Text)
    → All IsStamp a
    → split_once (93 ∷ 58 ∷ 32 ∷ []) (a ++ 93 ∷ 58 ∷ 32 ∷ b) ≡ some (a, b)
unfolding split_once strip_prefix after_char
split_once-delimiter [] b h = refl
split_once-delimiter (c ∷ a) b h =
    let other : (93 == c) ≡ false = ground (arith, h.0) in
    rw (split_once, strip_prefix, other, split_once-delimiter a b h.1) refl

-- a label ends at its marker, and is not empty
with_speaker-label_for :
    (line_no : ℕ) (label : SpeakerLabel) (rest : Text)
    → with_speaker line_no
        (split_once (42 ∷ 42 ∷ 32 ∷ 91 ∷ []) (label_for label ++ 42 ∷ 42 ∷ 32 ∷ 91 ∷ rest))
      ≡ with_timestamp line_no (label_for label) (split_once (93 ∷ 58 ∷ 32 ∷ []) rest)
unfolding with_speaker split_once strip_prefix after_char
with_speaker-label_for line_no me rest = refl
with_speaker-label_for line_no them rest = refl
with_speaker-label_for line_no (named name) rest = refl
with_speaker-label_for line_no unknown rest = refl

-- what is rendered, without its newline
abbrev pub rendered_text : AttributedChunk → Text
rendered_text chunk =
    42
    ∷ 42
    ∷ (label_for chunk.speaker
        ++ 42
          ∷ 42
          ∷ 32
          ∷ 91
          ∷ (format_hms_ms chunk.chunk.start_ms ++ 93 ∷ 58 ∷ 32 ∷ trim chunk.chunk.text))

-- A chunk is rendered as one text and a newline, and that text is parsed, on whatever line it stands,
-- as the chunk's label, its start less what is left of the last second, and its trimmed text; for
-- every text, also one that holds the line's own delimiters, and every start below the 64-bit limit.
pub parse_segment_line-render_transcript_line :
    (chunk : AttributedChunk) (line_no : ℕ)
    → chunk.chunk.start_ms ≤ u64_max
    → (render_transcript_line chunk ≡ rendered_text chunk ++ 10 ∷ [])
      × (parse_segment_line (rendered_text chunk) line_no
          ≡ parsed
              (label_for chunk.speaker)
              (chunk.chunk.start_ms / 1000 * 1000)
              (trim chunk.chunk.text))
unfolding parse_segment_line opened with_timestamp with_start render_transcript_line strip_prefix
parse_segment_line-render_transcript_line chunk line_no k =
    let label = label_for chunk.speaker in
    let stamp = format_hms_ms chunk.chunk.start_ms in
    let text = trim chunk.chunk.text in
    let split = split_once-delimiter stamp text (format_hms_ms-IsStamp chunk.chunk.start_ms) in
    (
      ap (λ t. 42 ∷ 42 ∷ t)
          (sym (
            append_assoc label (42 ∷ 42 ∷ 32 ∷ 91 ∷ (stamp ++ 93 ∷ 58 ∷ 32 ∷ text)) (10 ∷ [])
            ∙ ap (λ t. label ++ 42 ∷ 42 ∷ 32 ∷ 91 ∷ t)
                (append_assoc stamp (93 ∷ 58 ∷ 32 ∷ text) (10 ∷ [])))),
      with_speaker-label_for line_no chunk.speaker (stamp ++ 93 ∷ 58 ∷ 32 ∷ text)
          ∙ ap (with_timestamp line_no label) split
          ∙ ap (with_start line_no label text) (parse_hms-format_hms_ms chunk.chunk.start_ms k),
    )
