-- ===== src/Notes/Body.antt =====
-- scrybe-core/src/notes.rs: the header of transcript.md and the text of notes.md; and the section of
-- gaps, of notes_map_reduce.rs.
use scrybe.Common.{Option, none, some, List, [], ◌∷◌, ◌++◌, ◌==◌, if◌then◌else◌}
use mathlib.Core.List.{reverse}
use scrybe.Text.{Text, codes, trim, trim_start}
use scrybe.Notes.Transcript.{strip_prefix, split_once}
use scrybe.Notes.Prompts.{ProcessingGap, show_ordinal, ordinals}

abbrev pub titled : Option Text → Text
titled none = codes "Untitled session"
titled (some title) = title

-- dates are already rendered: the start with its day, the end by its time alone
unfoldable pub render_transcript_header : Option Text → Text → Option Text → Text
render_transcript_header title started none =
    codes "# " ++ titled title ++ codes "\n*" ++ started ++ codes "*\n\n"
render_transcript_header title started (some end) =
    codes "# " ++ titled title ++ codes "\n*" ++ started ++ codes " — " ++ end ++ codes "*\n\n"

-- the line of notes.md that names a gap
unfoldable pub gap_line : ProcessingGap → Text
gap_line gap =
    (if gap.start_ordinal == gap.end_ordinal
      then codes "- Transcript segment " ++ show_ordinal gap.start_ordinal
      else codes "- Transcript segments " ++ ordinals gap.start_ordinal gap.end_ordinal)
    ++ codes " ("
    ++ codes gap.reason
    ++ codes ")\n"

unfoldable pub gap_lines : List ProcessingGap → Text
gap_lines [] = []
gap_lines (gap ∷ rest) = gap_line gap ++ gap_lines rest

unfoldable pub render_processing_gaps : List ProcessingGap → Text
render_processing_gaps [] = []
render_processing_gaps (gap ∷ rest) = codes "## Processing gaps\n" ++ gap_lines (gap ∷ rest)

unfoldable pub trim_end : Text → Text
trim_end s = reverse (trim_start (reverse s))

unfenced : Text → Option (Text × Text) → Text
unfenced trimmed none = trimmed
unfenced trimmed (some (notes, _)) = notes

opened : Text → Option Text → Option Text → Text
unfolding unfenced
opened trimmed (some body) _ = trim_end (unfenced trimmed (split_once (codes "\n```") body))
opened trimmed none (some body) = trim_end (unfenced trimmed (split_once (codes "\n```") body))
opened trimmed none none = trimmed

unfoldable pub strip_outer_markdown_fence : Text → Text
unfolding opened
strip_outer_markdown_fence output =
    let trimmed = trim output in
    opened trimmed (strip_prefix (codes "```markdown\n") trimmed)
      (strip_prefix (codes "```\n") trimmed)

-- the date is already rendered
unfoldable pub render_notes_body : Option Text → Text → Text → Text
render_notes_body title generated llm_output =
    codes "# "
    ++ titled title
    ++ codes " — notes\n*Generated "
    ++ generated
    ++ codes "*\n\n"
    ++ strip_outer_markdown_fence llm_output
    ++ codes "\n"

gap_section : Text → Text
gap_section [] = []
gap_section (c ∷ s) = 10 ∷ c ∷ s

unfoldable pub render_notes_body_with_gaps : Option Text → Text → Text → List ProcessingGap → Text
unfolding gap_section
render_notes_body_with_gaps title generated llm_output gaps =
    render_notes_body title generated llm_output ++ gap_section (render_processing_gaps gaps)
