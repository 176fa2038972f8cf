-- ===== src/Notes/Prompts.antt =====
-- scrybe-core/src/notes.rs: the texts of the requests.
use Prim.Native.String.{String}
use scrybe.Common.{ℕ, Bool, false, Option, none, some, List, [], ◌∷◌, ◌++◌, ◌==◌, if◌then◌else◌}
use scrybe.Text.{Text, codes, trim}
use scrybe.Types.{MeetingContext}
use scrybe.Notes.Segments.{TranscriptSegment}
use scrybe.Notes.Transcript.{show_from, format_hms_ms}

pub record MapGroup : Type 0 where
  pub start_ordinal : ℕ
  pub end_ordinal : ℕ
  pub bullets : Text

pub record ProcessingGap : Type 0 where
  pub start_ordinal : ℕ
  pub end_ordinal : ℕ
  pub reason : String

-- a `usize`, which has at most twenty digits
abbrev pub show_ordinal : ℕ → Text
show_ordinal n = show_from 20 n

abbrev render_segment : TranscriptSegment → Text
render_segment s =
    codes "["
    ++ show_ordinal s.ordinal
    ++ codes "] **"
    ++ s.speaker
    ++ codes "** ["
    ++ format_hms_ms s.start_ms
    ++ codes "]: "
    ++ s.text
    ++ codes "\n"

unfoldable pub render_segments : List TranscriptSegment → Text
render_segments [] = []
render_segments (s ∷ rest) = render_segment s ++ render_segments rest

overlap_section : List TranscriptSegment → Text
overlap_section [] = []
overlap_section (s ∷ rest) =
    codes "\n--- CONTEXT OVERLAP (already covered) ---\n" ++ render_segments (s ∷ rest)

unfoldable pub render_map_prompt : List TranscriptSegment → List TranscriptSegment → Text
unfolding overlap_section
render_map_prompt overlap segments =
    codes "Extract factual bullets from the canonical transcript segments below.\n"
    ++ codes "The transcript is ground truth. Preserve speaker attribution.\n"
    ++ codes "Do not infer, invent, or turn meeting context into facts.\n"
    ++ codes "Return bullets only.\n"
    ++ overlap_section overlap
    ++ codes "\n--- TRANSCRIPT SEGMENTS (new coverage) ---\n"
    ++ render_segments segments
    ++ codes "--- END TRANSCRIPT SEGMENTS ---\n"

-- a line for a value that is there
abbrev optional_line : Text → Option Text → Text
optional_line label none = []
optional_line label (some value) = label ++ value ++ codes "\n"

-- `join(", ")`
abbrev join_names : Text → List Text → Text
join_names first [] = first
join_names first (next ∷ rest) = first ++ codes ", " ++ join_names next rest

attendees_line : List Text → Text
attendees_line [] = []
attendees_line (first ∷ rest) =
    codes "Requested attendee context: " ++ join_names first rest ++ codes "\n"

abbrev pub ordinals : ℕ → ℕ → Text
ordinals start end = show_ordinal start ++ codes "–" ++ show_ordinal end

unfoldable pub render_groups : List MapGroup → Text
render_groups [] = []
render_groups (group ∷ rest) =
    let later = render_groups rest in
    (if group.start_ordinal == 0
      then trim group.bullets ++ codes "\n"
      else codes "[Transcript segments "
        ++ ordinals group.start_ordinal group.end_ordinal
        ++ codes "]\n"
        ++ trim group.bullets
        ++ codes "\n")
    ++ later

unfoldable pub render_gap_notes : List ProcessingGap → Text
render_gap_notes [] = []
render_gap_notes (gap ∷ rest) =
    codes "[Processing gap: transcript segments "
    ++ ordinals gap.start_ordinal gap.end_ordinal
    ++ codes " ("
    ++ codes gap.reason
    ++ codes ")]\n"
    ++ render_gap_notes rest

unfoldable pub render_reduce_prompt : MeetingContext → List MapGroup → List ProcessingGap → Text
unfolding attendees_line
render_reduce_prompt context groups gaps =
    codes "Write structured meeting notes from the factual map bullets below.\n"
    ++ codes "The map bullets are the only factual source. User context supplies intent only;\n"
    ++ codes "do not treat it as evidence. Preserve speaker attribution and do not invent facts.\n"
    ++ codes "Produce markdown with these sections, in order:\n"
    ++ codes "- TL;DR (2–3 sentences)\n"
    ++ codes "- Action items (bulleted)\n"
    ++ codes "- Decisions (bulleted)\n"
    ++ codes "- Follow-ups (bulleted)\n"
    ++ optional_line (codes "\nRequested meeting title: ") context.title
    ++ attendees_line context.attendees
    ++ optional_line (codes "Requested agenda context: ") context.agenda
    ++ codes "\n--- FACTUAL MAP BULLETS ---\n"
    ++ render_groups groups
    ++ render_gap_notes gaps
    ++ codes "--- END FACTUAL MAP BULLETS ---\n"

ends_with_newline : Text → Bool
ends_with_newline [] = false
ends_with_newline (c ∷ []) = c == 10
ends_with_newline (c ∷ d ∷ s) = ends_with_newline (d ∷ s)

-- the transcript between its two markers
delimited : Text → Text
unfolding ends_with_newline
delimited transcript =
    codes "--- TRANSCRIPT ---\n"
    ++ transcript
    ++ (if ends_with_newline transcript then [] else codes "\n")
    ++ codes "--- END TRANSCRIPT ---\n"

names_line : List Text → Text
names_line [] = []
names_line (first ∷ rest) = codes "Attendees: " ++ join_names first rest ++ codes "\n"

unfoldable pub render_notes_prompt : Text → MeetingContext → Text
unfolding delimited names_line
render_notes_prompt transcript ctx =
    codes "You are summarizing a meeting transcript into structured notes.\n"
    ++ codes "Produce markdown with these sections, in order:\n"
    ++ codes "- TL;DR (2–3 sentences)\n"
    ++ codes "- Action items (bulleted)\n"
    ++ codes "- Decisions (bulleted)\n"
    ++ codes "- Follow-ups (bulleted)\n\n"
    ++ optional_line (codes "Meeting title: ") ctx.title
    ++ names_line ctx.attendees
    ++ optional_line (codes "Agenda: ") ctx.agenda
    ++ optional_line (codes "Language: ") ctx.language
    ++ codes "\n"
    ++ delimited transcript

unfoldable pub render_title_prompt : Text → Text
unfolding delimited
render_title_prompt transcript =
    codes "Create a short, factual title for this transcript.\n"
    ++ codes "Return only the title: no markdown, no quotes, no date.\n"
    ++ codes "Use 3 to 8 words. Prefer the concrete topic over generic words.\n\n"
    ++ delimited transcript
