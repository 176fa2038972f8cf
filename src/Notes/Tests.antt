-- ===== src/Notes/Tests.antt =====
-- The rendering, packing and map-reduce theorems at a line and a transcript of three segments.
use scrybe.Common.{
  ℕ, ◌≡◌, Bool, ◌&&◌, none, some, if◌then◌else◌, List, [], ◌∷◌, ◌++◌, All, length, leb, arith,
}
use scrybe.Text.{Text, codes, trim, trim_start, is_whitespace}
use scrybe.Notes.Document.{accepted, parse_canonical_transcript}
use scrybe.Notes.Document.Whole.{parse_canonical_transcript-render_transcript_header}
use scrybe.Notes.Body.{render_transcript_header}
use scrybe.Notes.Title.{clean_generated_title}
use scrybe.Notes.Title.Clean.{IsTitle, clean_generated_title-IsTitle}
use scrybe.Notes.Document.Parsed.{IsRenderable, rendered, segments_from}
use scrybe.Types.{mic, them, AttributedChunk}
use scrybe.Notes.Segments.{TranscriptSegment, SegmentChunk, is_empty, pack_segments}
use scrybe.Common.Action.{Result, ok, err}
use scrybe.Errors.{LlmError, transport}
use scrybe.Notes.MapReduce.{NotesRun}
use scrybe.Notes.Runtime.{NotesConfig}
use scrybe.Notes.Generate.{Platform, generate}
use scrybe.Notes.Generate.Covers.{Covers}
use scrybe.Notes.Generate.Fits.{IsWithin, generate-fits}

abbrev segment : ℕ → Text → TranscriptSegment
segment n words = record { ordinal = n; speaker = 77 ∷ []; start_ms = 0; text = words }

abbrev transcript : List TranscriptSegment
transcript = segment 1 (1 ∷ 2 ∷ []) ∷ segment 2 (3 ∷ []) ∷ segment 3 (4 ∷ 5 ∷ 6 ∷ []) ∷ []

abbrev words_in : TranscriptSegment → ℕ
words_in s = length s.text

abbrev answered : List Text → Text → Result LlmError Text
answered [] prompt = ok (9 ∷ [])
answered (_ ∷ _) prompt = err transport

-- a model that answers once and then fails, and a cap of a thousand characters
abbrev notes_run : NotesRun
notes_run = record {
  context = record { title = none; attendees = []; agenda = none; language = none };
  prompt_fits = λ prompt. ok (leb (length prompt) 1000);
  complete = answered;
}

abbrev chunks : List SegmentChunk
chunks = pack_segments 3 1 words_in transcript

-- a text that holds the line's own delimiters
abbrev spoken : AttributedChunk
spoken = record {
  chunk = record {
    text = 32 ∷ 93 ∷ 58 ∷ 32 ∷ 42 ∷ 42 ∷ 32 ∷ [];
    source = mic;
    start_ms = 3725999;
    duration_ms = 900;
    language = none;
    tokens = [];
  };
  speaker = them;
}

spoken-IsRenderable : IsRenderable spoken
unfolding trim trim_start is_whitespace
spoken-IsRenderable = ground arith

parse_canonical_transcript-render_transcript_header_example :
    parse_canonical_transcript (
      render_transcript_header
        (some (codes "Weekly"))
        (codes "2026-09-11 21:50")
        (some (codes "22:05"))
      ++ rendered (spoken ∷ []))
    ≡ accepted (segments_from 1 (spoken ∷ []))
parse_canonical_transcript-render_transcript_header_example =
    parse_canonical_transcript-render_transcript_header (some (codes "Weekly"))
      (codes "2026-09-11 21:50") (some (codes "22:05")) (spoken ∷ []) (ground arith) (ground arith)
      (spoken-IsRenderable, tt)

abbrev is_lower : ℕ → Bool
is_lower c = leb 97 c && leb c 122

-- a title in a heading, with quotes and white space around it
clean_generated_title-IsTitle_example :
    IsTitle is_lower (clean_generated_title is_lower (codes "\n# \"weekly   sync\"\nmore\n"))
clean_generated_title-IsTitle_example =
    clean_generated_title-IsTitle is_lower (codes "\n# \"weekly   sync\"\nmore\n")

-- a tokenizer that counts characters, and a model that fails the first request and then answers
abbrev here : Platform
here = record {
  from_file = λ path. ok (λ text. ok (length text));
  provider = ok (λ sent prompt. if is_empty sent then err transport else ok (codes "All is well."));
  parse_datetime = λ text. none;
  format = λ instant. codes "2026-09-11 21:50";
  now = 0;
}

abbrev notes_config : NotesConfig
notes_config = record {
  template = codes "default";
  tokenizer_path = some (codes "tokenizer.json");
  input_cap_tokens = some 1000;
  target_tokens = 4;
  overlap_segments = 1;
}

abbrev standup : Text
standup = codes "# Standup\n*2026-09-11 21:50*\n\n**Me** [00:00:01]: yes\n**Them** [00:00:02]: no\n"

generate-fits_example : All (IsWithin here notes_config) (generate here notes_config standup none).1
generate-fits_example = generate-fits here notes_config standup none
