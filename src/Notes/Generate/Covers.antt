-- ===== src/Notes/Generate/Covers.antt =====
-- Notes that are generated account for the whole transcript.
use scrybe.Common.{ℕ, ◌+◌, ◌≤◌, ◌≡◌, List, [], ◌∷◌, ◌++◌, map, length, length-append, arith}
use mathlib.Core.Path.{subst}
use scrybe.Common.Results.{Result, ok, err}
use scrybe.Text.{Text}
use scrybe.Notes.Document.{accepted, parse_canonical_transcript}
use scrybe.Notes.Document.Numbered.{IsNumbered, IsNumbered-append}
use scrybe.Notes.Segments.{TranscriptSegment, SegmentChunk}
use scrybe.Notes.Segments.Packed.{segments_of}
use scrybe.Notes.Body.{render_notes_body_with_gaps}
use scrybe.Notes.MapReduce.{MapReduceOutput, last_from}
use scrybe.Notes.MapReduce.Units.{MapUnit, unit_range, gaps_in, range_of, ranges_of}
use scrybe.Notes.MapReduce.Coverage.{IsAccount}
use scrybe.Notes.Runtime.{NotesConfig, NotesRuntime, load}
use scrybe.Notes.Generate.{Platform, GenerateError, Prepared, Model, transcript_title, run_of}

-- ranges that follow each other without a gap or an overlap
abbrev pub Tiles : ℕ → List (ℕ × ℕ) → ℕ → Type 0
Tiles from [] to = from ≡ to
Tiles from ((start, end) ∷ rest) to = (start ≡ from) × (start ≤ end) × Tiles (end + 1) rest to

last_ordinal :
    (from : ℕ) (s : TranscriptSegment) (rest : List TranscriptSegment)
    → IsNumbered from (s ∷ rest)
    → (last_from s rest).ordinal ≡ from + length rest
last_ordinal from s [] h = omega (arith, h.0)
last_ordinal from s (t ∷ rest) h = omega (arith, last_ordinal (from + 1) t rest h.1)

pub ranges_of-Tiles :
    (from : ℕ) (chunks : List SegmentChunk)
    → IsNumbered from (segments_of chunks)
    → Tiles from (ranges_of chunks) (from + length (segments_of chunks))
ranges_of-Tiles from [] h = omega arith
ranges_of-Tiles from (chunk ∷ rest) h = on chunk.segments h (λ next k. ranges_of-Tiles next rest k)
  where
    on :
        (own : List TranscriptSegment)
        → IsNumbered from (own ++ segments_of rest)
        → ((next : ℕ)
            → IsNumbered next (segments_of rest)
            → Tiles next (ranges_of rest) (next + length (segments_of rest)))
        → Tiles from (range_of own ++ ranges_of rest) (from + length (own ++ segments_of rest))
    on [] k later = later from k
    on (s ∷ own) k later =
        let (front, back) = IsNumbered-append from (s ∷ own) (segments_of rest) k in
        let last = last_ordinal from s own front in
        let next : from + length (s ∷ own) ≡ (last_from s own).ordinal + 1 = omega (arith, last) in
        let end : (last_from s own).ordinal + 1 + length (segments_of rest)
            ≡ from + length ((s ∷ own) ++ segments_of rest) =
          omega (arith, last, length-append own (segments_of rest)) in
        (
          front.0,
          omega (arith, last, front.0),
          subst (Tiles ((last_from s own).ordinal + 1) (ranges_of rest)) end (
              later ((last_from s own).ordinal + 1)
                (subst (λ n. IsNumbered n (segments_of rest)) next back)),
        )

-- what notes that are generated hold
abbrev pub Covers : Platform → NotesConfig → Text → Result GenerateError Text → Type 0
Covers platform config transcript (err e) = Unit
Covers platform config transcript (ok notes) =
    (runtime : NotesRuntime) × (model : Model) × (segments : List TranscriptSegment)
    × (chunks : List SegmentChunk) × (units : List MapUnit) × (sent : List Text)
    × (output : MapReduceOutput) × (instant : ℕ) × (load platform.from_file config ≡ ok runtime)
    × (platform.provider ≡ ok model)
    × (parse_canonical_transcript transcript ≡ accepted segments)
    × (segments_of chunks ≡ segments)
    × IsAccount (run_of (transcript_title transcript) runtime model) chunks units sent output
    × Tiles 1 (map unit_range units) (1 + length segments)
    × (notes
        ≡ render_notes_body_with_gaps (transcript_title transcript) (platform.format instant)
            output.reduced_notes (gaps_in units))
