-- ===== src/Notes/MapReduce/Units.antt =====
-- The units of a run, one for each chunk: what the model answers to its prompt, or why it is a gap.
use scrybe.Common.{ℕ, ◌≡◌, refl, ap, ◌∙◌, ◌⊎◌, inl, inr, true, false, List, [], ◌∷◌, ◌++◌, map}
use scrybe.Common.Action.{Result, ok, err}
use scrybe.Text.{Text}
use Prim.Native.String.{String}
use scrybe.Errors.{LlmError}
use scrybe.Notes.Segments.{TranscriptSegment, SegmentChunk}
use scrybe.Notes.Prompts.{MapGroup, ProcessingGap, render_map_prompt}
use scrybe.Notes.MapReduce.{NotesRun, last_from, error_class}

-- the first and the last ordinal of a chunk that has segments
abbrev pub range_of : List TranscriptSegment → List (ℕ × ℕ)
range_of [] = []
range_of (first ∷ rest) = (first.ordinal, (last_from first rest).ordinal) ∷ []

abbrev pub ranges_of : List SegmentChunk → List (ℕ × ℕ)
ranges_of [] = []
ranges_of (chunk ∷ rest) = range_of chunk.segments ++ ranges_of rest

abbrev pub MapUnit : Type 0
MapUnit = MapGroup ⊎ ProcessingGap

abbrev pub unit_range : MapUnit → ℕ × ℕ
unit_range (inl g) = (g.start_ordinal, g.end_ordinal)
unit_range (inr g) = (g.start_ordinal, g.end_ordinal)

abbrev pub groups_in : List MapUnit → List MapGroup
groups_in [] = []
groups_in (inl g ∷ rest) = g ∷ groups_in rest
groups_in (inr _ ∷ rest) = groups_in rest

abbrev pub gaps_in : List MapUnit → List ProcessingGap
gaps_in [] = []
gaps_in (inl _ ∷ rest) = gaps_in rest
gaps_in (inr g ∷ rest) = g ∷ gaps_in rest

pub groups_in-append : (a b : List MapUnit) → groups_in (a ++ b) ≡ groups_in a ++ groups_in b
groups_in-append [] b = refl
groups_in-append (inl g ∷ a) b = ap (λ l. g ∷ l) (groups_in-append a b)
groups_in-append (inr g ∷ a) b = groups_in-append a b

pub gaps_in-append : (a b : List MapUnit) → gaps_in (a ++ b) ≡ gaps_in a ++ gaps_in b
gaps_in-append [] b = refl
gaps_in-append (inl g ∷ a) b = gaps_in-append a b
gaps_in-append (inr g ∷ a) b = ap (λ l. g ∷ l) (gaps_in-append a b)

ranges-append :
    (a b : List MapUnit) → map unit_range (a ++ b) ≡ map unit_range a ++ map unit_range b
ranges-append [] b = refl
ranges-append (x ∷ a) b = ap (λ l. unit_range x ∷ l) (ranges-append a b)

abbrev gap : ℕ → ℕ → String → ProcessingGap
gap start end reason = record { start_ordinal = start; end_ordinal = end; reason = reason }

module _ (run : NotesRun) where
  -- the unit of one chunk whose request got this answer: a group with the text of the answer, or a
  -- gap with the class of the failure
  abbrev pub Answered : ℕ → ℕ → List MapUnit → Result LlmError Text → Type 0
  Answered start end own (ok bullets) =
      own ≡ inl (record { start_ordinal = start; end_ordinal = end; bullets = bullets }) ∷ []
  Answered start end own (err e) = own ≡ inr (gap start end (error_class e)) ∷ []

  -- the unit of one chunk, and the prompts sent before and after it, the latest first: a chunk
  -- without segments has none; one whose prompt does not fit is a gap and is not sent; any other is
  -- sent, and its unit is what the model answers after the prompts before it
  abbrev pub Own :
      List TranscriptSegment
      → List TranscriptSegment
      → List Text
      → List MapUnit
      → List Text
      → Type 0
  Own overlap [] before own after = (own ≡ []) × (after ≡ before)
  Own overlap (first ∷ rest) before own after =
      let prompt = render_map_prompt overlap (first ∷ rest) in
      let start = first.ordinal in
      let end = (last_from first rest).ordinal in
      ((run.prompt_fits prompt ≡ ok false)
        × (own ≡ inr (gap start end "input-cap-exceeded") ∷ [])
        × (after ≡ before))
      ⊎ ((run.prompt_fits prompt ≡ ok true)
          × (after ≡ prompt ∷ before)
          × Answered start end own (run.complete before prompt))

  -- the units of the chunks, in order
  abbrev pub Mapped : List SegmentChunk → List Text → List MapUnit → List Text → Type 0
  Mapped [] before units after = (units ≡ []) × (after ≡ before)
  Mapped (chunk ∷ rest) before units after =
      (own : List MapUnit) × (later : List MapUnit) × (between : List Text) × (units ≡ own ++ later)
      × Own chunk.overlap chunk.segments before own between
      × Mapped rest between later after

  Answered-range :
      (start end : ℕ) (own : List MapUnit) (a : Result LlmError Text)
      → Answered start end own a
      → map unit_range own ≡ (start, end) ∷ []
  Answered-range start end own (ok bullets) e = ap (map unit_range) e
  Answered-range start end own (err f) e = ap (map unit_range) e

  Own-range :
      (overlap segments : List TranscriptSegment) (before : List Text) (own : List MapUnit)
      (after : List Text)
      → Own overlap segments before own after
      → map unit_range own ≡ range_of segments
  Own-range overlap [] before own after (e, _) = ap (map unit_range) e
  Own-range overlap (first ∷ rest) before own after (inl h) = ap (map unit_range) h.1
  Own-range overlap (first ∷ rest) before own after (inr (fits, sent, h)) =
      Answered-range first.ordinal (last_from first rest).ordinal own _ h

  pub Mapped-ranges :
      (chunks : List SegmentChunk) (before : List Text) (units : List MapUnit) (after : List Text)
      → Mapped chunks before units after
      → map unit_range units ≡ ranges_of chunks
  Mapped-ranges [] before units after (e, _) = ap (map unit_range) e
  Mapped-ranges (chunk ∷ rest) before units after (own, later, between, e, o, m) =
      ap (map unit_range) e
      ∙ ranges-append own later
      ∙ ap (λ l. l ++ map unit_range later)
          (Own-range chunk.overlap chunk.segments before own between o)
      ∙ ap (λ l. range_of chunk.segments ++ l) (Mapped-ranges rest between later after m)
