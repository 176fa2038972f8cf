-- ===== src/Session/Notes/Mapped.antt =====
-- What a run of map requests makes of a session's transcript, while notes.md is as it was.
use scrybe.Common.{◌+◌, ◌++◌, ◌≡◌, refl, sym, Option, some, List, [], length, map}
use mathlib.Core.Path.{subst}
use scrybe.Common.Results.{Result, ok, err}
use scrybe.Common.Action.{Keeps, Outcome}
use scrybe.Common.Throughout.{Throughout, Throughout-bind, Throughout-pure, Throughout-Keeps}
use scrybe.Errors.{CoreError}
use scrybe.Text.{Text}
use scrybe.Types.{MeetingContext}
use scrybe.Notes.Document.{Transcript, rejected, accepted, parse_canonical_transcript}
use scrybe.Notes.Document.Numbered.{parse_canonical_transcript-IsNumbered, IsNumbered}
use scrybe.Notes.Segments.{TranscriptSegment, SegmentChunk, pack_segments}
use scrybe.Notes.Segments.Packed.{segments_of, segments_of-pack_segments}
use scrybe.Notes.MapReduce.{MapReduceOutput, map_reduce}
use scrybe.Notes.MapReduce.Units.{MapUnit, unit_range, ranges_of, Mapped-ranges}
use scrybe.Notes.MapReduce.Coverage.{IsAccount, Accounts, map_reduce-Accounts}
use scrybe.Notes.Runtime.{NotesRuntime}
use scrybe.Notes.Generate.{counted}
use scrybe.Notes.Generate.Covers.{Tiles, ranges_of-Tiles}
use scrybe.Session.Notes.{
  NotesEnv, NotesState, Writing, lift, parsed_segments, run_with, run_map_reduce, map_transcript,
}
use scrybe.Session.Notes.Quiet.{files, lift-Keeps, report-Keeps}

-- what a run makes of a transcript: chunks that have its segments in order, and for each the unit that
-- the model's answer makes, so that the units cover the segments. The model may go by what it was
-- sent `earlier`.
abbrev pub IsMapped :
    (env : NotesEnv) → NotesRuntime → MeetingContext → Text → MapReduceOutput → Type 0
IsMapped env runtime context body output =
    (segments : List TranscriptSegment) × (chunks : List SegmentChunk) × (units : List MapUnit)
    × (sent : List Text) × (earlier : List Text) × (parse_canonical_transcript body
        ≡ accepted segments)
    × (segments_of chunks ≡ segments)
    × IsAccount (run_with env runtime context earlier) chunks units sent output
    × Tiles 1 (map unit_range units) (1 + length segments)

parsed_segments-ok :
    (t : Transcript) (segments : List TranscriptSegment)
    → parsed_segments t ≡ ok segments
    → t ≡ accepted segments
unfolding parsed_segments
parsed_segments-ok (rejected line reason) segments e = absurd cc
parsed_segments-ok (accepted kept) segments e = cc

module _ (env : NotesEnv) (notes : Option Text) where
  -- notes.md is as it was
  abbrev pub Untouched : NotesState env → Type 0
  Untouched s = s.notes ≡ notes

  abbrev Unseen : Text × Option Text → Type 0
  Unseen seen = seen.1 ≡ notes

  abbrev pub Leaves : {A : Type 0} → (A → Type 0) → Writing env A → Type 0
  Leaves = Throughout Untouched

  pub still : {A : Type 0} (m : Writing env A) → Keeps (files env) m → Leaves (λ _. Unit) m
  still m l = Throughout-Keeps Unseen m l

  lift-Leaves : {A : Type 0} (r : Result CoreError A) → Leaves (λ a. r ≡ ok a) (lift env r)
  unfolding lift
  lift-Leaves (ok a) = record { at = λ s h. (refl, h) }
  lift-Leaves (err e) = record { at = λ s h. h }

  run_map_reduce-Leaves :
      (runtime : NotesRuntime) (context : MeetingContext) (chunks : List SegmentChunk)
      → Leaves
          (λ output.
            (units : List MapUnit) × (sent : List Text) × (earlier : List Text) × IsAccount
              (run_with env runtime context earlier)
              chunks
              units
              sent
              output)
          (run_map_reduce env runtime context chunks)
  unfolding run_map_reduce
  run_map_reduce-Leaves runtime context chunks = record {
    at = λ s h.
        on s h (map_reduce (run_with env runtime context s.sent) chunks).0
          (map_reduce-Accounts (run_with env runtime context s.sent) chunks);
  }
    where
      on :
          (s : NotesState env)
          → Untouched s
          → (answer : Result CoreError MapReduceOutput)
          → Accounts (run_with env runtime context s.sent) chunks answer
          → Outcome Untouched
              (λ output t.
                ((units : List MapUnit) × (sent : List Text) × (earlier : List Text) × IsAccount
                    (run_with env runtime context earlier)
                    chunks
                    units
                    sent
                    output)
                × Untouched t)
              (
                answer,
                record s {
                  sent = (map_reduce (run_with env runtime context s.sent) chunks).1 ++ s.sent;
                },
              )
      on s h (ok output) (units, sent, account) = ((units, sent, s.sent, account), h)
      on s h (err e) a = h

  pub map_transcript-Leaves :
      (runtime : NotesRuntime) (context : MeetingContext) (body : Text)
      → Leaves
          (λ r.
            (output : MapReduceOutput) × (r ≡ some output)
            × IsMapped env runtime context body output)
          (map_transcript env (some runtime) context body)
  unfolding map_transcript
  map_transcript-Leaves runtime context body =
      Throughout-bind Untouched _ _ _ _ (lift-Leaves _) λ segments p.
        Throughout-bind Untouched (λ _. Unit) _ _ _ (still _ (lift-Keeps env _))
          λ counts _.
            Throughout-bind Untouched (λ _. Unit) _ _ _ (still _ (report-Keeps env _))
              λ _ _.
                Throughout-bind Untouched _ _ _ _ (run_map_reduce-Leaves runtime context _)
                  λ output (units, sent, earlier, account).
                    let parsed = parsed_segments-ok _ segments p in
                    let chunks =
                      pack_segments runtime.target_tokens runtime.overlap_segments (counted counts)
                        segments in
                    let own : segments_of chunks ≡ segments =
                      segments_of-pack_segments _ _ _ segments in
                    let tiles : Tiles 1 (ranges_of chunks) (1 + length (segments_of chunks)) =
                      ranges_of-Tiles 1 chunks (
                        subst (IsNumbered 1) (sym own)
                          (parse_canonical_transcript-IsNumbered body segments parsed)) in
                    Throughout-pure Untouched _ (some output) (
                      output,
                      refl,
                      (
                        segments,
                        chunks,
                        units,
                        sent,
                        earlier,
                        parsed,
                        own,
                        account,
                        subst (λ l. Tiles 1 l (1 + length segments))
                            (sym (
                              Mapped-ranges (run_with env runtime context earlier) chunks [] units
                                sent account.mapped_units))
                            (subst (λ l. Tiles 1 (ranges_of chunks) (1 + length l)) own tiles),
                      ),
                    )
