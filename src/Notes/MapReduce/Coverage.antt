-- ===== src/Notes/MapReduce/Coverage.antt =====
-- A run leaves out no part of the transcript silently: each chunk is a group or a gap.
use scrybe.Common.{
  ◌≡◌, refl, sym, ap, ◌∙◌, inl, inr, Bool, true, false, Option, none, some, List, [], ◌∷◌, ◌++◌,
  ltb, length, Bool-cases,
}
use mathlib.Core.Path.{subst}
use mathlib.Core.List.{append-nil, append_assoc}
use scrybe.Common.Action.{Result, ok, err}
use scrybe.Text.{Text}
use scrybe.Errors.{ConfigError, LlmError, CoreError, llm}
use scrybe.Notes.Segments.{TranscriptSegment, SegmentChunk}
use scrybe.Notes.Prompts.{MapGroup, ProcessingGap, render_map_prompt, render_reduce_prompt}
use scrybe.Notes.MapReduce.{
  NotesRun, State, Step, MapReduceOutput, sent_map, tested_map, map_chunk, map_chunks, reduce,
  mapped, map_reduce, last_from, capped, shrink, compacted, compact, capped_reduce_prompt,
}
use scrybe.Notes.MapReduce.Cap.{IsCapped, capped_reduce_prompt-IsCapped}
use scrybe.Notes.MapReduce.Units.{
  MapUnit, groups_in, gaps_in, groups_in-append, gaps_in-append, Answered, Own, Mapped,
}

module _ (run : NotesRun) where
  -- what a part of the run adds to the groups and the gaps
  Adds : (List Text → List MapUnit → List Text → Type 0) → State run → State run → Type 0
  Adds P before after =
      (units : List MapUnit) × P before.2 units after.2
      × (after.0 ≡ before.0 ++ groups_in units)
      × (after.1 ≡ before.1 ++ gaps_in units)

  -- a step that is not stopped adds
  AddsUnless : (List Text → List MapUnit → List Text → Type 0) → State run → Step run → Type 0
  AddsUnless P before (after, some e) = Unit
  AddsUnless P before (after, none) = Adds P before after

  Adds-then :
      (chunk : SegmentChunk) (rest : List SegmentChunk) (a b c : State run)
      → Adds (Own run chunk.overlap chunk.segments) a b
      → Adds (Mapped run rest) b c
      → Adds (Mapped run (chunk ∷ rest)) a c
  unfolding Adds
  Adds-then chunk rest a b c (u, r, g, p) (v, s, h, q) = (
    u ++ v,
    (u, v, b.2, refl, r, s),
    h
        ∙ ap (λ l. l ++ groups_in v) g
        ∙ append_assoc a.0 (groups_in u) (groups_in v)
        ∙ ap (λ l. a.0 ++ l) (sym (groups_in-append u v)),
    q
        ∙ ap (λ l. l ++ gaps_in v) p
        ∙ append_assoc a.1 (gaps_in u) (gaps_in v)
        ∙ ap (λ l. a.1 ++ l) (sym (gaps_in-append u v)),
  )

  AddsUnless-then :
      (chunk : SegmentChunk) (rest : List SegmentChunk) (a b : State run) (step : Step run)
      → Adds (Own run chunk.overlap chunk.segments) a b
      → AddsUnless (Mapped run rest) b step
      → AddsUnless (Mapped run (chunk ∷ rest)) a step
  unfolding AddsUnless
  AddsUnless-then chunk rest a b (c, some e) h k = tt
  AddsUnless-then chunk rest a b (c, none) h k = Adds-then chunk rest a b c h k

  tested_map-Adds :
      (overlap : List TranscriptSegment) (first : TranscriptSegment) (rest : List TranscriptSegment)
      (state : State run) (r : Result ConfigError Bool)
      → let prompt = render_map_prompt overlap (first ∷ rest) in
        run.prompt_fits prompt ≡ r
        → AddsUnless
            (Own run overlap (first ∷ rest))
            state
            (tested_map run first.ordinal (last_from first rest).ordinal prompt state r)
  unfolding tested_map sent_map AddsUnless Adds
  tested_map-Adds overlap first rest state (err e) q = tt
  tested_map-Adds overlap first rest (groups, gaps, sent) (ok false) q =
      (inr _ ∷ [], inl (q, refl, refl), sym (append-nil groups), refl)
  tested_map-Adds overlap first rest (groups, gaps, sent) (ok true) q =
      on (run.complete sent (render_map_prompt overlap (first ∷ rest))) refl
    where
      on :
          (a : Result LlmError Text)
          → run.complete sent (render_map_prompt overlap (first ∷ rest)) ≡ a
          → Adds
              (Own run overlap (first ∷ rest))
              (groups, gaps, sent)
              (sent_map run first.ordinal
                (last_from first rest).ordinal
                (render_map_prompt overlap (first ∷ rest))
                (groups, gaps, sent)
                a)
      on (ok bullets) e = (
        inl _ ∷ [],
        inr (
          q,
          refl,
          subst (Answered run first.ordinal (last_from first rest).ordinal _) (sym e) refl,
        ),
        refl,
        sym (append-nil gaps),
      )
      on (err f) e = (
        inr _ ∷ [],
        inr (
          q,
          refl,
          subst (Answered run first.ordinal (last_from first rest).ordinal _) (sym e) refl,
        ),
        sym (append-nil groups),
        refl,
      )

  map_chunk-Adds :
      (overlap segments : List TranscriptSegment) (state : State run)
      → AddsUnless (Own run overlap segments) state (map_chunk run overlap segments state)
  unfolding map_chunk AddsUnless Adds
  map_chunk-Adds overlap [] state =
      ([], (refl, refl), sym (append-nil state.0), sym (append-nil state.1))
  map_chunk-Adds overlap (first ∷ rest) state = tested_map-Adds overlap first rest state _ refl

  map_chunks-Adds :
      (chunks : List SegmentChunk) (state : State run)
      → AddsUnless (Mapped run chunks) state (map_chunks run chunks state)
  unfolding map_chunks AddsUnless Adds
  map_chunks-Adds [] state = ([], (refl, refl), sym (append-nil state.0), sym (append-nil state.1))
  map_chunks-Adds (chunk ∷ rest) state =
      let step = map_chunk run chunk.overlap chunk.segments state in
      on step.1 (map_chunk-Adds chunk.overlap chunk.segments state) (map_chunks-Adds rest step.0)
    where
      next : State run
      next = (map_chunk run chunk.overlap chunk.segments state).0

      on :
          (stop : Option ConfigError)
          → AddsUnless (Own run chunk.overlap chunk.segments) state (next, stop)
          → AddsUnless (Mapped run rest) next (map_chunks run rest next)
          → AddsUnless (Mapped run (chunk ∷ rest)) state (elim stop as (λ _. Step run) [
            | some e ↦ (next, some e)
            | none ↦ map_chunks run rest next
          ])
      on (some e) here later = tt
      on none here later = AddsUnless-then chunk rest state next _ here later

  -- the output, from the units of the chunks and the prompts that were sent for them
  pub record IsAccount (chunks : List SegmentChunk) (units : List MapUnit) (sent : List Text)
      (out : MapReduceOutput) : Type 0 where
    pub mapped_units : Mapped run chunks [] units sent
    pub gaps_same : out.gaps ≡ gaps_in units
    pub prompt : Text
    pub kept : IsCapped run (groups_in units) (ok (prompt, out.groups))
    pub asks : prompt ≡ render_reduce_prompt run.context out.groups out.gaps
    pub reduced : run.complete sent prompt ≡ ok out.reduced_notes

  -- what a successful run returns
  abbrev pub Accounts : List SegmentChunk → Result CoreError MapReduceOutput → Type 0
  Accounts chunks (err e) = Unit
  Accounts chunks (ok out) =
      (units : List MapUnit) × (sent : List Text) × IsAccount chunks units sent out

  -- the prompt is the one for the groups beside it
  Asks : List ProcessingGap → Result ConfigError (Text × List MapGroup) → Type 0
  Asks gaps (err e) = Unit
  Asks gaps (ok (prompt, kept)) = prompt ≡ render_reduce_prompt run.context kept gaps

  capped_reduce_prompt-Asks :
      (groups : List MapGroup) (gaps : List ProcessingGap)
      → Asks gaps (capped_reduce_prompt run groups gaps)
  unfolding capped_reduce_prompt Asks capped shrink compacted
  capped_reduce_prompt-Asks groups gaps =
      on (run.prompt_fits (render_reduce_prompt run.context groups gaps))
    where
      fitted :
          (prompt : Text) (kept : List MapGroup) (r : Result ConfigError Bool)
          → prompt ≡ render_reduce_prompt run.context kept gaps
          → Asks gaps (compacted run prompt kept r)
      fitted prompt kept (err e) h = tt
      fitted prompt kept (ok false) h = tt
      fitted prompt kept (ok true) h = h

      shrunk : (l : List MapGroup) → Asks gaps (shrink run l gaps)
      shrunk [] = tt
      shrunk (first ∷ rest) = elim (Bool-cases (ltb (length (first ∷ rest)) 3)) [
        | inl few ↦ rw few tt
        | inr many ↦ rw many (fitted _ (compact run first rest) _ refl)
      ]

      on :
          (r : Result ConfigError Bool)
          → Asks gaps (capped run (render_reduce_prompt run.context groups gaps) groups gaps r)
      on (err e) = tt
      on (ok true) = refl
      on (ok false) = shrunk groups

  reduce-Accounts :
      (chunks : List SegmentChunk) (groups : List MapGroup) (gaps : List ProcessingGap)
      (sent : List Text) (r : Result ConfigError (Text × List MapGroup))
      → Adds (Mapped run chunks) ([], [], []) (groups, gaps, sent)
      → IsCapped run groups r
      → Asks gaps r
      → Accounts chunks (reduce run gaps sent r).0
  unfolding reduce Adds Asks
  reduce-Accounts chunks groups gaps sent (err e) a c asked = tt
  reduce-Accounts chunks groups gaps sent (ok (prompt, kept)) (units, r, g, p) c asked =
      on (run.complete sent prompt) refl
    where
      on :
          (a : Result LlmError Text)
          → run.complete sent prompt ≡ a
          → Accounts chunks
              (elim a as (λ _. Result CoreError MapReduceOutput × List Text) [
                | err e ↦ (err (llm e), prompt ∷ sent)
                | ok notes ↦ (
                  ok (record { groups = kept; gaps = gaps; reduced_notes = notes }),
                  prompt ∷ sent,
                )
              ]).0
      on (err e) q = tt
      on (ok notes) q = (
        units,
        sent,
        record {
          mapped_units = r;
          gaps_same = p;
          prompt = prompt;
          asks = asked;
          kept = subst (λ l. IsCapped run l (ok (prompt, kept))) g c;
          reduced = q;
        },
      )

  pub map_reduce-Accounts : (chunks : List SegmentChunk) → Accounts chunks (map_reduce run chunks).0
  unfolding map_reduce mapped AddsUnless
  map_reduce-Accounts chunks =
      on (map_chunks run chunks ([], [], [])) (map_chunks-Adds chunks ([], [], []))
    where
      on :
          (step : Step run)
          → AddsUnless (Mapped run chunks) ([], [], []) step
          → Accounts chunks (mapped run step).0
      on (state, some e) a = tt
      on ((groups, gaps, sent), none) a =
          reduce-Accounts chunks groups gaps sent _ a
            (capped_reduce_prompt-IsCapped run groups gaps) (capped_reduce_prompt-Asks groups gaps)
