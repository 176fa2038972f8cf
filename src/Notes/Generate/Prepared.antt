-- ===== src/Notes/Generate/Prepared.antt =====
-- What is prepared before a run: the transcript, packed by its own token counts.
use scrybe.Common.{ℕ, suc, ◌+◌, ◌-◌, ◌≡◌, refl, ap, ◌∙◌, some, List, [], ◌∷◌, All, get_elem?, arith}
use mathlib.Core.Path.{subst}
use scrybe.Common.Results.{Result, ok, err, map_err, and_then-cases, map_err-ok}
use scrybe.Errors.{ConfigError}
use scrybe.Text.{Text}
use scrybe.Notes.Document.{accepted, rejected, Transcript, parse_canonical_transcript}
use scrybe.Notes.Document.Numbered.{IsNumbered, parse_canonical_transcript-IsNumbered}
use scrybe.Notes.Segments.{TranscriptSegment}
use scrybe.Notes.Segments.Packed.{
  segments_of, IsPacked, segments_of-pack_segments, pack_segments-IsPacked,
}
use scrybe.Notes.Runtime.{NotesConfig, NotesRuntime, load, count_tokens}
use scrybe.Notes.Runtime.Loaded.{IsLoaded, load-IsLoaded}
use scrybe.Notes.Generate.{
  Platform, GenerateError, Prepared, as_segments, token_counts, counted, prepare, invalid_config,
  no_provider,
}

-- the entry that a segment's ordinal points at is the count of the segment's own text
abbrev IsOwn : NotesRuntime → List ℕ → TranscriptSegment → Type 0
IsOwn runtime counts s =
    (n : ℕ) × (count_tokens runtime s.text ≡ ok n) × (get_elem? counts (s.ordinal - 1) ≡ some n)

-- the counts of a segment and of those behind it
abbrev Counts :
    NotesRuntime → TranscriptSegment → List TranscriptSegment → Result ConfigError (List ℕ) → Type 0
Counts runtime s rest (err e) = Unit
Counts runtime s rest (ok counts) =
    (n : ℕ) × (later : List ℕ) × (count_tokens runtime s.text ≡ ok n)
    × (token_counts runtime rest ≡ ok later)
    × (counts ≡ n ∷ later)

token_counts-Counts :
    (runtime : NotesRuntime) (s : TranscriptSegment) (rest : List TranscriptSegment)
    → Counts runtime s rest (token_counts runtime (s ∷ rest))
unfolding token_counts
token_counts-Counts runtime s rest =
    and_then-cases (Counts runtime s rest) (count_tokens runtime s.text) _ (λ e. tt)
      (λ n p.
        and_then-cases (Counts runtime s rest) (token_counts runtime rest) _ (λ e. tt)
          (λ later q. (n, later, p, q, refl)))

-- from the segment number `suc k` on, where `later` is what `counts` has from place `k` on
token_counts-IsOwn_from :
    (runtime : NotesRuntime) (counts later : List ℕ) (k : ℕ) (segments : List TranscriptSegment)
    → ((i : ℕ) → get_elem? counts (k + i) ≡ get_elem? later i)
    → IsNumbered (k + 1) segments
    → token_counts runtime segments ≡ ok later
    → All (IsOwn runtime counts) segments
token_counts-IsOwn_from runtime counts later k [] at h e = tt
token_counts-IsOwn_from runtime counts later k (s ∷ rest) at h e =
    let (n, later', p, q, l) =
      subst (Counts runtime s rest) e (token_counts-Counts runtime s rest) in
    (
      (n, p, ap (get_elem? counts) (omega (arith, h.0)) ∙ at 0 ∙ ap (λ c. get_elem? c 0) l),
      token_counts-IsOwn_from runtime counts later' (k + 1) rest
          (λ i. ap (get_elem? counts) (omega arith) ∙ at (suc i) ∙ ap (λ c. get_elem? c (suc i)) l)
          h.1 q,
    )

-- what `prepare` has found out when it returns
abbrev pub IsPrepared : Platform → NotesConfig → Text → Result GenerateError Prepared → Type 0
IsPrepared platform config transcript (err e) = Unit
IsPrepared platform config transcript (ok (runtime, chunks, model)) =
    (segments : List TranscriptSegment) × (counts : List ℕ) × (load platform.from_file config
      ≡ ok runtime)
    × IsLoaded platform.from_file config (ok runtime)
    × (platform.provider ≡ ok model)
    × (parse_canonical_transcript transcript ≡ accepted segments)
    × All (IsOwn runtime counts) segments
    × (segments_of chunks ≡ segments)
    × IsPacked runtime.target_tokens runtime.overlap_segments (counted counts) [] chunks

as_segments-ok :
    (t : Transcript) (segments : List TranscriptSegment)
    → as_segments t ≡ ok segments
    → t ≡ accepted segments
unfolding as_segments
as_segments-ok (rejected line reason) segments e = absurd cc
as_segments-ok (accepted kept) segments e = cc

pub prepare-IsPrepared :
    (platform : Platform) (config : NotesConfig) (transcript : Text)
    → IsPrepared platform config transcript (prepare platform config transcript)
unfolding prepare
prepare-IsPrepared platform config transcript =
    let P = IsPrepared platform config transcript in
    and_then-cases P (map_err invalid_config (load platform.from_file config)) _ (λ e. tt)
      (λ runtime l.
        and_then-cases P (as_segments (parse_canonical_transcript transcript)) _ (λ e. tt)
          (λ segments p.
            and_then-cases P (map_err invalid_config (token_counts runtime segments)) _ (λ e. tt)
              (λ counts c.
                and_then-cases P (map_err no_provider platform.provider) _ (λ e. tt)
                  (λ model m.
                    let parsed = as_segments-ok _ segments p in
                    let loaded = map_err-ok invalid_config _ runtime l in
                    (
                      segments,
                      counts,
                      loaded,
                      subst (IsLoaded platform.from_file config) loaded
                          (load-IsLoaded platform.from_file config),
                      map_err-ok no_provider _ model m,
                      parsed,
                      token_counts-IsOwn_from runtime counts counts 0 segments
                          (λ i. ap (get_elem? counts) (omega arith))
                          (parse_canonical_transcript-IsNumbered transcript segments parsed)
                          (map_err-ok invalid_config _ counts c),
                      segments_of-pack_segments _ _ _ segments,
                      pack_segments-IsPacked _ _ _ segments,
                    )))))
