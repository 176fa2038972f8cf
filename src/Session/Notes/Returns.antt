-- ===== src/Session/Notes/Returns.antt =====
-- Notes are written where nothing but map requests fails.
use scrybe.Common.{
  All, ℕ, ◌≡◌, refl, sym, ap, ◌∙◌, Bool, true, false, Option, none, some, is_some, List, [], ◌∷◌,
  ◌++◌, if◌then◌else◌,
}
use mathlib.Core.Path.{subst, subst₂}
use scrybe.Common.Results.{Result, ok, err, map_err}
use scrybe.Common.Action
use scrybe.Common.Action.{
  gets, Action, pure, ◌>>=◌, Ensures, Ensures-bind, Ensures-pure, Ensures-if, Ensures-then, Outcome,
}
use scrybe.Errors.{CoreError, config, llm, storage, io}
use scrybe.Text.{Text, codes}
use scrybe.Types.{MeetingContext}
use scrybe.Notes.Transcript.{strip_prefix, split_once, behind}
use scrybe.Notes.Document.{accepted, parse_canonical_transcript}
use scrybe.Notes.Segments.{TranscriptSegment, SegmentChunk, pack_segments}
use scrybe.Notes.Prompts.{render_title_prompt}
use scrybe.Notes.Body.{render_transcript_header}
use scrybe.Notes.Title.{clean_generated_title}
use scrybe.Notes.MapReduce.{MapReduceOutput, map_chunks, map_reduce}
use scrybe.Notes.Generate.{counted, token_counts}
use scrybe.Notes.MapReduce.Returns.{IsTested, Answers, map_reduce-returns}
use scrybe.Notes.Runtime.{NotesRuntime, prompt_fits}
use scrybe.Session.Notes.{
  NotesEnv, NotesState, Writing, attempt, read_transcript, replace_transcript, replace_notes,
  ask_llm, lift, parsed_segments, run_with, run_map_reduce, map_transcript, check_title_request,
  cleaned, choose_title, retitle, notes_body, write_titled, write_notes,
}

-- the chunks of a transcript with these token counts
abbrev pub chunks_of : NotesRuntime → List TranscriptSegment → List ℕ → List SegmentChunk
chunks_of runtime segments counts =
    pack_segments runtime.target_tokens runtime.overlap_segments (counted counts) segments

-- what the outside grants, of the requests that a transcript with these segments leads to: storage
-- that works, a tokenizer that counts the prompt of each chunk, a reduction whose prompt is within the
-- cap and which the model answers, and a request for a title of the notes, within the cap, whose
-- answer makes one; the answers to the map requests may be failures
pub record Grants (env : NotesEnv) (runtime : NotesRuntime) (context : MeetingContext)
    (segments : List TranscriptSegment) (counts : List ℕ) : Type 0 where
  pub works : (disk : env.Disk) → (env.fails disk).1 ≡ false
  pub tested : All (IsTested (run_with env runtime context [])) (chunks_of runtime segments counts)
  pub reduces :
      (earlier : List Text)
      → let run = run_with env runtime context earlier in
        Answers run (map_chunks run (chunks_of runtime segments counts) ([], [], [])).0
  pub titles :
      (earlier : List Text) (output : MapReduceOutput)
      → let run = run_with env runtime context earlier in
        (map_reduce run (chunks_of runtime segments counts)).0 ≡ ok output
        → (prompt_fits runtime (render_title_prompt output.reduced_notes) ≡ ok true)
          × ((sent : List Text)
              → (raw : Text) × (title : Text) × (env.model sent
                    (render_title_prompt output.reduced_notes)
                  ≡ ok raw)
                × (clean_generated_title env.is_alphanumeric raw ≡ some title))

module _ (env : NotesEnv) (runtime : NotesRuntime) (context : MeetingContext)
    (segments : List TranscriptSegment) (counts : List ℕ)
    (grants : Grants env runtime context segments counts) where
  -- a request for a title of these notes is within the cap, and its answer makes one
  abbrev Titles : Text → Type 0
  Titles source =
      (prompt_fits runtime (render_title_prompt source) ≡ ok true)
      × ((sent : List Text)
          → (raw : Text) × (title : Text) × (env.model sent (render_title_prompt source) ≡ ok raw)
            × (clean_generated_title env.is_alphanumeric raw ≡ some title))

  -- the action returns a value of a kind, and no error
  abbrev Returns : {A : Type 0} → (A → Type 0) → Writing env A → Type 0
  Returns K = Ensures (λ _. ⊥) (λ a _. K a) (λ _. Unit {0})

  returns :
      {A : Type 0} (K : A → Type 0) (m : Writing env A)
      → ((s : NotesState env) → (a : A) × K a × ((m s).0 ≡ ok a))
      → Returns K m
  returns {A = A} K m h = record { at = λ s _. on (m s) (h s) }
    where
      on :
          (r : Result CoreError A × NotesState env)
          → (a : A) × K a × (r.0 ≡ ok a)
          → Outcome (λ _. ⊥) (λ a _. K a) r
      on (ok b, s) (a, k, e) = let same : a ≡ b = cc in subst K same k
      on (err f, s) (a, k, e) = absurd cc

  then-Returns :
      {A B : Type 0} (K : A → Type 0) (L : B → Type 0) (m : Writing env A) (f : A → Writing env B)
      → Returns K m
      → ((a : A) → K a → Returns L (f a))
      → Returns L (m >>= f)
  then-Returns K L m f h k = Ensures-bind m f h (λ a. record { at = λ s b. (k a b).at s tt })

  attempt-Returns : Returns (λ _. Unit) (attempt env)
  unfolding attempt
  attempt-Returns =
      returns _ _
        λ s. (tt, tt, ap (λ b. if b then err (storage io) else ok tt) (grants.works s.disk))

  replace_transcript-Returns : (text : Text) → Returns (λ _. Unit) (replace_transcript env text)
  unfolding replace_transcript
  replace_transcript-Returns text =
      then-Returns (λ _. Unit) (λ _. Unit) _ _ attempt-Returns
        (λ _ _. returns _ _ λ s. (tt, tt, refl))

  replace_notes-Returns : (text : Text) → Returns (λ _. Unit) (replace_notes env text)
  unfolding replace_notes
  replace_notes-Returns text =
      then-Returns (λ _. Unit) (λ _. Unit) _ _ attempt-Returns
        (λ _ _. returns _ _ λ s. (tt, tt, refl))

  lift-Returns :
      {A : Type 0} (r : Result CoreError A) (a : A) → r ≡ ok a → Returns (λ b. b ≡ a) (lift env r)
  unfolding lift
  lift-Returns r a e = returns _ _ λ s. (a, refl, e)

  run_map_reduce-Returns :
      Returns
        (λ output. Titles output.reduced_notes)
        (run_map_reduce env runtime context (chunks_of runtime segments counts))
  unfolding run_map_reduce
  run_map_reduce-Returns = returns _ _ λ s.
      let (output, e) =
        map_reduce-returns (run_with env runtime context s.sent) _ grants.tested
          (grants.reduces s.sent) in
      (output, grants.titles s.sent output e, e)

  map_transcript-Returns :
      (body : Text)
      → parse_canonical_transcript body ≡ accepted segments
      → token_counts runtime segments ≡ ok counts
      → Returns
          (λ r. (output : MapReduceOutput) × (r ≡ some output) × Titles output.reduced_notes)
          (map_transcript env (some runtime) context body)
  unfolding map_transcript parsed_segments
  map_transcript-Returns body p c =
      then-Returns (λ found. found ≡ segments) _ _ _
        (lift-Returns _ segments (ap parsed_segments p))
        λ found same.
          then-Returns (λ n. n ≡ counts) _ _ _
            (lift-Returns _ counts
              (ap (λ l. map_err config (token_counts runtime l)) same ∙ ap (map_err config) c))
            λ n equal.
              then-Returns (λ _. Unit) _ _ _ (returns _ _ λ s. (tt, tt, refl))
                λ _ _.
                  then-Returns (λ output. Titles output.reduced_notes) _ _ _
                    (subst₂
                      (λ l m.
                        Returns (λ output. Titles output.reduced_notes)
                          (run_map_reduce env runtime context (chunks_of runtime l m)))
                      (sym same) (sym equal) run_map_reduce-Returns)
                    λ output t. Ensures-pure (some output) (λ s k. (output, refl, t))

  check_title_request-Returns :
      (prompt : Text)
      → prompt_fits runtime prompt ≡ ok true
      → Returns (λ _. Unit) (check_title_request env (some runtime) prompt)
  unfolding check_title_request lift
  check_title_request-Returns prompt within =
      then-Returns (λ fits. fits ≡ true) (λ _. Unit) _ _
        (returns _ _ λ s. (true, refl, ap (map_err config) within))
        λ fits e. Ensures-then fits _ _ e (returns _ _ λ s. (tt, tt, refl))

  choose_title-Returns :
      (title : Option Text) (source : Text)
      → Titles source
      → Returns (λ _. Unit) (choose_title env (some runtime) title source)
  unfolding choose_title cleaned ask_llm
  choose_title-Returns (some existing) source t = returns _ _ λ s. (existing, tt, refl)
  choose_title-Returns none source t =
      then-Returns (λ _. Unit) _ _ _ (check_title_request-Returns _ t.0)
        λ _ _.
          then-Returns
            (λ raw. (title : Text) × (clean_generated_title env.is_alphanumeric raw ≡ some title)) _
            _ _
            (returns _ _
              λ s. let (raw, title, e, c) = t.1 s.sent in (raw, (title, c), ap (map_err llm) e))
            λ raw (title, c). returns _ _ λ s. (title, tt, ap (λ o. (cleaned env o s).0) c)

  retitle-Returns :
      (started_at : ℕ) (final_title body : Text)
      → Returns (λ _. Unit) (retitle env started_at final_title body)
  unfolding retitle
  retitle-Returns started_at final_title body =
      let header = render_transcript_header (some final_title) (env.format started_at) none in
      let text = header ++ behind (split_once (10 ∷ 10 ∷ []) body) in
      Ensures-if (is_some (strip_prefix (codes "# " ++ final_title ++ codes "\n") body)) _
        (replace_transcript env text >>= λ _. pure text) (λ _. Ensures-pure body (λ s k. tt))
        (λ _.
          then-Returns (λ _. Unit) (λ _. Unit) _ _ (replace_transcript-Returns text)
            (λ _ _. Ensures-pure text (λ s k. tt)))

  write_titled-Returns :
      (started_at : ℕ) (title : Option Text) (body : Text) (output : MapReduceOutput)
      → Titles output.reduced_notes
      → Returns
          (λ _. Unit)
          (write_titled env (some runtime) started_at title context body (some output))
  unfolding write_titled notes_body
  write_titled-Returns started_at title body output t =
      then-Returns (λ _. Unit) (λ _. Unit) _ _ (choose_title-Returns title _ t)
        λ final_title _.
          then-Returns (λ _. Unit) (λ _. Unit) _ _ (retitle-Returns started_at final_title body)
            λ document _.
              then-Returns (λ _. Unit) (λ _. Unit) _ _ (Ensures-pure _ (λ s k. tt))
                λ text _.
                  then-Returns (λ _. Unit) (λ _. Unit) _ _ (replace_notes-Returns text)
                    λ _ _. Ensures-pure final_title (λ s k. tt)

  mapped-Returns :
      (started_at : ℕ) (title : Option Text) (body : Text)
      → parse_canonical_transcript body ≡ accepted segments
      → token_counts runtime segments ≡ ok counts
      → Returns
          (λ _. Unit)
          (map_transcript env (some runtime) context body
            >>= write_titled env (some runtime) started_at title context body)
  mapped-Returns started_at title body p c =
      then-Returns
        (λ r. (output : MapReduceOutput) × (r ≡ some output) × Titles output.reduced_notes)
        (λ _. Unit) _ _ (map_transcript-Returns body p c)
        λ r (output, e, t).
          subst
            (λ o.
              Returns (λ _. Unit) (write_titled env (some runtime) started_at title context body o))
            (sym e) (write_titled-Returns started_at title body output t)

  read_transcript-reads :
      (body : Text)
      → Ensures (λ _. ⊥) (λ text _. text ≡ body) (λ s. s.transcript ≡ body) (read_transcript env)
  unfolding read_transcript attempt ◌>>=◌
  read_transcript-reads body = record {
    at = λ s e. on s e (env.fails s.disk).1 (grants.works s.disk);
  }
    where
      on :
          (s : NotesState env)
          → s.transcript ≡ body
          → (failed : Bool) → failed ≡ false
          → Outcome
              (λ _. ⊥)
              (λ text _. text ≡ body)
              (Action.continue
                (
                  (if failed then err (storage io) else ok tt),
                  record s { disk = (env.fails s.disk).0 },
                )
                (λ _. gets (λ s. s.transcript)))
      on s e true f = absurd cc
      on s e false f = e

  finished :
      (r : Result CoreError Text × NotesState env)
      → Outcome (λ _. ⊥) (λ _ _. Unit {0}) r
      → (final_title : Text) × (r.0 ≡ ok final_title)
  finished (ok final_title, s) h = (final_title, refl)
  finished (err e, s) h = absurd h

  -- The notes of a session are written, and the session ends with a title, provided that its
  -- transcript parses, the tokenizer counts its segments and the prompts of the chunks that are packed
  -- from them, the storage works, the reduction's prompt is within the cap and the model answers it,
  -- and so for the request for a title, with an answer that makes one. The prompts of chunks may be
  -- above the cap, and the answers to the map requests may all be failures.
  pub write_notes-returns :
      (started_at : ℕ) (title : Option Text) (s : NotesState env)
      → parse_canonical_transcript s.transcript ≡ accepted segments
      → token_counts runtime segments ≡ ok counts
      → (final_title : Text) × ((write_notes env (some runtime) started_at title context s).0
          ≡ ok final_title)
  unfolding write_notes
  write_notes-returns started_at title s p c =
      let run : Ensures (λ _. ⊥) (λ _ _. Unit {0}) (λ t. t.transcript ≡ s.transcript)
          (write_notes env (some runtime) started_at title context) =
        Ensures-bind _ _ (read_transcript-reads s.transcript) λ body. record {
          at = λ t e.
              (mapped-Returns started_at title body (ap parse_canonical_transcript e ∙ p) c).at t
                tt;
        } in
      finished _ (run.at s refl)
