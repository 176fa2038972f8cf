-- ===== src/Notes/Generate/Fits.antt =====
-- No request of a run that generates notes is above the configured cap.
use scrybe.Common.{
  ℕ, ◌≤◌, ◌≡◌, refl, ap, ◌∙◌, inl, inr, Bool, true, Bool-cases, Option, some, List, All, All-mono,
  leb, ltb, arith,
}
use mathlib.Core.Path.{subst}
use scrybe.Common.Words.{u32_mod}
use scrybe.Common.Results.{Result, ok, err, map_err, and_then-cases, map_err-ok}
use scrybe.Errors.{ConfigError, CoreError, invalid}
use scrybe.Text.{Text}
use scrybe.Notes.MapReduce.{MapReduceOutput, map_reduce}
use scrybe.Notes.MapReduce.Cap.{PromptFits, map_reduce-fits}
use scrybe.Notes.Runtime.{
  NotesConfig, NotesRuntime, Tokenizer, load, count_tokens, to_u32, prompt_fits,
}
use scrybe.Notes.Runtime.Loaded.{IsLoaded, load-IsLoaded}
use scrybe.Notes.Generate.{
  Platform, GenerateError, Prepared, transcript_title, run_of, noted, requested_notes, generate,
}
use scrybe.Notes.Generate.Prepared.{IsPrepared, prepare-IsPrepared}

-- a prompt whose tokens, by the tokenizer that the configuration names, are within its cap
abbrev pub IsWithin : Platform → NotesConfig → Text → Type 0
IsWithin platform config prompt =
    (path : Text) × (tokenizer : Tokenizer) × (cap : ℕ) × (n : ℕ) × (config.tokenizer_path
      ≡ some path)
    × (platform.from_file path ≡ ok tokenizer)
    × (config.input_cap_tokens ≡ some cap)
    × (tokenizer prompt ≡ ok n)
    × (n ≤ cap)

-- what the test finds out
abbrev Counted : NotesRuntime → Text → Result ConfigError Bool → Type 0
Counted runtime prompt (err e) = Unit
Counted runtime prompt (ok fits) =
    (n : ℕ) × (runtime.tokenizer prompt ≡ ok n) × (leb n runtime.input_cap_tokens ≡ fits)

to_u32-ok : (n m : ℕ) → to_u32 n ≡ ok m → n ≡ m
unfolding to_u32
to_u32-ok n m h = elim (Bool-cases (ltb n u32_mod)) [
  | inl e ↦ cc (rw e at h)
  | inr e ↦ absurd (cc (rw e at h))
]

count_tokens-ok :
    (runtime : NotesRuntime) (text : Text) (n : ℕ)
    → count_tokens runtime text ≡ ok n
    → runtime.tokenizer text ≡ ok n
unfolding count_tokens
count_tokens-ok runtime text n =
    and_then-cases (λ r. r ≡ ok n → runtime.tokenizer text ≡ ok n)
      (map_err (invalid "notes.tokenizer_path") (runtime.tokenizer text)) to_u32 (λ e h. absurd cc)
      (λ m t h. map_err-ok _ _ m t ∙ ap ok (to_u32-ok m n h))

prompt_fits-Counted :
    (runtime : NotesRuntime) (prompt : Text) → Counted runtime prompt (prompt_fits runtime prompt)
unfolding prompt_fits
prompt_fits-Counted runtime prompt =
    and_then-cases (Counted runtime prompt) (count_tokens runtime prompt) _ (λ e. tt)
      (λ n c. (n, count_tokens-ok runtime prompt n c, refl))

module _ (platform : Platform) (config : NotesConfig) (transcript : Text)
    (requested : Option ℕ) where
  prompt_fits-IsWithin :
      (runtime : NotesRuntime) (prompt : Text)
      → load platform.from_file config ≡ ok runtime
      → prompt_fits runtime prompt ≡ ok true
      → IsWithin platform config prompt
  prompt_fits-IsWithin runtime prompt l fits =
      let (path, p, t, c, _, _, _, _) =
        subst (IsLoaded platform.from_file config) l (load-IsLoaded platform.from_file config) in
      let (n, counted, within) =
        subst (Counted runtime prompt) fits (prompt_fits-Counted runtime prompt) in
      (path, runtime.tokenizer, runtime.input_cap_tokens, n, p, t, c, counted, ground arith)

  noted-sent :
      (answer : Result CoreError MapReduceOutput) (sent : List Text)
      → All (IsWithin platform config) sent
      → All (IsWithin platform config) (noted platform transcript requested (answer, sent)).1
  unfolding noted
  noted-sent (err e) sent h = h
  noted-sent (ok output) sent h = h

  requested_notes-fits :
      (r : Result GenerateError Prepared)
      → IsPrepared platform config transcript r
      → All (IsWithin platform config) (requested_notes platform transcript requested r).1
  unfolding requested_notes
  requested_notes-fits (err e) h = tt
  requested_notes-fits (ok (runtime, chunks, model)) (segments, counts, l, _, _, _, _, _, _) =
      let run = run_of (transcript_title transcript) runtime model in
      noted-sent (map_reduce run chunks).0 (map_reduce run chunks).1 (
        All-mono (PromptFits run) (IsWithin platform config)
          (λ prompt. prompt_fits-IsWithin runtime prompt l) (map_reduce run chunks).1
          (map_reduce-fits run chunks))

  -- Whatever a run does, also one that fails: every prompt that it has sent to the model has no more
  -- tokens, counted whole by the tokenizer that the configuration names, than its input cap.
  pub generate-fits :
      All (IsWithin platform config) (generate platform config transcript requested).1
  unfolding generate
  generate-fits = requested_notes-fits _ (prepare-IsPrepared platform config transcript)
