-- ===== src/Notes/Runtime/Loaded.antt =====
-- What `NotesRuntime::load` has made sure of when it returns.
use Prim.Native.String.{String}
use scrybe.Common.{ℕ, ◌≤◌, ◌<◌, ◌≡◌, refl, some, arith}
use scrybe.Common.Results.{Result, ok, err, ok_or, and_then-cases, map_err-ok, ok_or-ok}
use scrybe.Errors.{ConfigError, missing}
use scrybe.Text.{Text}
use scrybe.Notes.MapReduce.{validate_limits}
use scrybe.Notes.Runtime.{
  NotesConfig, NotesRuntime, Tokenizer, load, load_tokenizer, validate_template,
}

-- the runtime is what the configuration names, whose limits are in order
abbrev pub IsLoaded :
    (Text → Result String Tokenizer) → NotesConfig → Result ConfigError NotesRuntime → Type 0
IsLoaded from_file config (err e) = Unit
IsLoaded from_file config (ok runtime) =
    (path : Text) × (config.tokenizer_path ≡ some path)
    × (from_file path ≡ ok runtime.tokenizer)
    × (config.input_cap_tokens ≡ some runtime.input_cap_tokens)
    × (runtime.target_tokens ≡ config.target_tokens)
    × (runtime.overlap_segments ≡ config.overlap_segments)
    × (0 < config.target_tokens)
    × (config.target_tokens ≤ runtime.input_cap_tokens)

validate_limits-ok :
    (target cap : ℕ) (u : Unit) → validate_limits target cap ≡ ok u → (0 < target) × (target ≤ cap)
unfolding validate_limits
validate_limits-ok target cap u h = ground arith

pub load-IsLoaded :
    (from_file : Text → Result String Tokenizer) (config : NotesConfig)
    → IsLoaded from_file config (load from_file config)
unfolding load load_tokenizer
load-IsLoaded from_file config =
    let P = IsLoaded from_file config in
    and_then-cases P (ok_or (missing "notes.tokenizer_path") config.tokenizer_path) _ (λ e. tt)
      (λ path p.
        and_then-cases P (ok_or (missing "notes.input_cap_tokens") config.input_cap_tokens) _
          (λ e. tt)
          (λ cap c.
            and_then-cases P (validate_template config.template) _ (λ e. tt)
              (λ _ _.
                and_then-cases P (validate_limits config.target_tokens cap) _ (λ e. tt)
                  (λ _ limits.
                    and_then-cases P (load_tokenizer from_file path) _ (λ e. tt)
                      (λ tokenizer t. (
                        path,
                        ok_or-ok _ _ path p,
                        map_err-ok _ _ tokenizer t,
                        ok_or-ok _ _ cap c,
                        refl,
                        refl,
                        (validate_limits-ok config.target_tokens cap _ limits).0,
                        (validate_limits-ok config.target_tokens cap _ limits).1,
                      ))))))
