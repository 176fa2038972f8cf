-- ===== src/Notes/Runtime.antt =====
-- scrybe-core/src/notes_map_reduce.rs: `NotesRuntime`, the loaded tokenizer and the limits of a
-- request. The tokenizer is the tokenizers crate's: it gives the number of a text's tokens, or what
-- is wrong with the text. The reason of an unknown template is without the names that it quotes.
pub mod Loaded
use Prim.Native.String.{String}
use scrybe.Common.{ℕ, Bool, Option, none, ltb, leb, if◌then◌else◌}
use scrybe.Common.Words.{u32_mod}
use scrybe.Common.Results.{Result, ok, err, and_then, map_err, ok_or}
use scrybe.Errors.{ConfigError, missing, invalid}
use scrybe.Text.{Text, codes, text_eq}
use scrybe.Notes.MapReduce.{validate_limits}

-- scrybe-core/src/config.rs: the block `[notes]`
pub record NotesConfig : Type 0 where
  pub template : Text
  pub tokenizer_path : Option Text
  pub input_cap_tokens : Option ℕ
  pub target_tokens : ℕ
  pub overlap_segments : ℕ

abbrev default_notes_config : NotesConfig
default_notes_config = record {
  template = codes "default";
  tokenizer_path = none;
  input_cap_tokens = none;
  target_tokens = 4000;
  overlap_segments = 2;
}

abbrev pub Tokenizer : Type 0
Tokenizer = Text → Result String ℕ

pub record NotesRuntime : Type 0 where
  pub tokenizer : Tokenizer
  pub input_cap_tokens : ℕ
  pub target_tokens : ℕ
  pub overlap_segments : ℕ

-- scrybe-core/src/notes.rs
unfoldable pub validate_template : Text → Result ConfigError Unit
validate_template name =
    if text_eq name (codes "default")
    then ok tt
    else err (invalid "notes.template" "unknown template")

-- `Tokenizer::from_file` is the parameter
unfoldable pub load_tokenizer :
    (Text → Result String Tokenizer) → Text → Result ConfigError Tokenizer
load_tokenizer from_file path = map_err (invalid "notes.tokenizer_path") (from_file path)

unfoldable pub load :
    (Text → Result String Tokenizer) → NotesConfig → Result ConfigError NotesRuntime
load from_file config =
    and_then (ok_or (missing "notes.tokenizer_path") config.tokenizer_path) (λ path.
      and_then (ok_or (missing "notes.input_cap_tokens") config.input_cap_tokens) (λ cap.
        and_then (validate_template config.template) (λ _.
          and_then (validate_limits config.target_tokens cap) (λ _.
            and_then (load_tokenizer from_file path) (λ tokenizer. ok (record {
              tokenizer = tokenizer;
              input_cap_tokens = cap;
              target_tokens = config.target_tokens;
              overlap_segments = config.overlap_segments;
            }))))))

-- `u32::try_from`
unfoldable pub to_u32 : ℕ → Result ConfigError ℕ
to_u32 n =
    if ltb n u32_mod then ok n else err (invalid "notes.tokenizer_path" "token count exceeds u32")

unfoldable pub count_tokens : NotesRuntime → Text → Result ConfigError ℕ
unfolding to_u32
count_tokens runtime text =
    and_then (map_err (invalid "notes.tokenizer_path") (runtime.tokenizer text)) to_u32

unfoldable pub prompt_fits : NotesRuntime → Text → Result ConfigError Bool
prompt_fits runtime prompt =
    and_then (count_tokens runtime prompt) (λ n. ok (leb n runtime.input_cap_tokens))
