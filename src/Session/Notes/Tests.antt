-- ===== src/Session/Notes/Tests.antt =====
-- The theorems about the notes of a session, at a transcript of one line and at a session that hears two
-- frames.
use scrybe.Common.{
  ℕ, ◌+◌, ◌==◌, ◌≡◌, refl, false, ◌&&◌, none, some, [], ◌∷◌, ◌++◌, leb, length, arith,
}
use scrybe.Common.Results.{ok}
use scrybe.Common.Action.{Outcome}
use scrybe.Text.{Text, codes, trim, trim_start, is_whitespace}
use scrybe.Types.{mic, AttributedChunk, MeetingContext}
use scrybe.Notes.Document.{accepted, parse_canonical_transcript}
use scrybe.Notes.Document.Parsed.{IsRenderable, rendered, segments_from}
use scrybe.Notes.Body.{render_transcript_header}
use scrybe.Notes.Runtime.{NotesRuntime}
use scrybe.Common.{if◌then◌else◌, List}
use scrybe.Common.Results.{Result, err}
use scrybe.Errors.{LlmError, CoreError, transport}
use scrybe.Common.{ap, true}
use scrybe.Text.{trim, trim_start, is_whitespace}
use scrybe.Notes.Runtime.{count_tokens, prompt_fits, to_u32}
use scrybe.Notes.Prompts.{render_map_prompt, render_reduce_prompt, render_title_prompt}
use scrybe.Notes.MapReduce.{
  MapReduceOutput, map_chunks, map_chunk, map_reduce, capped_reduce_prompt,
}
use scrybe.Notes.Segments.{pack_segments}
use scrybe.Notes.Generate.{counted, token_counts}
use mathlib.Core.Path.{subst}
use scrybe.Notes.Title.{
  clean_generated_title, first_line, clean_line, trim_matches, drop_while, is_decoration,
  split_whitespace, join_spaced, any_of,
}
use scrybe.Notes.Document.{doc_lines}
use scrybe.Notes.Document.Whole.{parse_canonical_transcript-render_transcript_header}
use scrybe.Session.Notes.Returns.{Grants, write_notes-returns}
use scrybe.Session.Samples.{said, batch, frames, inputs, unstarted}
use scrybe.Session.Persist.{attributed}
use scrybe.Session.Heard.{told, hook_text}
use scrybe.Session.Opening.{drive}
use scrybe.Session.Notes.{NotesEnv, NotesState, write_notes}
use scrybe.Session.Notes.Titled.{IsOf, write_notes-parse_canonical_transcript}
use scrybe.Session.Notes.Captured.{handed_over, drive-write_notes}

-- a disk that fails at its third operation, and a model that has one answer
abbrev notes_env : NotesEnv
notes_env = record {
  Disk = ℕ;
  fails = λ n. (n + 1, n == 2);
  model = λ sent prompt. ok (codes "# weekly sync");
  format = λ instant. codes "2026-09-11 21:50";
  is_alphanumeric = λ c. leb 97 c && leb c 122;
}

abbrev runtime : NotesRuntime
runtime = record {
  tokenizer = λ text. ok (length text);
  input_cap_tokens = 1000;
  target_tokens = 100;
  overlap_segments = 1;
}

abbrev no_context : MeetingContext
no_context = record { title = none; attendees = []; agenda = none; language = none }

abbrev chunk : AttributedChunk
chunk = attributed (said mic)

abbrev untitled : Text
untitled = render_transcript_header none (codes "2026-09-11 21:50") none

abbrev captured : NotesState notes_env
captured = record {
  disk = 0;
  transcript = untitled ++ rendered (chunk ∷ []);
  notes = none;
  sent = [];
  told = [];
}

chunk-IsRenderable : IsRenderable chunk
unfolding trim trim_start is_whitespace
chunk-IsRenderable = ground arith

write_notes-parse_canonical_transcript_example :
    parse_canonical_transcript
      (write_notes notes_env (some runtime) 0 none no_context captured).1.transcript
    ≡ accepted (segments_from 1 (chunk ∷ []))
write_notes-parse_canonical_transcript_example =
    write_notes-parse_canonical_transcript notes_env (some runtime) 0 none no_context (chunk ∷ [])
      captured (ground arith) (ground arith) (chunk-IsRenderable, tt) refl

drive-write_notes_example :
    Outcome
      (λ _. Unit)
      (λ _ s'.
        IsOf
          (codes "2026-09-11 21:50")
          (told hook_text s'.notices)
          (write_notes notes_env
            (some runtime)
            0
            (some (115 ∷ 121 ∷ []))
            no_context
            (handed_over batch notes_env captured s')).1.transcript)
      (drive batch notes_env.format (inputs none false) frames (unstarted none false))
drive-write_notes_example =
    drive-write_notes batch notes_env (inputs none false) (some runtime) no_context frames
      (unstarted none false) captured
      (record { empty = refl; no_log = refl; no_hooks = refl; no_observers = refl }) (ground arith)
      (ground arith)

-- a model that fails every map request, which begins with an E
abbrev only_reduces : List Text → Text → Result LlmError Text
only_reduces sent [] = err transport
only_reduces sent (c ∷ prompt) = if c == 69 then err transport else ok (codes "weekly sync")

abbrev working : NotesEnv
working = record notes_env { fails = λ n. (n + 1, false); model = only_reduces }

-- a cap of 5000 characters
abbrev capped : NotesRuntime
capped = record runtime { input_cap_tokens = 5000 }

abbrev ready : NotesState working
ready = record {
  disk = 0;
  transcript = untitled ++ rendered (chunk ∷ []);
  notes = none;
  sent = [];
  told = [];
}

abbrev ready_counts : List ℕ
ready_counts = length chunk.chunk.text ∷ []

working-Grants : Grants working capped no_context (segments_from 1 (chunk ∷ [])) ready_counts
unfolding prompt_fits count_tokens to_u32 render_reduce_prompt render_title_prompt render_map_prompt
    clean_generated_title first_line doc_lines trim trim_start is_whitespace clean_line trim_matches
    drop_while is_decoration split_whitespace join_spaced any_of map_chunks map_chunk map_reduce
    pack_segments counted capped_reduce_prompt scrybe.Notes.Segments.pack_from
    scrybe.Notes.Prompts.render_segments scrybe.Notes.Transcript.show_from
    scrybe.Notes.Transcript.format_hms_ms scrybe.Notes.Transcript.two_digits
    scrybe.Notes.Prompts.render_groups scrybe.Notes.Prompts.render_gap_notes
working-Grants = record {
  works = λ disk. refl;
  tested = ((true, refl), tt);
  reduces = λ earlier. (refl, (codes "weekly sync", refl));
  titles = λ earlier output e. on output (ap reduced e);
}
  where
    reduced : Result CoreError MapReduceOutput → Text
    reduced (ok output) = output.reduced_notes
    reduced (err e) = []

    on :
        (output : MapReduceOutput)
        → codes "weekly sync" ≡ output.reduced_notes
        → (prompt_fits capped (render_title_prompt output.reduced_notes) ≡ ok true)
          × ((sent : List Text)
              → (raw : Text) × (title : Text) × (working.model sent
                    (render_title_prompt output.reduced_notes)
                  ≡ ok raw)
                × (clean_generated_title working.is_alphanumeric raw ≡ some title))
    on output e =
        subst
          (λ notes.
            (prompt_fits capped (render_title_prompt notes) ≡ ok true)
            × ((sent : List Text)
                → (raw : Text) × (title : Text) × (working.model sent (render_title_prompt notes)
                    ≡ ok raw)
                  × (clean_generated_title working.is_alphanumeric raw ≡ some title)))
          e (refl, λ sent. (codes "weekly sync", codes "weekly sync", refl, refl))

write_notes-returns_example :
    (final_title : Text) × ((write_notes working (some capped) 0 none no_context ready).0
      ≡ ok final_title)
unfolding token_counts count_tokens to_u32 trim
write_notes-returns_example =
    write_notes-returns working capped no_context (segments_from 1 (chunk ∷ [])) ready_counts
      working-Grants 0 none ready
      (parse_canonical_transcript-render_transcript_header none (codes "2026-09-11 21:50") none
        (chunk ∷ []) (ground arith) (ground arith) (chunk-IsRenderable, tt))
      refl
