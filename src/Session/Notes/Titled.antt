-- ===== src/Session/Notes/Titled.antt =====
-- The transcript outlives the writing of the notes.
use scrybe.Common.{
  ℕ, ◌≡◌, ◌≢◌, ap, ◌∙◌, inl, inr, Option, none, some, List, [], ◌∷◌, ◌++◌, All, All-append,
  All-mono, arith, is_some,
}
use scrybe.Common.Results.{Result, ok, err}
use scrybe.Common.Action.{pure, ◌>>=◌, Ensures-pure, Ensures-if, Ensures-raise, Outcome, Keeps}
use scrybe.Common.Throughout.{Throughout, Throughout-bind, Throughout-Keeps}
use scrybe.Errors.{CoreError}
use scrybe.Text.{Text, codes, is_whitespace}
use scrybe.Types.{AttributedChunk, MeetingContext}
use scrybe.Notes.Transcript.{split_once, behind, strip_prefix}
use scrybe.Notes.Transcript.Split.{behind-line, behind-newline, behind-blank}
use scrybe.Notes.Document.{accepted, parse_canonical_transcript}
use scrybe.Notes.Document.Parsed.{IsPlain, IsRenderable, rendered, segments_from}
use scrybe.Notes.Document.Whole.{
  starred, render_transcript_header-lines, parse_canonical_transcript-render_transcript_header,
}
use scrybe.Notes.Body.{titled, render_transcript_header}
use scrybe.Notes.Title.Clean.{IsSpaced, IsTitle, clean_generated_title-IsTitle}
use scrybe.Session.Notes.Quiet.{
  files, attempt-Keeps, ask_llm-Keeps, map_transcript-Keeps, check_title_request-Keeps,
  notes_body-Keeps,
}
use scrybe.Session.Notes.{write_titled}
use scrybe.Session.Notes.{
  NotesEnv, NotesState, Writing, read_transcript, replace_transcript, replace_notes, cleaned,
  choose_title, retitle, write_notes,
}
use scrybe.Notes.Runtime.{NotesRuntime}

-- a transcript with some title, these dates and these lines
abbrev pub IsOf : Text → List AttributedChunk → Text → Type 0
IsOf started chunks text =
    (title : Option Text) × All IsPlain (titled title)
    × (text ≡ render_transcript_header title started none ++ rendered chunks)

spaced-IsPlain : (c : ℕ) → IsSpaced c → IsPlain c
unfolding is_whitespace
spaced-IsPlain c (inl h) = (λ e. ground (arith, e), λ e. ground (arith, e))
spaced-IsPlain c (inr h) = (λ e. omega (arith, h), λ e. omega (arith, h))

not_newline : (text : Text) → All IsPlain text → All (λ c. c ≢ 10) text
not_newline = All-mono IsPlain (λ c. c ≢ 10) (λ c h. h.0)

-- behind the header of a transcript stand its lines
behind-header :
    (title : Option Text) (started lines : Text)
    → All IsPlain (titled title)
    → All IsPlain started
    → behind (split_once (10 ∷ 10 ∷ []) (render_transcript_header title started none ++ lines))
      ≡ lines
behind-header title started lines t d =
    ap (λ l. behind (split_once (10 ∷ 10 ∷ []) l))
      (render_transcript_header-lines title started none lines)
    ∙ behind-line (35 ∷ 32 ∷ titled title) _ (λ e. omega arith, (λ e. omega arith, not_newline _ t))
    ∙ behind-newline 42 _ (λ e. omega arith)
    ∙ behind-line (starred started) (10 ∷ 10 ∷ lines) (
      λ e. omega arith,
      All-append (λ c. c ≢ 10) started (42 ∷ []) (not_newline _ d) (λ e. omega arith, tt),
    )
    ∙ behind-blank lines

module _ (env : NotesEnv) where
  -- the transcript of a state, as it is seen of its files
  abbrev Seen : (Text → Type 0) → Text × Option Text → Type 0
  Seen P seen = P seen.0

  module _ (started_at : ℕ) (chunks : List AttributedChunk)
      (dates_plain : All IsPlain (env.format started_at)) where
    abbrev IsKept : Text → Type 0
    IsKept = IsOf (env.format started_at) chunks

    abbrev Kept : NotesState env → Type 0
    Kept s = IsKept s.transcript

    -- whatever comes of it, the transcript is one of these chunks; and a result is of a kind
    abbrev Leaves : {A : Type 0} → (A → Type 0) → Writing env A → Type 0
    Leaves = Throughout Kept

    still : {A : Type 0} (m : Writing env A) → Keeps (files env) m → Leaves (λ _. Unit) m
    still m l = Throughout-Keeps (Seen IsKept) m l

    read_transcript-Leaves : Leaves IsKept (read_transcript env)
    unfolding read_transcript
    read_transcript-Leaves =
        Throughout-bind Kept (λ _. Unit) IsKept _ _ (still _ (attempt-Keeps env))
          (λ _ _. record { at = λ s h. (h, h) })

    cleaned-Leaves :
        (title : Option Text)
        → IsTitle env.is_alphanumeric title
        → Leaves (All IsPlain) (cleaned env title)
    unfolding cleaned
    cleaned-Leaves none h = Ensures-raise _ (λ s k. k)
    cleaned-Leaves (some title) h =
        Ensures-pure title (λ s k. (All-mono IsSpaced IsPlain spaced-IsPlain title h.1, k))

    choose_title-Leaves :
        (runtime : Option NotesRuntime) (title : Option Text) (source : Text)
        → All IsPlain (titled title)
        → Leaves (All IsPlain) (choose_title env runtime title source)
    unfolding choose_title
    choose_title-Leaves runtime (some existing) source h = Ensures-pure existing (λ s k. (h, k))
    choose_title-Leaves runtime none source h =
        Throughout-bind Kept (λ _. Unit) _ _ _ (still _ (check_title_request-Keeps env runtime _))
          λ _ _.
            Throughout-bind Kept (λ _. Unit) _ _ _ (still _ (ask_llm-Keeps env _))
              λ raw _. cleaned-Leaves _ (clean_generated_title-IsTitle env.is_alphanumeric raw)

    replace_notes-Leaves : (text : Text) → Leaves (λ _. Unit) (replace_notes env text)
    unfolding replace_notes
    replace_notes-Leaves text =
        Throughout-bind Kept (λ _. Unit) (λ _. Unit) _ _ (still _ (attempt-Keeps env))
          (λ _ _. record { at = λ s h. (tt, h) })

    replace_transcript-Leaves :
        (text : Text) → IsKept text → Leaves (λ _. Unit) (replace_transcript env text)
    unfolding replace_transcript
    replace_transcript-Leaves text k =
        Throughout-bind Kept (λ _. Unit) (λ _. Unit) _ _ (still _ (attempt-Keeps env))
          (λ _ _. record { at = λ s h. (tt, k) })

    retitle-Leaves :
        (final_title body : Text)
        → All IsPlain final_title
        → IsKept body
        → Leaves (λ _. Unit) (retitle env started_at final_title body)
    unfolding retitle
    retitle-Leaves final_title body t (title, plain, e) =
        let lines : behind (split_once (10 ∷ 10 ∷ []) body) ≡ rendered chunks =
          ap (λ l. behind (split_once (10 ∷ 10 ∷ []) l)) e
          ∙ behind-header title (env.format started_at) (rendered chunks) plain dates_plain in
        let header = render_transcript_header (some final_title) (env.format started_at) none in
        let updated = ap (λ l. header ++ l) lines in
        let text = header ++ behind (split_once (10 ∷ 10 ∷ []) body) in
        Ensures-if (is_some (strip_prefix (codes "# " ++ final_title ++ codes "\n") body)) _
          (replace_transcript env text >>= λ _. pure text) (λ _. Ensures-pure body (λ s h. (tt, h)))
          (λ _.
            Throughout-bind Kept (λ _. Unit) (λ _. Unit) _ _
              (replace_transcript-Leaves text (some final_title, t, updated))
              (λ _ _. Ensures-pure text (λ s h. (tt, h))))

    write_notes-Leaves :
        (runtime : Option NotesRuntime) (title : Option Text) (context : MeetingContext)
        → All IsPlain (titled title)
        → Leaves (λ _. Unit) (write_notes env runtime started_at title context)
    unfolding write_notes write_titled
    write_notes-Leaves runtime title context h =
        Throughout-bind Kept IsKept _ _ _ read_transcript-Leaves λ body kept.
          Throughout-bind Kept (λ _. Unit) _ _ _
            (still _ (map_transcript-Keeps env runtime context body))
            λ output _.
              Throughout-bind Kept (All IsPlain) _ _ _ (choose_title-Leaves runtime title _ h)
                λ final_title t.
                  Throughout-bind Kept (λ _. Unit) _ _ _ (retitle-Leaves final_title body t kept)
                    λ document _.
                      Throughout-bind Kept (λ _. Unit) _ _ _
                        (still _
                          (notes_body-Keeps env started_at final_title context document output))
                        λ text _.
                          Throughout-bind Kept (λ _. Unit) _ _ _ (replace_notes-Leaves text)
                            λ _ _. Ensures-pure final_title (λ s k. (tt, k))

  -- the transcript is a header with some title, and these chunks
  pub write_notes-IsOf :
      (runtime : Option NotesRuntime) (started_at : ℕ) (title : Option Text)
      (context : MeetingContext) (chunks : List AttributedChunk) (s : NotesState env)
      → All IsPlain (titled title)
      → All IsPlain (env.format started_at)
      → s.transcript
        ≡ render_transcript_header title (env.format started_at) none ++ rendered chunks
      → IsOf
          (env.format started_at)
          chunks
          (write_notes env runtime started_at title context s).1.transcript
  write_notes-IsOf runtime started_at title context chunks s t d e =
      on (write_notes env runtime started_at title context s)
        ((write_notes-Leaves started_at chunks d runtime title context t).at s (title, t, e))
    where
      on :
          (r : Result CoreError Text × NotesState env)
          → Outcome (Kept started_at chunks d) (λ a s. Unit × Kept started_at chunks d s) r
          → IsOf (env.format started_at) chunks r.1.transcript
      on (ok a, s') o = o.1
      on (err e', s') o = o

  -- Whatever fails while the notes are written, the storage, the tokenizer or the model, and
  -- whatever the model answers: the transcript of a session, whose title and start have no line
  -- break and whose chunks' texts are one line each, is parsed afterwards into the segments that it
  -- was written from; the title that the model makes up changes its header only.
  pub write_notes-parse_canonical_transcript :
      (runtime : Option NotesRuntime) (started_at : ℕ) (title : Option Text)
      (context : MeetingContext) (chunks : List AttributedChunk) (s : NotesState env)
      → All IsPlain (titled title)
      → All IsPlain (env.format started_at)
      → All IsRenderable chunks
      → s.transcript
        ≡ render_transcript_header title (env.format started_at) none ++ rendered chunks
      → parse_canonical_transcript (write_notes env runtime started_at title context s).1.transcript
        ≡ accepted (segments_from 1 chunks)
  write_notes-parse_canonical_transcript runtime started_at title context chunks s t d h e =
      let (shown, plain, is) = write_notes-IsOf runtime started_at title context chunks s t d e in
      ap parse_canonical_transcript is
      ∙ parse_canonical_transcript-render_transcript_header shown (env.format started_at) none
          chunks plain d h
