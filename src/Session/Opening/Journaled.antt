-- ===== src/Session/Opening/Journaled.antt =====
-- From the frames of the stream through the journals to what the merge reads.
pub mod Channels
use scrybe.Common.{
  ℕ, suc, ◌+◌, ◌≤◌, ◌<◌, ◌≡◌, refl, sym, ap, ◌∙◌, Bool, true, false, some, List, [], ◌∷◌, ◌++◌,
  length, length-append, arith, if◌then◌else◌,
}
use mathlib.Core.Path.{subst}
use mathlib.Core.List.{append-nil, append_assoc}
use scrybe.Common.Words.{u32_mod}
use scrybe.Common.Action.{
  Result, Outcome, Outcome-both, Ensures, Ensures-bind, Ensures-mono, Keeps-if, Keeps-pure,
  Keeps-bind, Keeps-raise,
}
use scrybe.Errors.{CaptureError, CoreError}
use scrybe.Text.{Text}
use scrybe.Types.{AudioFrame, FrameSource, mic, system, mixed}
use scrybe.Pipeline.Merge.{read_segments}
use scrybe.Pipeline.Merge.Segments.{concat}
use scrybe.Pipeline.Journal
use scrybe.Pipeline.Journal.{JournalMsg, finish, JournalSummary, Disk, Writer, idle, run_writer}
use scrybe.Pipeline.Journal.Holding.{sent}
use scrybe.Pipeline.Journal.ReadBack.{
  ReadsBack, Fits, Fits-append, ReadsFirst, run_writer-ReadsBack,
}
use scrybe.Session.State.{Env, SessionState}
use scrybe.Session.Fed.{nothing, fed, Unfed, ask-Unfed, unfed_rules}
use scrybe.Session.Journals.Fed.{channel, give}
use scrybe.Session.Drive.Fed.{captured, give_all, GaveSome, fed-stays, run_capture-gives}
use scrybe.Session.Opening.{DriveInputs, announce, begun, open_wal, begin, drive}
use scrybe.Session.Opening.Journaled.Channels.{
  same_channel, samples_of, finished, sent-finished, length-finished, concat-give_all,
  samples_of-append, length-give_all, channel-nothing, drive-gives,
}

-- the first of some samples can be read from what a writer has committed
pub record ReadsPart (disk : Disk) (whole : List ℕ) (w : Writer disk) : Type 0 where
  pub steps : ℕ
  pub kept : List ℕ
  pub lost : List ℕ
  pub samples : read_segments w.segment steps ≡ some kept
  pub first : kept ++ lost ≡ whole

module _ (env : Env) (source : FrameSource) (disk : Disk) (sample_rate channels : ℕ) where
  -- the run of a channel's writer on what the session gave it
  abbrev pub journaled :
      SessionState env → disk.World → Result CoreError JournalSummary × Writer disk
  journaled t world =
      run_writer disk source sample_rate channels (finished (channel source (fed env t)))
        (idle disk world)

  abbrev pub ReadsAll : List ℕ → JournalSummary → Writer disk → Type 0
  ReadsAll whole summary w = read_segments w.segment (suc summary.segment_count) ≡ some whole

  sent-given :
      (frames : List AudioFrame) (t : SessionState env)
      → fed env t ≡ give_all frames nothing
      → sent (finished (channel source (fed env t))) ≡ samples_of source frames
  sent-given frames t e =
      sent-finished (channel source (fed env t))
      ∙ ap (λ g. concat (channel source g)) e
      ∙ concat-give_all source frames nothing
      ∙ ap (λ l. concat l ++ samples_of source frames) (channel-nothing source)

  few-given :
      (frames : List AudioFrame) (t : SessionState env)
      → fed env t ≡ give_all frames nothing
      → length frames + 2 < u32_mod
      → suc (length (finished (channel source (fed env t)))) < u32_mod
  few-given frames t e few = omega (
    arith,
    length-finished (channel source (fed env t)),
    ap (λ g. length (channel source g)) e,
    length-give_all source frames nothing,
    ap (λ l. length l) (channel-nothing source),
  )

  first_read :
      (messages : List JournalMsg) (whole : List ℕ)
      → sent messages ≡ whole
      → (w : Writer disk) → ReadsFirst disk messages w
      → ReadsPart disk whole w
  first_read messages whole same w r = record {
    steps = suc r.committed;
    kept = r.kept;
    lost = r.lost;
    samples = r.samples;
    first = r.first ∙ same;
  }

  read_given :
      (frames : List AudioFrame) (t : SessionState env) (world : disk.World)
      → fed env t ≡ give_all frames nothing
      → length frames + 2 < u32_mod
      → Fits (samples_of source frames)
      → Outcome
          (ReadsPart disk (samples_of source frames))
          (ReadsAll (samples_of source frames))
          (journaled t world)
  read_given frames t world e few fit =
      let same = sent-given frames t e in
      Outcome-both (first_read _ _ same)
        (λ summary w
            (r : ReadsBack disk channels (finished (channel source (fed env t))) summary w).
          r.samples ∙ ap some same)
        _
        (run_writer-ReadsBack disk source sample_rate channels
          (finished (channel source (fed env t))) world (few-given frames t e few)
          (subst Fits (sym same) fit))

  -- what is read of the first frames is the first of what the channel captured
  widened :
      (frames rest : List AudioFrame) (w : Writer disk)
      → ReadsPart disk (samples_of source frames) w
      → ReadsPart disk (samples_of source (frames ++ rest)) w
  widened frames rest w r = record {
    steps = r.steps;
    kept = r.kept;
    lost = r.lost ++ samples_of source rest;
    samples = r.samples;
    first =
        sym (append_assoc r.kept r.lost (samples_of source rest))
        ∙ ap (λ l. l ++ samples_of source rest) r.first
        ∙ sym (samples_of-append source frames rest);
  }

  all_read :
      (frames rest : List AudioFrame) (summary : JournalSummary) (w : Writer disk)
      → ReadsAll (samples_of source frames) summary w
      → ReadsPart disk (samples_of source (frames ++ rest)) w
  all_read frames rest summary w e = record {
    steps = suc summary.segment_count;
    kept = samples_of source frames;
    lost = samples_of source rest;
    samples = e;
    first = sym (samples_of-append source frames rest);
  }

  some_read :
      (frames : List AudioFrame) (t : SessionState env) (world : disk.World)
      → length frames + 2 < u32_mod
      → Fits (samples_of source frames)
      → GaveSome env nothing frames t
      → Outcome
          (ReadsPart disk (samples_of source frames))
          (λ _. ReadsPart disk (samples_of source frames))
          (journaled t world)
  some_read frames t world few fit g =
      let split = samples_of-append source g.done g.rest in
      let fewer : length g.done + 2 < u32_mod =
        omega (arith, few, length-append g.done g.rest, ap (λ l. length l) g.whole) in
      let fits =
        (Fits-append (samples_of source g.done) (samples_of source g.rest)
          (subst Fits (ap (samples_of source) (sym g.whole) ∙ split) fit)).0 in
      subst
        (λ fs.
          Outcome (ReadsPart disk (samples_of source fs))
            (λ _. ReadsPart disk (samples_of source fs)) (journaled t world))
        g.whole
        (Outcome-both (widened g.done g.rest) (all_read g.done g.rest) (journaled t world)
          (read_given g.done t world g.gave fewer fits))

-- Each channel's writer runs on what a session gives it, on a disk that may fail, and the merge
-- reads what the writer has committed; no writer was given anything before, fewer than 2 ^ 32 - 2
-- frames come before the stream's first error, and a sample is a 32-bit word. When the session and
-- the writer return, the merge reads all samples of these frames of the channel, the microphone's
-- with the mixed ones, in order, and no others. When the session or the writer fails, it reads the
-- first of them.
pub drive-journaled :
    (env : Env) (format : ℕ → Text) (inputs : DriveInputs env)
    (stream : List (Result CaptureError AudioFrame)) (s : SessionState env) (source : FrameSource)
    (disk : Disk) (sample_rate channels : ℕ) (world : disk.World)
    → fed env s ≡ nothing
    → length (captured stream) + 2 < u32_mod
    → Fits (samples_of source (captured stream))
    → let whole = samples_of source (captured stream) in
      Outcome
        (λ t.
          Outcome
            (ReadsPart disk whole)
            (λ _. ReadsPart disk whole)
            (journaled env source disk sample_rate channels t world))
        (λ _ t.
          Outcome
            (ReadsPart disk whole)
            (ReadsAll env source disk sample_rate channels whole)
            (journaled env source disk sample_rate channels t world))
        (drive env format inputs stream s)
drive-journaled env format inputs stream s source disk sample_rate channels world e few fit =
    Outcome-both
      (λ t g. some_read env source disk sample_rate channels (captured stream) t world few fit g)
      (λ _ t given.
        read_given env source disk sample_rate channels (captured stream) t world given few fit)
      (drive env format inputs stream s) ((drive-gives env format inputs stream).at s e)
