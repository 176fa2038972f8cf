-- ===== src/Session/Opening/Journaled/Channels.antt =====
-- What a whole session gives the writers: the frames of the stream, channel by channel.
use scrybe.Common.{
  ℕ, suc, ◌+◌, ◌≤◌, ◌≡◌, refl, sym, ap, ◌∙◌, Bool, true, false, List, [], ◌∷◌, ◌++◌, length,
  length-append, arith, if◌then◌else◌,
}
use mathlib.Core.List.{append-nil, append_assoc}
use scrybe.Common.Action.{
  Result, Ensures, Ensures-bind, Ensures-mono, Keeps-if, Keeps-pure, Keeps-bind, Keeps-raise,
}
use scrybe.Errors.{CaptureError}
use scrybe.Text.{Text}
use scrybe.Types.{AudioFrame, FrameSource, mic, system, mixed}
use scrybe.Pipeline.Merge.Segments.{concat}
use scrybe.Pipeline.Journal
use scrybe.Pipeline.Journal.{JournalMsg, finish, JournalSummary, Disk, Writer, idle, run_writer}
use scrybe.Pipeline.Journal.Holding.{sent}
use scrybe.Session.State.{Env, SessionState}
use scrybe.Session.Fed.{Given, nothing, fed, Unfed, ask-Unfed, unfed_rules}
use scrybe.Session.Journals.Fed.{channel, give}
use scrybe.Session.Drive.Fed.{captured, give_all, GaveSome, fed-stays, run_capture-gives}
use scrybe.Session.Opening.{DriveInputs, announce, begun, open_wal, begin, drive}

-- the microphone's frames and the mixed ones share a channel
abbrev pub same_channel : FrameSource → FrameSource → Bool
same_channel system system = true
same_channel system _ = false
same_channel _ system = false
same_channel _ _ = true

-- the samples of a channel's frames
abbrev pub samples_of : FrameSource → List AudioFrame → List ℕ
samples_of source [] = []
samples_of source (frame ∷ frames) =
    (if same_channel source frame.source then frame.samples else []) ++ samples_of source frames

-- what a writer receives of its frames; the end is sent when it is finished, or dropped
abbrev pub finished : List (List ℕ) → List JournalMsg
finished [] = finish ∷ []
finished (samples ∷ rest) = Journal.frame samples ∷ finished rest

pub sent-finished : (xs : List (List ℕ)) → sent (finished xs) ≡ concat xs
sent-finished [] = refl
sent-finished (samples ∷ rest) = ap (λ l. samples ++ l) (sent-finished rest)

pub length-finished : (xs : List (List ℕ)) → length (finished xs) ≡ suc (length xs)
length-finished [] = refl
length-finished (samples ∷ rest) = omega (arith, length-finished rest)

concat-one : (xs : List (List ℕ)) (x : List ℕ) → concat (xs ++ x ∷ []) ≡ concat xs ++ x
concat-one [] x = append-nil x
concat-one (y ∷ xs) x = ap (λ l. y ++ l) (concat-one xs x) ∙ sym (append_assoc y (concat xs) x)

concat-give :
    (source at : FrameSource) (samples : List ℕ) (g : Given)
    → concat (channel source (give at samples g))
      ≡ concat (channel source g) ++ (if same_channel source at then samples else [])
concat-give system system samples g = concat-one g.theirs samples
concat-give system mic samples g = sym (append-nil _)
concat-give system mixed samples g = sym (append-nil _)
concat-give mic system samples g = sym (append-nil _)
concat-give mic mic samples g = concat-one g.mine samples
concat-give mic mixed samples g = concat-one g.mine samples
concat-give mixed system samples g = sym (append-nil _)
concat-give mixed mic samples g = concat-one g.mine samples
concat-give mixed mixed samples g = concat-one g.mine samples

pub concat-give_all :
    (source : FrameSource) (frames : List AudioFrame) (g : Given)
    → concat (channel source (give_all frames g))
      ≡ concat (channel source g) ++ samples_of source frames
concat-give_all source [] g = sym (append-nil _)
concat-give_all source (frame ∷ frames) g =
    concat-give_all source frames (give frame.source frame.samples g)
    ∙ ap (λ l. l ++ samples_of source frames) (concat-give source frame.source frame.samples g)
    ∙ append_assoc (concat (channel source g)) _ (samples_of source frames)

pub samples_of-append :
    (source : FrameSource) (fs gs : List AudioFrame)
    → samples_of source (fs ++ gs) ≡ samples_of source fs ++ samples_of source gs
samples_of-append source [] gs = refl
samples_of-append source (f ∷ fs) gs =
    ap (λ l. (if same_channel source f.source then f.samples else []) ++ l)
      (samples_of-append source fs gs)
    ∙ sym (append_assoc _ (samples_of source fs) (samples_of source gs))

one_longer : (xs : List (List ℕ)) (x : List ℕ) → length (xs ++ x ∷ []) ≤ suc (length xs)
one_longer xs x = omega (arith, length-append xs (x ∷ []))

length-give :
    (source at : FrameSource) (samples : List ℕ) (g : Given)
    → length (channel source (give at samples g)) ≤ suc (length (channel source g))
length-give system system samples g = one_longer g.theirs samples
length-give system mic samples g = omega arith
length-give system mixed samples g = omega arith
length-give mic system samples g = omega arith
length-give mic mic samples g = one_longer g.mine samples
length-give mic mixed samples g = one_longer g.mine samples
length-give mixed system samples g = omega arith
length-give mixed mic samples g = one_longer g.mine samples
length-give mixed mixed samples g = one_longer g.mine samples

pub length-give_all :
    (source : FrameSource) (frames : List AudioFrame) (g : Given)
    → length (channel source (give_all frames g)) ≤ length (channel source g) + length frames
length-give_all source [] g = omega arith
length-give_all source (frame ∷ frames) g = omega (
  arith,
  length-give source frame.source frame.samples g,
  length-give_all source frames (give frame.source frame.samples g),
)

module _ (env : Env) where
  announce-Unfed : (header : Text) → Unfed (announce env header)
  unfolding announce
  announce-Unfed header = search unfed_rules

  open_wal-Unfed : Unfed (open_wal env)
  unfolding open_wal
  open_wal-Unfed =
      Keeps-bind _ _ (ask-Unfed env.read_fails)
        λ failed. Keeps-if failed _ _ (Keeps-raise _) (record { same = λ s. refl })

  module _ (format : ℕ → Text) (inputs : DriveInputs env)
      (stream : List (Result CaptureError AudioFrame)) where
    abbrev Silent : SessionState env → Type 0
    Silent s = fed env s ≡ nothing

    none_given : (s : SessionState env) → Silent s → GaveSome env nothing (captured stream) s
    none_given s e = record { done = []; rest = captured stream; whole = refl; gave = e }

    begin-Silent :
        Ensures
          (GaveSome env nothing (captured stream))
          (λ _. Silent)
          Silent
          (begin env format inputs)
    unfolding begin begun
    begin-Silent =
        Ensures-mono none_given (λ _ s e. e)
          (Ensures-bind _ _ (fed-stays env (λ g. g ≡ nothing) _ (announce-Unfed _)) λ _.
            Ensures-bind {Q = λ _. Silent} _ _ (record { at = λ s e. refl })
              λ _.
                fed-stays env (λ g. g ≡ nothing) _
                  (Keeps-if env.streams _ _ open_wal-Unfed (Keeps-pure tt)))

    pub drive-gives :
        Ensures
          (GaveSome env nothing (captured stream))
          (λ _ s. fed env s ≡ give_all (captured stream) nothing)
          Silent
          (drive env format inputs stream)
    unfolding drive
    drive-gives = Ensures-bind _ _ begin-Silent (λ _. run_capture-gives env stream nothing)

pub channel-nothing : (source : FrameSource) → channel source nothing ≡ []
channel-nothing system = refl
channel-nothing mic = refl
channel-nothing mixed = refl
