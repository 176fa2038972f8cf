-- ===== src/Session/Opening/Whole.antt =====
-- A session from its inputs: what its disk says wherever it stops, what it has told, and when it
-- returns.
use scrybe.Common.{ℕ, ◌≡◌, ◌⊎◌, inl, inr, true, List, All}
use scrybe.Common.Action.{
  Result, ok, Outcome, Outcome-both, Ensures, Ensures-bind, Ensures-mono, ◌>>=◌,
}
use scrybe.Errors.{CaptureError}
use scrybe.Text.{Text}
use scrybe.Types.{AudioFrame, FrameSource, mic, mixed}
use scrybe.Storage.TranscriptLog.{IsLineCodec}
use scrybe.Session.State.{Env, SessionState}
use scrybe.Session.State.Returns.{Grants}
use scrybe.Session.View.{view}
use scrybe.Session.Ledger.{IsTorn, IsSettled}
use scrybe.Session.Heard.Release.{Stopped}
use scrybe.Session.Batch.Returns.{Format}
use scrybe.Session.Drive.{capture, run_capture}
use scrybe.Session.Drive.Crash.{Recovers, run_capture-accounts, capture-Recovers}
use scrybe.Session.Drive.Hearing.{IsWritten}
use scrybe.Session.Drive.Heard.{run_capture-IsWritten}
use scrybe.Session.Drive.Going.{IsWellFormed}
use scrybe.Session.Drive.Returns.{first_error, run_capture-returns, returned}
use scrybe.Session.Opening.{DriveInputs, header_of, begin, drive}
use scrybe.Session.Opening.Fresh.{IsNew, IsUnopened, IsOpened, IsOpened-IsFresh, begin-IsOpened}
use scrybe.Session.Opening.Granted.{begin-returns}

module _ (env : Env) (format : ℕ → Text) (inputs : DriveInputs env) where
  -- how a session has failed: before its first frame, or later
  abbrev pub Failed : SessionState env → Type 0
  Failed s =
      IsUnopened env (header_of env format inputs) s
      ⊎ IsTorn env.codec (header_of env format inputs) (view env s)

  begin-Opens :
      Ensures Failed
        (λ _. IsOpened env (header_of env format inputs))
        (IsNew env)
        (begin env format inputs)
  begin-Opens = Ensures-mono (λ s u. inl u) (λ _ s o. o) (begin-IsOpened env format inputs)

-- A streaming session with a new folder, whatever the frames, the answers of the speech provider and
-- the failures of the storage. When it returns, its log has every final that it closed settled just
-- once, as flushed or as suppressed, and transcript.md is the header and the flushed finals' lines
-- in the order of the log. When it fails, either it has no log and at most the header, whole or cut
-- off; or, besides finals that are still undecided, at most one final is ambiguous, its line whole
-- or cut off at the end of transcript.md and not yet marked, and the log ends at most in one record
-- that is cut off.
pub drive-accounts :
    (env : Env) (format : ℕ → Text) (inputs : DriveInputs env)
    (stream : List (Result CaptureError AudioFrame)) (s : SessionState env)
    → IsLineCodec env.codec
    → env.streams ≡ true
    → IsNew env s
    → Outcome
        (Failed env format inputs)
        (λ _ t. IsSettled env.codec (header_of env format inputs) (view env t))
        (drive env format inputs stream s)
unfolding drive
drive-accounts env format inputs stream s c streams n =
    let header = header_of env format inputs in
    let whole : Ensures (Failed env format inputs) (λ _ t. IsSettled env.codec header (view env t))
        (IsNew env) (begin env format inputs >>= λ _. run_capture env stream) =
      Ensures-bind _ _ (begin-Opens env format inputs) λ _. record {
        at = λ t o.
            Outcome-both (λ u f. inr f) (λ _ u d. d) (run_capture env stream t)
              (run_capture-accounts env header stream t c streams
                (IsOpened-IsFresh env header t streams o));
      } in
    whole.at s n

-- Between two frames of a streaming session with a new folder that has not failed, every final that
-- it closed is flushed in the log and on transcript.md, suppressed in the log, or held by the
-- boundary; and a crash there, while the log's numbers last, recovers an orphan under a number if
-- and only if the boundary holds a final with that number.
pub begin-Recovers :
    (env : Env) (format : ℕ → Text) (inputs : DriveInputs env)
    (stream : List (Result CaptureError AudioFrame)) (s : SessionState env)
    → IsLineCodec env.codec
    → env.streams ≡ true
    → IsNew env s
    → Outcome
        (Failed env format inputs)
        (λ _. Recovers env (header_of env format inputs))
        ((begin env format inputs >>= λ _. capture env stream) s)
begin-Recovers env format inputs stream s c streams n =
    let header = header_of env format inputs in
    let whole : Ensures (Failed env format inputs) (λ _. Recovers env header) (IsNew env)
        (begin env format inputs >>= λ _. capture env stream) =
      Ensures-bind _ _ (begin-Opens env format inputs) λ _. record {
        at = λ t o.
            Outcome-both (λ u f. inr f) (λ _ u d. d) (capture env stream t)
              (capture-Recovers env header stream t c streams
                (IsOpened-IsFresh env header t streams o));
      } in
    whole.at s n

-- A session with a new folder, of which no one was told a text before, and that returns, streaming
-- or not, even if the capture stream ended in an error: transcript.md is the header and the lines of
-- the accepted finals; the hooks and the observers were told of exactly these, in the same order;
-- what was not accepted is suppressed, and was heard by the microphone; and the accepted and the
-- suppressed texts are together what the diarizer is given, each once.
pub drive-IsWritten :
    (env : Env) (format : ℕ → Text) (inputs : DriveInputs env)
    (stream : List (Result CaptureError AudioFrame)) (s : SessionState env)
    → IsNew env s
    → Outcome
        (Stopped env (header_of env format inputs))
        (λ _. IsWritten env (header_of env format inputs))
        (drive env format inputs stream s)
unfolding drive
drive-IsWritten env format inputs stream s n =
    let header = header_of env format inputs in
    let whole : Ensures (Stopped env header) (λ _. IsWritten env header) (IsNew env)
        (begin env format inputs >>= λ _. run_capture env stream) =
      Ensures-bind _ _ (Ensures-mono (λ _ _. tt) (λ _ _ o. o) (begin-IsOpened env format inputs))
        λ _. record {
          at = λ t o.
              run_capture-IsWritten env header stream t o.headed.headed o.headed.no_hooks
                o.headed.no_observers o.own.no_finals o.own.no_texts;
        } in
    whole.at s n

-- The capture of a session in batch mode, up to the closing of its journals and their merge, which are
-- not part of `drive`: where the disk takes every write, the journals' threads are spawned, the
-- recognizer answers and the resampler takes every rate but 0, it comes to its end for every stream of
-- frames that have one format for each channel, with a rate and channels other than 0; and it gives
-- the first error of the stream, or none if the stream has none.
pub drive-returns :
    (env : Env) (dates : ℕ → Text) (inputs : DriveInputs env) (format : FrameSource → Format)
    (stream : List (Result CaptureError AudioFrame)) (s : SessionState env)
    → Grants env
    → format mixed ≡ format mic
    → All (IsWellFormed env format) stream
    → (drive env dates inputs stream s).0 ≡ ok (first_error stream)
unfolding drive
drive-returns env dates inputs format stream s grants as_mic h =
    let whole : Ensures (λ _. ⊥) (λ a _. a ≡ first_error stream) (λ _. Unit)
        (begin env dates inputs >>= λ _. run_capture env stream) =
      Ensures-bind _ _ (begin-returns env dates inputs grants)
        λ _. run_capture-returns env format stream grants as_mic h in
    returned (first_error stream) ((begin env dates inputs >>= λ _. run_capture env stream) s)
      (whole.at s tt)
