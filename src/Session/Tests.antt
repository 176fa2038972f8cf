-- ===== src/Session/Tests.antt =====
-- A session's theorems at two frames and the end of the stream.
use scrybe.Common.{ℕ, ◌≡◌, refl, Bool, true, false, Option, none, some}
use scrybe.Common.{All, arith, leb, ◌-◌, ℕ}
use scrybe.Session.State.Returns.{Grants}
use scrybe.Session.Batch.Returns.{Format}
use scrybe.Common.Action.{ok, Outcome, ◌>>=◌}
use scrybe.Errors.{stream_closed}
use scrybe.Storage.TranscriptLog.LineFormat.Codec.{codec, codec-IsLineCodec}
use scrybe.Types.{FrameSource, mic}
use scrybe.Session.View.{view}
use scrybe.Session.Drive.{capture}
use scrybe.Session.Drive.Hearing.{IsWritten}
use scrybe.Session.Drive.Crash.{Recovers}
use scrybe.Session.Drive.Going.{IsWellFormed}
use scrybe.Session.Ledger.{IsSettled}
use scrybe.Session.Opening.{header_of, begin, drive}
use scrybe.Pipeline.Journal.{Disk}
use scrybe.Session.Drive.Fed.{captured}
use scrybe.Session.Opening.Journaled.Channels.{samples_of}
use scrybe.Session.Opening.Journaled.{ReadsPart, ReadsAll, journaled, drive-journaled}
use scrybe.Session.Opening.Fresh.{IsNew}
use scrybe.Session.Opening.Whole.{
  Failed, drive-accounts, begin-Recovers, drive-IsWritten, drive-returns,
}
use scrybe.Session.Heard.Release.{Stopped}
use scrybe.Session.Samples.{
  said, streaming, frames, date, inputs, unstarted, healthy, failing, batch,
}

module _ (fault : Option ℕ) (streams : Bool) where
  unstarted-IsNew : IsNew (streaming fault streams) (unstarted fault streams)
  unstarted-IsNew = record { empty = refl; no_log = refl; no_hooks = refl; no_observers = refl }

drive-accounts_example :
    Outcome
      (Failed failing date (inputs (some 5) true))
      (λ _ t. IsSettled codec (header_of failing date (inputs (some 5) true)) (view failing t))
      (drive failing date (inputs (some 5) true) frames (unstarted (some 5) true))
drive-accounts_example =
    drive-accounts failing date (inputs (some 5) true) frames (unstarted (some 5) true)
      codec-IsLineCodec refl (unstarted-IsNew (some 5) true)

begin-Recovers_example :
    Outcome
      (Failed healthy date (inputs none true))
      (λ _. Recovers healthy (header_of healthy date (inputs none true)))
      ((begin healthy date (inputs none true) >>= λ _. capture healthy frames)
        (unstarted none true))
begin-Recovers_example =
    begin-Recovers healthy date (inputs none true) frames (unstarted none true) codec-IsLineCodec
      refl (unstarted-IsNew none true)

drive-IsWritten_example :
    Outcome
      (Stopped batch (header_of batch date (inputs none false)))
      (λ _. IsWritten batch (header_of batch date (inputs none false)))
      (drive batch date (inputs none false) frames (unstarted none false))
drive-IsWritten_example =
    drive-IsWritten batch date (inputs none false) frames (unstarted none false)
      (unstarted-IsNew none false)

abbrev format : FrameSource → Format
format source = record {
  sample_rate = 16000;
  channels = 1;
  has_rate = omega arith;
  has_channels = omega arith;
}

batch-Grants : Grants batch
batch-Grants = record {
  batch = refl;
  writes = λ w. refl;
  spawns = λ w. refl;
  answers = λ audio w. ((said audio.source).transcript, refl);
  resamples = λ samples rate h. (samples, refl);
}

frames-IsWellFormed : All (IsWellFormed batch format) frames
frames-IsWellFormed = ((refl, refl), ((refl, refl), (tt, tt)))

drive-returns_example :
    (drive batch date (inputs none false) frames (unstarted none false)).0 ≡ ok (some stream_closed)
drive-returns_example =
    drive-returns batch date (inputs none false) format frames (unstarted none false) batch-Grants
      refl frames-IsWellFormed

-- a disk that works for so many operations
abbrev disk : Disk
disk = record { World = ℕ; attempt = λ left. (left - 1, leb 1 left) }

drive-journaled_example :
    let whole = samples_of mic (captured frames) in
    Outcome
      (λ t.
        Outcome
          (ReadsPart disk whole)
          (λ _. ReadsPart disk whole)
          (journaled failing mic disk 16000 1 t 9))
      (λ _ t.
        Outcome
          (ReadsPart disk whole)
          (ReadsAll failing mic disk 16000 1 whole)
          (journaled failing mic disk 16000 1 t 9))
      (drive failing date (inputs (some 5) true) frames (unstarted (some 5) true))
drive-journaled_example =
    drive-journaled failing date (inputs (some 5) true) frames (unstarted (some 5) true) mic disk
      16000 1 9 refl (omega arith) (omega arith)
