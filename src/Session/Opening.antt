-- ===== src/Session/Opening.antt =====
-- scrybe-core/src/session.rs: how `drive_session` begins, and the whole of it from its inputs to the
-- point where every final is resolved. The dates of the chrono crate are a parameter.
pub mod Fresh
pub mod Granted
pub mod Whole
pub mod Journaled
use scrybe.Common.{ℕ, Option, none, [], List, if◌then◌else◌}
use mathlib.Core.Option
use scrybe.Common.Action.{Result, pure, raise, modify, ◌>>=◌, ◌>>◌}
use scrybe.Errors.{CaptureError, storage, io}
use scrybe.Text.{Text}
use scrybe.Types.{AudioFrame, mic, system}
use scrybe.Pipeline.Chunker
use scrybe.Pipeline.Chunker.{ChunkerConfig}
use scrybe.Pipeline.Normalize
use scrybe.Storage.TranscriptLog.{open_log}
use scrybe.Notes.Body.{render_transcript_header}
use scrybe.Session.AcceptedFinal
use scrybe.Session.State.{
  Env, SessionState, Session, set_wal, append_durable, ask, report_progress, dispatch_hooks,
  recording, session_start, consent_recorded, no_journals,
}
use scrybe.Session.Drive.{run_capture}

module _ (env : Env) where
  open env use {listening, resampling}

  -- the inputs that the capture depends on, but for what the environment stands for
  pub record DriveInputs : Type 0 where
    pub started_at : ℕ
    pub title : Option Text
    pub mic_vad : listening.Vad
    pub system_vad : Option listening.Vad
    pub chunker_config : ChunkerConfig

  -- what observers and hooks are told first, with the header between
  unfoldable pub announce : Text → Session env (Unit {0})
  announce header = do
    report_progress env recording
    append_durable env header
    dispatch_hooks env session_start
    dispatch_hooks env consent_recorded

  -- the session's own values as they begin; the files on the disk stay
  unfoldable pub begun : DriveInputs → SessionState env → SessionState env
  begun inputs s = record s {
    journals = record no_journals { manifest_file = s.journals.manifest_file };
    boundary = AcceptedFinal.new;
    live = record {
      wal = s.live.wal;
      mic = Normalize.new resampling mic;
      system = Normalize.new resampling system;
    };
    mic_chunker = Chunker.new listening inputs.chunker_config inputs.mic_vad mic;
    system_chunker =
        Option.map (λ (vad : listening.Vad). Chunker.new listening inputs.chunker_config vad system)
          inputs.system_vad;
    mic_text_chunks = [];
    sys_text_chunks = [];
  }

  -- `TranscriptPartialLog::open` of the session's folder
  unfoldable pub open_wal : Session env (Unit {0})
  open_wal = do
    failed ← ask env env.read_fails
    if failed
        then raise (storage io)
        else modify (λ s. set_wal env (open_log env.codec s.live.wal.file) s)

  module _ (format : ℕ → Text) where
    -- the header is rendered without an end
    abbrev pub header_of : DriveInputs → Text
    header_of inputs = render_transcript_header inputs.title (format inputs.started_at) none

    -- only a session with a streaming provider has a log
    unfoldable pub begin : DriveInputs → Session env (Unit {0})
    begin inputs = do
      announce (header_of inputs)
      modify (begun inputs)
      if env.streams then open_wal else pure tt

    unfoldable pub drive :
        DriveInputs → List (Result CaptureError AudioFrame) → Session env (Option CaptureError)
    drive inputs stream = do begin inputs; run_capture env stream
