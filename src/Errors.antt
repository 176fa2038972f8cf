-- ===== src/Errors.antt =====
-- scrybe-core/src/error.rs: what can go wrong in a session. The paths and the wrapped errors of other
-- libraries are left out; an `InvalidFrame` keeps the index that its message names.
use Prim.Native.String.{String}
use scrybe.Common.{ℕ}

pub data CaptureError : Type 0 where
  permission_denied device_unavailable device_changed platform stream_closed : CaptureError
  system_slept unsupported_sample_rate : ℕ → CaptureError

pub data SttError : Type 0 where
  model_not_loaded model_corrupt transport decoding : SttError
  provider_status retries_exhausted : ℕ → SttError

pub data LlmError : Type 0 where
  provider_status retries_exhausted : ℕ → LlmError
  prompt_rendering : String → LlmError
  transport : LlmError

pub data HookError : Type 0 where
  timeout : ℕ → HookError
  hook : HookError

pub data StorageError : Type 0 where
  disk_full atomic_rename invalid_target_path persist io : StorageError
  session_locked : ℕ → StorageError

pub data ConfigError : Type 0 where
  not_found : ConfigError
  parse missing : String → ConfigError
  unknown_key : String → ℕ → ConfigError
  invalid : String → String → ConfigError
  unsupported_schema_version : ℕ → ℕ → ConfigError

pub data ConsentError : Type 0 where
  user_aborted attestation_write_failed chat_target_missing tts_unavailable : ConsentError

pub data PipelineError : Type 0 where
  vad_init opus_encode meta_serialize notes_transcript_parse invalid_generated_title : PipelineError
  empty_chunk diarizer_unavailable duration_mismatch empty_journal : PipelineError
  resample invalid_frame : ℕ → PipelineError

pub data CoreError : Type 0 where
  capture : CaptureError → CoreError
  stt : SttError → CoreError
  llm : LlmError → CoreError
  storage : StorageError → CoreError
  config : ConfigError → CoreError
  consent : ConsentError → CoreError
  pipeline : PipelineError → CoreError
