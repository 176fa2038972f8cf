-- ===== src/Sessions/Error.antt =====
-- scrybe-application/src/error.rs: the codes of the services' errors.
pub data ErrorCode : Type 0 where
  invalid_session_id session_not_found ambiguous_session_id storage_root_missing : ErrorCode
  storage_unavailable metadata_unreadable cancelled not_applicable config_unreadable : ErrorCode
  config_invalid config_write_failed diagnostics_unavailable repair_failed : ErrorCode
  notes_generation_failed recording_state_conflict preflight_failed provider_unavailable : ErrorCode
  capture_unavailable recording_failed model_manifest_invalid model_unknown : ErrorCode
  model_confirmation_required model_storage_unavailable model_download_unavailable : ErrorCode
