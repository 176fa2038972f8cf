-- ===== src/Session/Persist.antt =====
-- scrybe-core/src/session.rs: released finals reach transcript.md, then the observers and hooks, and
-- then, in a session with a log, their settlement in the log.
pub mod Quiet
pub mod Heard
pub mod Unfed
use scrybe.Common.{ℕ, true, Option, none, some, List}
use scrybe.Common.Action.{pure, ◌>>=◌, ◌>>◌, for_each}
use scrybe.Types.{
  FrameSource, mic, system, mixed, TranscriptChunk, AttributedChunk, SpeakerLabel, me, them,
}
use scrybe.Notes.Transcript.{render_transcript_line}
use scrybe.Storage.TranscriptLog.{
  TranscriptPartialRecord, TranscriptPartialLog, final, suppressed, mark_flushed, mark_suppressed,
}
use scrybe.Session.AcceptedFinal.{AcceptedFinal, Resolved}
use scrybe.Session.State.{
  Env, Session, append_durable, log_durable, report_progress, dispatch_hooks, transcript_accepted,
  chunk_transcribed,
}

pub data StoreTarget : Type 0 where
  to_mic to_system : StoreTarget

abbrev pub store_target : FrameSource → StoreTarget
store_target system = to_system
store_target mic = to_mic
store_target mixed = to_mic

abbrev pub speaker_for : FrameSource → SpeakerLabel
speaker_for system = them
speaker_for mic = me
speaker_for mixed = me

abbrev pub attributed : AcceptedFinal → AttributedChunk
attributed f = record { chunk = f.transcript; speaker = speaker_for f.source }

abbrev pub flushed_record : ℕ → AttributedChunk → TranscriptPartialRecord
flushed_record seq chunk = record {
  seq = seq;
  flushed_to_transcript = true;
  kind = final;
  chunk = chunk;
}

abbrev pub suppressed_record : ℕ → AttributedChunk → TranscriptPartialRecord
suppressed_record seq chunk = record {
  seq = seq;
  flushed_to_transcript = true;
  kind = suppressed;
  chunk = chunk;
}

module _ (env : Env) where
  unfoldable pub persist_final : AcceptedFinal → Session env (Unit {0})
  persist_final released = do
    append_durable env (render_transcript_line (attributed released))
    report_progress env (transcript_accepted (attributed released))
    dispatch_hooks env (chunk_transcribed (attributed released))

  unfoldable pub release_ready : List AcceptedFinal → Session env (Unit {0})
  release_ready ready = for_each ready persist_final

  settle_flushed : AcceptedFinal → Option ℕ → Session env (Unit {0})
  settle_flushed f none = pure tt
  settle_flushed f (some seq) =
      log_durable env (λ _. flushed_record seq (attributed f))
        (λ log. (mark_flushed env.codec seq (attributed f) log, tt))

  settle_suppressed : AcceptedFinal → Option ℕ → Session env (Unit {0})
  settle_suppressed f none = pure tt
  settle_suppressed f (some seq) =
      log_durable env (λ _. suppressed_record seq (attributed f))
        (λ log. (mark_suppressed env.codec seq (attributed f) log, tt))

  -- one accepted final, and one suppressed final
  unfoldable pub release_accepted : AcceptedFinal → Session env (Unit {0})
  unfolding settle_flushed
  release_accepted f = do persist_final f; settle_flushed f f.wal_seq

  unfoldable pub release_suppressed : AcceptedFinal → Session env (Unit {0})
  unfolding settle_suppressed
  release_suppressed f = settle_suppressed f f.wal_seq

  unfoldable pub release_streaming_resolved : Resolved → Session env (Unit {0})
  release_streaming_resolved resolved = do
    for_each resolved.accepted release_accepted
    for_each resolved.suppressed release_suppressed
