-- ===== src/Session/Journals.antt =====
-- scrybe-core/src/session.rs: the per-source journals of a session, with the anchors and the captured
-- time that the accepted-final boundary orders its records by.
pub mod Returns
pub mod Quiet
pub mod Fed
use scrybe.Common.{
  ℕ, zero, suc, ◌+◌, ◌-◌, ◌*◌, ◌/◌, Bool, not, Option, none, some, [], ◌∷◌, ◌++◌, map, min, max,
  is_some, if◌then◌else◌,
}
use mathlib.Core.Option
use scrybe.Common.Int.{ℤ, pos}
use scrybe.Common.Words.{u64_max, sat_add_u64, sat_add_i64}
use scrybe.Common.Action.{Result, ok, err, pure, raise, gets, modify, ◌>>=◌, ◌>>◌}
use scrybe.Errors.{CoreError, storage, io}
use scrybe.Types.{AudioFrame, FrameSource, mic, system, mixed, frames_per_channel}
use scrybe.Pipeline.Journal.{JournalAnchor, JournalManifest}
use scrybe.Session.AcceptedFinal.{SourceAnchors, anchor_for, both_known}
use scrybe.Session.State.{Env, JournalSlot, SessionJournals, SessionState, Session, ask}

-- `u64::saturating_mul`
abbrev pub sat_mul_u64 : ℕ → ℕ → ℕ
sat_mul_u64 a b = min (a * b) u64_max

duration_ms_at : ℕ → ℕ → AudioFrame → ℕ
duration_ms_at zero _ frame = 0
duration_ms_at (suc _) zero frame = 0
duration_ms_at (suc rate) (suc _) frame = sat_mul_u64 (frames_per_channel frame) 1000 / suc rate

unfoldable pub frame_duration_ms : AudioFrame → ℕ
unfolding duration_ms_at
frame_duration_ms frame = duration_ms_at frame.sample_rate frame.channels frame

end_ns_at : ℕ → ℕ → AudioFrame → ℕ
end_ns_at zero _ frame = frame.timestamp_ns
end_ns_at (suc _) zero frame = frame.timestamp_ns
end_ns_at (suc rate) (suc _) frame =
    sat_add_u64 frame.timestamp_ns (sat_mul_u64 (frames_per_channel frame) 1000000000 / suc rate)

unfoldable pub frame_end_timestamp_ns : AudioFrame → ℕ
unfolding end_ns_at
frame_end_timestamp_ns frame = end_ns_at frame.sample_rate frame.channels frame

horizon_from : Bool → Option ℤ → ℕ → Option ℤ
horizon_from both none position_ms = none
horizon_from both (some anchor_ms) position_ms =
    if both then some (sat_add_i64 anchor_ms (pos (min position_ms 9223372036854775807))) else none

-- a subtraction that stops at zero
unfoldable pub source_horizon : SourceAnchors → FrameSource → ℕ → ℕ → Option ℤ
unfolding horizon_from
source_horizon anchors source elapsed_ms back_ms =
    horizon_from (both_known anchors) (anchor_for anchors source) (elapsed_ms - back_ms)

abbrev pub slot_epoch : JournalSlot → ℤ
slot_epoch slot = slot.first_frame_epoch_ms

unfoldable pub anchors : SessionJournals → SourceAnchors
anchors j = record {
  mic_anchor = Option.map slot_epoch j.mic;
  system_anchor = Option.map slot_epoch j.system;
}

abbrev pub slot_for : FrameSource → SessionJournals → Option JournalSlot
slot_for system j = j.system
slot_for mic j = j.mic
slot_for mixed j = j.mic

abbrev pub set_slot : FrameSource → JournalSlot → SessionJournals → SessionJournals
set_slot system slot j = record j { system = some slot }
set_slot mic slot j = record j { mic = some slot }
set_slot mixed slot j = record j { mic = some slot }

captured : Option JournalSlot → ℕ
captured none = 0
captured (some slot) = slot.captured_ms

unfoldable pub elapsed_ms : SessionJournals → FrameSource → ℕ
unfolding captured
elapsed_ms j source = captured (slot_for source j)

unfoldable pub partial_anchor : JournalSlot → JournalAnchor
partial_anchor slot = record {
  first_frame_epoch_ms = slot.first_frame_epoch_ms;
  first_frame_timestamp_ns = some slot.first_frame_timestamp_ns;
  last_frame_end_timestamp_ns = some slot.last_frame_end_timestamp_ns;
  sample_rate = slot.sample_rate;
  channels = slot.channels;
  frames_written = 0;
}

unfoldable pub spawned : ℤ → AudioFrame → JournalSlot
spawned epoch_ms frame = record {
  first_frame_epoch_ms = epoch_ms;
  first_frame_timestamp_ns = frame.timestamp_ns;
  last_frame_end_timestamp_ns = frame_end_timestamp_ns frame;
  sample_rate = frame.sample_rate;
  channels = frame.channels;
  writer = [];
  captured_ms = 0;
}

-- a frame sent to its writer, and counted
unfoldable pub feed : AudioFrame → JournalSlot → JournalSlot
feed frame slot = record slot {
  writer = slot.writer ++ frame.samples ∷ [];
  last_frame_end_timestamp_ns = max slot.last_frame_end_timestamp_ns (frame_end_timestamp_ns frame);
  captured_ms = sat_add_u64 slot.captured_ms (frame_duration_ms frame);
}

module _ (env : Env) where
  stored :
      JournalManifest → Option ℕ → SessionState env → Result CoreError (Unit {0}) × SessionState env
  stored m none s = (ok tt, record s { journals = record s.journals { manifest_file = some m } })
  stored m (some _) s = (err (storage io), s)

  -- `write_manifest`, an atomic replacement
  unfoldable pub write_manifest : JournalManifest → Session env (Unit {0})
  unfolding stored
  write_manifest m s =
      let (world, fault) = env.write_fault s.world in stored m fault (record s { world = world })

  join : Option JournalManifest → Session env (Unit {0})
  join none = pure tt
  join (some m) = do
    modify (λ s. record s { journals = record s.journals { partial_manifest_writer = none } })
    write_manifest m

  unfoldable pub finish_partial_manifest_write : Session env (Unit {0})
  unfolding join
  finish_partial_manifest_write = do j ← gets (λ s. s.journals); join j.partial_manifest_writer

  unfoldable pub write_partial_manifest : Session env (Unit {0})
  write_partial_manifest = do
    finish_partial_manifest_write
    modify (λ s. record s {
      journals = record s.journals {
        partial_manifest_writer = some (record {
          mic = Option.map partial_anchor s.journals.mic;
          system = Option.map partial_anchor s.journals.system;
        });
      };
    })

  feed_slot : AudioFrame → JournalSlot → Session env (Unit {0})
  feed_slot frame slot =
      modify (λ s. record s { journals = set_slot frame.source (feed frame slot) s.journals })

  push_slot : AudioFrame → Option JournalSlot → Session env (Unit {0})
  unfolding feed_slot
  push_slot frame (some slot) = feed_slot frame slot
  push_slot frame none = do
    started ← ask env env.spawns
    if started then pure tt else raise (storage io)
    epoch_ms ← ask env env.now_ms
    feed_slot frame (spawned epoch_ms frame)
    write_partial_manifest

  -- `SessionJournals::push`
  unfoldable pub journal_push : AudioFrame → Session env (Unit {0})
  unfolding push_slot
  journal_push frame = do j ← gets (λ s. s.journals); push_slot frame (slot_for frame.source j)
