-- ===== src/Pipeline/Journal.antt =====
-- scrybe-core/src/pipeline/journal.rs: a source's samples written to segment files that rotate. The
-- writer thread takes its messages in the order they were sent, so its run is a loop over the list
-- of them. The disk is a parameter that says of each operation whether it succeeds; a segment counts
-- as durable once its file is committed. A sample is the 32 bits of its `f32`.
pub mod Bytes
pub mod Holding
pub mod Kept
pub mod Closing
pub mod ReadBack
use scrybe.Common.{
  ℕ, ◌+◌, ◌*◌, ◌/◌, ◌%◌, Bool, Option, none, some, List, [], ◌∷◌, ◌++◌, leb, ◌==◌, max, length,
  if◌then◌else◌,
}
use scrybe.Common.Int.{ℤ}
use scrybe.Common.Words.{u32_mod, u64_mod}
use scrybe.Common.Action.{Action, pure, raise, gets, modify, ◌>>=◌, ◌>>◌}
use scrybe.Errors.{io, CoreError, storage}
use scrybe.Types.{FrameSource}

abbrev pub rotate_interval_secs : ℕ
rotate_interval_secs = 30

pub data JournalMsg : Type 0 where
  frame : List ℕ → JournalMsg
  finish : JournalMsg

pub record JournalSummary : Type 0 where
  pub source : FrameSource
  pub sample_rate : ℕ
  pub channels : ℕ
  pub frames_written : ℕ
  pub segment_count : ℕ

pub record JournalAnchor : Type 0 where
  pub first_frame_epoch_ms : ℤ
  pub first_frame_timestamp_ns : Option ℕ
  pub last_frame_end_timestamp_ns : Option ℕ
  pub sample_rate : ℕ
  pub channels : ℕ
  pub frames_written : ℕ

pub record JournalManifest : Type 0 where
  pub mic : Option JournalAnchor
  pub system : Option JournalAnchor

-- `f32::to_le_bytes`, from the bits
unfoldable pub to_le_bytes : ℕ → List ℕ
to_le_bytes w = w % 256 ∷ w / 256 % 256 ∷ w / 65536 % 256 ∷ w / 16777216 % 256 ∷ []

unfoldable pub samples_to_le_bytes : List ℕ → List ℕ
samples_to_le_bytes [] = []
samples_to_le_bytes (w ∷ ws) = to_le_bytes w ++ samples_to_le_bytes ws

unfoldable pub rotate_at : ℕ → ℕ → ℕ
rotate_at sample_rate channels = rotate_interval_secs * sample_rate * max channels 1 % u64_mod

-- the disk beside the writer's variables; the open segment is what was written to it so far
pub record Disk : Type 1 where
  pub World : Type 0
  pub attempt : World → World × Bool

abbrev put_segment : ℕ → List ℕ → (ℕ → Option (List ℕ)) → ℕ → Option (List ℕ)
put_segment seq bytes segment i = if i == seq then some bytes else segment i

module _ (disk : Disk) where
  open disk use {World, attempt}

  pub record Writer : Type 0 where
    pub world : World
    pub segment : ℕ → Option (List ℕ)
    pub seq : ℕ
    pub segment_samples : ℕ
    pub frames_written : ℕ
    pub segment_count : ℕ
    pub writer : Option (List ℕ)

  abbrev pub idle : World → Writer
  idle world = record {
    world = world;
    segment = λ _. none;
    seq = 0;
    segment_samples = 0;
    frames_written = 0;
    segment_count = 0;
    writer = none;
  }

  abbrev pub Journal : Type 0 → Type 0
  Journal A = Action Writer CoreError A

  -- one operation of the disk
  pub disk_operation : Journal (Unit {0})
  disk_operation s =
      let (world, done) = attempt s.world in
      (if done then pure tt else raise (storage io)) (record s { world = world })

  -- the open file, or the next one
  pub open_or_next : Option (List ℕ) → Journal (List ℕ)
  unfolding disk_operation
  open_or_next (some bytes) = pure bytes
  open_or_next none = do
    disk_operation
    modify (λ s. record s { segment_count = (s.segment_count + 1) % u32_mod })
    pure []

  -- a file that is flushed and committed is there after a crash
  pub close_segment : List ℕ → Journal (Unit {0})
  unfolding disk_operation
  close_segment bytes = do
    disk_operation
    modify (λ s. record s { segment = put_segment s.seq bytes s.segment })

  keep_open : List ℕ → Journal (Unit {0})
  keep_open bytes = modify (λ s. record s { writer = some bytes })

  rotate : List ℕ → Journal (Unit {0})
  unfolding close_segment
  rotate bytes = do
    close_segment bytes
    modify (λ s. record s { seq = (s.seq + 1) % u32_mod; segment_samples = 0 })

  write_frame : ℕ → ℕ → List ℕ → Journal (Unit {0})
  unfolding open_or_next rotate keep_open
  write_frame channel_divisor rotate_at_samples [] = pure tt
  write_frame channel_divisor rotate_at_samples (w ∷ ws) = do
    current ← gets (λ s. s.writer)
    modify (λ s. record s { writer = none })
    opened ← open_or_next current
    disk_operation
    modify (λ s. record s {
      segment_samples = (s.segment_samples + length (w ∷ ws)) % u64_mod;
      frames_written = (s.frames_written + length (w ∷ ws) / channel_divisor) % u64_mod;
    })
    due ← gets (λ s. leb rotate_at_samples s.segment_samples)
    let bytes = opened ++ samples_to_le_bytes (w ∷ ws)
    if due then rotate bytes else keep_open bytes

  -- the loop over the messages, until `Finish` or the end of the channel
  pub receive : ℕ → ℕ → List JournalMsg → Journal (Unit {0})
  unfolding write_frame
  receive channel_divisor rotate_at_samples [] = pure tt
  receive channel_divisor rotate_at_samples (finish ∷ rest) = pure tt
  receive channel_divisor rotate_at_samples (frame samples ∷ rest) =
      let later = receive channel_divisor rotate_at_samples rest in
      write_frame channel_divisor rotate_at_samples samples >>= λ _. later

  -- a segment that is still open when the messages end
  pub close_last : Option (List ℕ) → Journal (Unit {0})
  unfolding close_segment
  close_last none = pure tt
  close_last (some bytes) = do modify (λ s. record s { writer = none }); close_segment bytes

  unfoldable pub run_writer : FrameSource → ℕ → ℕ → List JournalMsg → Journal JournalSummary
  unfolding receive close_last
  run_writer source sample_rate channels messages = do
    disk_operation
    receive (max channels 1) (rotate_at sample_rate channels) messages
    left ← gets (λ s. s.writer)
    close_last left
    gets (λ s. record {
      source = source;
      sample_rate = sample_rate;
      channels = channels;
      frames_written = s.frames_written;
      segment_count = s.segment_count;
    })
