-- ===== src/Pipeline/Chunker.antt =====
-- scrybe-core/src/pipeline/chunker.rs: a channel's frames, grouped into chunks for transcription.
-- A duration is its nanoseconds, and saturates where the standard library's does. The voice
-- detector is a parameter, and so is the double precision quotient of a frame's duration. The sink
-- is the list of what it receives.
pub mod Pending
pub mod Buffer
pub mod Frames
pub mod Splits
pub mod Heard
use scrybe.Common.{
  ℕ, zero, suc, ◌+◌, Bool, ◌&&◌, Option, none, some, List, [], ◌∷◌, ◌++◌, leb, min, ◌/◌, length,
  get_or_else, if◌then◌else◌,
}
use scrybe.Types.{AudioFrame, FrameSource, frames_per_channel}

-- `Duration::MAX`
abbrev pub duration_max : ℕ
duration_max = 18446744073709551615999999999

-- `Duration::saturating_add`
abbrev pub sat_add_duration : ℕ → ℕ → ℕ
sat_add_duration a b = min (a + b) duration_max

pub record ChunkerConfig : Type 0 where
  pub max_chunk : ℕ
  pub min_speech_before_silence_split : ℕ
  pub silence_split_after : ℕ

abbrev pub default_config : ChunkerConfig
default_config = record {
  max_chunk = 30000000000;
  min_speech_before_silence_split = 5000000000;
  silence_split_after = 5000000000;
}

pub data ChunkBoundary : Type 0 where
  max_duration silence_after_speech end_of_stream : ChunkBoundary

pub record EmittedChunk : Type 0 where
  pub frames : List AudioFrame
  pub start : ℕ
  pub duration : ℕ
  pub source : FrameSource
  pub ended_on : ChunkBoundary

pub data VadDecision : Type 0 where
  speech silence : VadDecision

-- a detector with its state, and the quotient that `frame_duration` takes in double precision
pub record Listening : Type 1 where
  pub Vad : Type 0
  pub decide : Vad → AudioFrame → Vad × VadDecision
  pub from_secs_ratio : ℕ → ℕ → ℕ

start_at : ℕ → Option ℕ → Option ℕ
start_at timestamp none = some timestamp
start_at timestamp (some t) = some t

module _ (env : Listening) where
  open env use {Vad, decide, from_secs_ratio}

  pub record Chunker : Type 0 where
    pub config : ChunkerConfig
    pub vad : Vad
    pub source : FrameSource
    pub pending : List AudioFrame
    pub pending_duration : ℕ
    pub speech_duration : ℕ
    pub trailing_silence : ℕ
    pub chunk_start : Option ℕ

  abbrev pub new : ChunkerConfig → Vad → FrameSource → Chunker
  new config vad source = record {
    config = config;
    vad = vad;
    source = source;
    pending = [];
    pending_duration = 0;
    speech_duration = 0;
    trailing_silence = 0;
    chunk_start = none;
  }

  duration_at : ℕ → ℕ → AudioFrame → ℕ
  duration_at zero _ frame = 0
  duration_at (suc _) zero frame = 0
  duration_at (suc rate) (suc n) frame = from_secs_ratio (length frame.samples / suc n) (suc rate)

  unfoldable pub frame_duration : AudioFrame → ℕ
  unfolding duration_at
  frame_duration frame = duration_at frame.sample_rate frame.channels frame

  unfoldable pub flush : ChunkBoundary → Chunker → Chunker × Option EmittedChunk
  flush boundary c = elim c.pending [
    | [] ↦ (c, none)
    | first ∷ rest ↦ (
      record c {
        pending = [];
        pending_duration = 0;
        speech_duration = 0;
        trailing_silence = 0;
        chunk_start = none;
      },
      some (record {
        frames = first ∷ rest;
        start = get_or_else c.chunk_start 0;
        duration = c.pending_duration;
        source = c.source;
        ended_on = boundary;
      }),
    )
  ]

  -- the detector's decision, counted
  hear : VadDecision → ℕ → Chunker → Chunker
  hear speech d c = record c {
    speech_duration = sat_add_duration c.speech_duration d;
    trailing_silence = 0;
  }
  hear silence d c = record c { trailing_silence = sat_add_duration c.trailing_silence d }

  -- `push` up to the tests for a boundary
  unfoldable pub buffer : AudioFrame → Chunker → Chunker
  unfolding hear start_at
  buffer frame c =
      let (vad, decision) = decide c.vad frame in
      let d = frame_duration frame in
      let c1 : Chunker = record c {
        vad = vad;
        chunk_start = start_at frame.timestamp_ns c.chunk_start;
      } in
      let c2 = hear decision d c1 in
      record c2 {
        pending_duration = sat_add_duration c2.pending_duration d;
        pending = c2.pending ++ frame ∷ [];
      }

  abbrev pub too_long : Chunker → Bool
  too_long c = leb c.config.max_chunk c.pending_duration

  abbrev pub spoken : Chunker → Bool
  spoken c =
      leb c.config.min_speech_before_silence_split c.speech_duration
      && leb c.config.silence_split_after c.trailing_silence

  unfoldable pub push : AudioFrame → Chunker → Chunker × Option EmittedChunk
  push frame c =
      let b = buffer frame c in
      if too_long b
      then flush max_duration b
      else if spoken b
      then flush silence_after_speech b
      else (b, none)

  unfoldable pub finish : Chunker → Chunker × Option EmittedChunk
  finish c = elim c.pending [ [] ↦ (c, none) | _ ∷ _ ↦ flush end_of_stream c ]
