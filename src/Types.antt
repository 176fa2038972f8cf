-- ===== src/Types.antt =====
-- The shared types of scrybe-core/src/types and context/mod.rs. A sample is an
-- `f32`: the code only carries and compares it outside of this development, so it is a number that
-- stands for its 32 bits.
use scrybe.Text.{Text}
use scrybe.Common.{ℕ, zero, suc, ◌/◌, Bool, Option, List, length}

pub data FrameSource : Type 0 where
  mic system mixed : FrameSource

pub record AudioFrame : Type 0 where
  pub samples : List ℕ
  pub channels : ℕ
  pub sample_rate : ℕ
  pub timestamp_ns : ℕ
  pub source : FrameSource

-- division by zero channels is guarded by the code
unfoldable pub frames_per_channel : AudioFrame → ℕ
frames_per_channel frame = elim frame.channels [ zero ↦ 0 | suc n ↦ length frame.samples / suc n ]

pub record Capabilities : Type 0 where
  pub supports_system_audio : Bool
  pub supports_per_app_capture : Bool
  pub native_sample_rates : List ℕ

pub record TokenTiming : Type 0 where
  pub token : Text
  pub timestamp_ms : ℕ

pub record TranscriptChunk : Type 0 where
  pub text : Text
  pub source : FrameSource
  pub start_ms : ℕ
  pub duration_ms : ℕ
  pub language : Option Text
  pub tokens : List TokenTiming

pub data SpeakerLabel : Type 0 where
  me them : SpeakerLabel
  named : Text → SpeakerLabel
  unknown : SpeakerLabel

pub record AttributedChunk : Type 0 where
  pub chunk : TranscriptChunk
  pub speaker : SpeakerLabel

-- what the modelled code reads of a meeting's context; the language is the text that it is shown as
pub record MeetingContext : Type 0 where
  pub title : Option Text
  pub attendees : List Text
  pub agenda : Option Text
  pub language : Option Text
