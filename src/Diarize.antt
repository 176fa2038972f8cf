-- ===== src/Diarize.antt =====
-- scrybe-core/src/diarize/mod.rs and kind.rs: who speaks in a call, by the channel it came from.
pub mod Channels
mod Tests
use scrybe.Common.{
  ℕ, ◌<◌, Bool, not, ◌&&◌, ◌||◌, Option, none, some, List, [], ◌∷◌, ◌++◌, map, ltb, leb, ◌==◌,
  length, if◌then◌else◌,
}
use scrybe.Common.Sorting.{sort_by}
use scrybe.Text.{Text, text_eq}
use scrybe.Types.{
  FrameSource, mic, system, mixed, Capabilities, TranscriptChunk, AttributedChunk, SpeakerLabel, me,
  them, MeetingContext,
}

pub data DiarizerKind : Type 0 where
  binary_channel pyannote_onnx : DiarizerKind

-- "binary-channel" and "pyannote-onnx"
abbrev diarizer_kind_binary_channel : Text
diarizer_kind_binary_channel =
    98 ∷ 105 ∷ 110 ∷ 97 ∷ 114 ∷ 121 ∷ 45 ∷ 99 ∷ 104 ∷ 97 ∷ 110 ∷ 110 ∷ 101 ∷ 108 ∷ []

abbrev diarizer_kind_pyannote_onnx : Text
diarizer_kind_pyannote_onnx =
    112 ∷ 121 ∷ 97 ∷ 110 ∷ 110 ∷ 111 ∷ 116 ∷ 101 ∷ 45 ∷ 111 ∷ 110 ∷ 110 ∷ 120 ∷ []

unfoldable pub from_config_str : Text → Option DiarizerKind
from_config_str s =
    if text_eq s diarizer_kind_binary_channel
    then some binary_channel
    else if text_eq s diarizer_kind_pyannote_onnx
    then some pyannote_onnx
    else none

abbrev pub as_str : DiarizerKind → Text
as_str binary_channel = diarizer_kind_binary_channel
as_str pyannote_onnx = diarizer_kind_pyannote_onnx

unfoldable pub requires_neural : Capabilities → MeetingContext → Bool
requires_neural capabilities ctx =
    not capabilities.supports_system_audio || leb 3 (length ctx.attendees)

unfoldable pub select_kind : Option DiarizerKind → Capabilities → MeetingContext → DiarizerKind
unfolding requires_neural
select_kind (some kind) capabilities ctx = kind
select_kind none capabilities ctx =
    if requires_neural capabilities ctx then pyannote_onnx else binary_channel

abbrev pub enforce_source : TranscriptChunk → FrameSource → TranscriptChunk
enforce_source chunk source = record chunk { source = source }

abbrev pub source_order : FrameSource → ℕ
source_order mic = 0
source_order system = 1
source_order mixed = 2

abbrev pub attribute : FrameSource → SpeakerLabel → TranscriptChunk → AttributedChunk
attribute source speaker chunk = record { chunk = enforce_source chunk source; speaker = speaker }

-- the order of `sort_by_key` on the start and the source
abbrev pub timeline : AttributedChunk → AttributedChunk → Bool
timeline a b =
    ltb a.chunk.start_ms b.chunk.start_ms
    || a.chunk.start_ms == b.chunk.start_ms
      && leb (source_order a.chunk.source) (source_order b.chunk.source)

-- `BinaryChannelDiarizer`
unfoldable pub diarize : List TranscriptChunk → List TranscriptChunk → List AttributedChunk
diarize mic_chunks sys_chunks =
    sort_by timeline (map (attribute mic me) mic_chunks ++ map (attribute system them) sys_chunks)
