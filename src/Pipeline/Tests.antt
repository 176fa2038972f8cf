-- ===== src/Pipeline/Tests.antt =====
-- The chunker's and the merge's theorems at a concrete stream and two short channels.
use scrybe.Common.{
  ℕ, zero, suc, ◌+◌, ◌*◌, ◌/◌, ◌≡◌, refl, inl, Option, none, some, List, [], ◌∷◌, ◌++◌, All,
  replicate, length, max, leb, ◌-◌, arith, inr, ◌==◌, if◌then◌else◌,
}
use scrybe.Common.Int.{pos}
use scrybe.Pipeline.Merge.{read_segments, interleave_stereo}
use scrybe.Pipeline.Merge.Segments.{Holds, concat, read_segments-Holds}
use scrybe.Pipeline.Merge.Stereo.{
  lefts, rights, mic_prefix, system_prefix, IsPadded, interleave_stereo-channels,
}
use scrybe.Common.Action.{Outcome}
use scrybe.Pipeline.Journal
use scrybe.Pipeline.Journal.{JournalMsg, Disk, idle, run_writer}
use scrybe.Pipeline.Journal.Holding.{sent}
use scrybe.Pipeline.Journal.ReadBack.{Fits, ReadsBack, ReadsFirst, run_writer-ReadsBack}
use scrybe.Types.{AudioFrame, mic}
use scrybe.Pipeline.Chunker.{
  Listening, Chunker, ChunkerConfig, speech, new, VadDecision, silence, frame_duration,
}
use scrybe.Pipeline.Chunker.Buffer.{IsWellFormed}
use scrybe.Pipeline.Chunker.Heard.{Splits, push-Splits}
use scrybe.Pipeline.Chunker.Frames.{chunks_of, frames_of, IsSound, frames_of-chunks_of}

-- a detector that always hears speech, and durations in whole nanoseconds
abbrev listening : Listening
listening = record {
  Vad = Unit;
  decide = λ vad frame. (vad, speech);
  from_secs_ratio = λ samples rate. samples * 1000;
}

abbrev frame : AudioFrame
frame = record {
  samples = 1 ∷ 2 ∷ 3 ∷ 4 ∷ [];
  channels = 2;
  sample_rate = 16000;
  timestamp_ns = 77;
  source = mic;
}

abbrev short : ChunkerConfig
short = record {
  max_chunk = 4000;
  min_speech_before_silence_split = 1000;
  silence_split_after = 1000;
}

abbrev chunker : Chunker listening
chunker = new listening short tt mic

chunker-IsWellFormed : IsWellFormed listening chunker
chunker-IsWellFormed = record { counted = refl; started = refl; not_due = inl refl }

-- a detector that hears speech in the frames that begin with a sample other than 0
abbrev threshold : Listening
threshold = record {
  Vad = Unit;
  decide = λ vad frame. elim frame.samples as (λ _. Unit × VadDecision) [
    | [] ↦ (vad, silence)
    | s ∷ _ ↦ (vad, if s == 0 then silence else speech)
  ];
  from_secs_ratio = λ samples rate. samples * 1000;
}

-- one frame of speech is buffered, and the next frame is silent
abbrev spoken_to : Chunker threshold
spoken_to = record {
  config = short;
  vad = tt;
  source = mic;
  pending = frame ∷ [];
  pending_duration = 2000;
  speech_duration = 2000;
  trailing_silence = 0;
  chunk_start = some 77;
}

abbrev quiet_frame : AudioFrame
quiet_frame = record frame { samples = 0 ∷ 0 ∷ [] }

push-Splits_example : Splits threshold tt quiet_frame spoken_to
unfolding frame_duration
push-Splits_example =
    push-Splits threshold tt quiet_frame spoken_to
      (record { counted = refl; started = refl; not_due = inr (refl, refl) })
      (record { listened = refl; speech_counted = refl; silence_counted = refl })

frames_of-chunks_of_example :
    (frames_of (chunks_of listening (replicate 5 frame) chunker) ≡ [] ++ replicate 5 frame)
    × All (IsSound listening) (chunks_of listening (replicate 5 frame) chunker)
frames_of-chunks_of_example =
    frames_of-chunks_of listening (replicate 5 frame) chunker chunker-IsWellFormed

-- two segments, the second one torn
abbrev journal : ℕ → Option (List ℕ)
journal zero = some (1 ∷ 0 ∷ 0 ∷ 0 ∷ 2 ∷ 1 ∷ 0 ∷ 0 ∷ [])
journal (suc zero) = some (0 ∷ 0 ∷ 0 ∷ 1 ∷ 9 ∷ 9 ∷ [])
journal (suc (suc n)) = none

abbrev journalled : List (List ℕ)
journalled = (1 ∷ 258 ∷ []) ∷ (16777216 ∷ []) ∷ []

journal-Holds : Holds journal 0 journalled
unfolding Journal.samples_to_le_bytes Journal.to_le_bytes
journal-Holds = (
  (_, refl, ([], refl, omega arith, (omega arith, (omega arith, tt)))),
  ((_, refl, (9 ∷ 9 ∷ [], refl, omega arith, (omega arith, tt))), refl),
)

read_segments-Holds_example : read_segments journal 3 ≡ some (concat journalled)
read_segments-Holds_example = read_segments-Holds journal journalled 3 journal-Holds (omega arith)

abbrev mic_samples : List ℕ
mic_samples = 5 ∷ 6 ∷ []

abbrev system_samples : List ℕ
system_samples = 7 ∷ 8 ∷ []

abbrev side_by_side : List ℕ
side_by_side = 4 ∷ 8 ∷ 2 ∷ 2 ∷ []

-- the system began 2 ms later, at 1000 samples a second
interleave_stereo-channels_example :
    let out = interleave_stereo mic_samples system_samples (pos 2) 1000 in
    let p = mic_prefix (pos 2) 1000 in
    let q = system_prefix (pos 2) 1000 in
    let len = max (p + length mic_samples) (q + length system_samples) in
    IsPadded p len mic_samples (lefts out)
    × IsPadded q len system_samples (rights out)
    × (length out ≡ 2 * len)
interleave_stereo-channels_example =
    interleave_stereo-channels mic_samples system_samples (pos 2) 1000

abbrev half_way : ℕ → ℕ → ℕ
half_way l r = (l + r) / 2

-- a disk that works for so many operations
abbrev disk : Disk
disk = record { World = ℕ; attempt = λ left. (left - 1, leb 1 left) }

-- at one sample in a second the segment rotates after thirty samples
abbrev messages : List JournalMsg
messages =
    Journal.frame (replicate 31 1065353216)
    ∷ Journal.frame []
    ∷ Journal.frame (7 ∷ 8 ∷ [])
    ∷ Journal.finish
    ∷ Journal.frame (9 ∷ [])
    ∷ []

messages-Fits : Fits (sent messages)
messages-Fits = ground arith

run_writer-ReadsBack_example :
    Outcome
      (ReadsFirst disk messages)
      (ReadsBack disk 1 messages)
      (run_writer disk mic 1 1 messages (idle disk 20))
run_writer-ReadsBack_example =
    run_writer-ReadsBack disk mic 1 1 messages 20 (omega arith) messages-Fits
