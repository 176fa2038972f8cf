-- ===== src/Pipeline/Normalize.antt =====
-- scrybe-core/src/pipeline/normalize.rs: a source's native frames turned into mono at the rate of the
-- recognizer. The resampler and the mean of a frame's channels compute in `f32`, so they are
-- parameters; the formats, the counters and the order of the calls are the code's.
use scrybe.Common.{
  ℕ, zero, suc, ◌+◌, ◌/◌, ◌%◌, not, ◌||◌, Option, none, some, List, [], ◌∷◌, ◌==◌, length, take,
  drop, if◌then◌else◌,
}
use scrybe.Common.Words.{u64_mod, sat_add_u64}
use scrybe.Common.Action.{Result, ok, err}
use scrybe.Errors.{PipelineError, resample, invalid_frame}
use scrybe.Types.{AudioFrame, FrameSource}

-- the target rate, 16 kHz
abbrev pub stt_sample_rate : ℕ
stt_sample_rate = 16000

-- the arithmetic on samples
pub record Resampling : Type 1 where
  pub StreamingResampler : Type 0
  pub new_resampler : ℕ → ℕ → Option StreamingResampler
  pub push_resampler : StreamingResampler → List ℕ → StreamingResampler × List ℕ
  pub finish_resampler : StreamingResampler → StreamingResampler × List ℕ
  pub resample_linear : List ℕ → ℕ → ℕ → Option (List ℕ)
  pub mean : List ℕ → ℕ

unfoldable pub validate_frame_format : ℕ → ℕ → ℕ → ℕ → ℕ → Result PipelineError (Unit {0})
validate_frame_format index frame_channels frame_rate channels sample_rate =
    if sample_rate == 0
      || channels == 0
      || not (frame_rate == sample_rate)
      || not (frame_channels == channels)
    then err (invalid_frame index)
    else ok tt

module _ (env : Resampling) where
  open env use {StreamingResampler, new_resampler, push_resampler, finish_resampler, mean}

  -- the mean of each of the first frames; a remainder is left out
  unfoldable pub downmix_frames : ℕ → ℕ → List ℕ → List ℕ
  downmix_frames zero chans samples = []
  downmix_frames (suc frames) chans samples =
      mean (take chans samples) ∷ downmix_frames frames chans (drop chans samples)

  unfoldable pub downmix_to_mono : List ℕ → ℕ → List ℕ
  downmix_to_mono interleaved zero = []
  downmix_to_mono interleaved (suc zero) = interleaved
  downmix_to_mono interleaved (suc (suc n)) =
      downmix_frames (length interleaved / suc (suc n)) (suc (suc n)) interleaved

  pub record LiveFormat : Type 0 where
    pub sample_rate : ℕ
    pub channels : ℕ
    pub resampler : StreamingResampler

  pub record SourceNormalizer : Type 0 where
    pub source : FrameSource
    pub live : Option LiveFormat
    pub frames_seen : ℕ
    pub emitted_samples : ℕ

  abbrev pub new : FrameSource → SourceNormalizer
  new source = record { source = source; live = none; frames_seen = 0; emitted_samples = 0 }

  -- the rate and the channels that a frame is held to
  abbrev pub expected : Option LiveFormat → AudioFrame → ℕ × ℕ
  expected none frame = (frame.sample_rate, frame.channels)
  expected (some live) frame = (live.sample_rate, live.channels)

  -- the source's format, made by its first frame
  established : Option LiveFormat → ℕ → ℕ → Option LiveFormat
  established (some live) sample_rate channels = some live
  established none sample_rate channels = elim (new_resampler sample_rate stt_sample_rate) [
    | none ↦ none
    | some resampler ↦
        some (record { sample_rate = sample_rate; channels = channels; resampler = resampler })
  ]

  -- `push` once the frame's format is accepted
  convert :
      AudioFrame
      → Option LiveFormat
      → SourceNormalizer
      → Result PipelineError (List ℕ) × SourceNormalizer
  convert frame none n = (err (resample frame.sample_rate), record n { live = none })
  convert frame (some live) n =
      let (resampler, out) =
        push_resampler live.resampler (downmix_to_mono frame.samples live.channels) in
      (
        ok out,
        record n {
          live = some (record live { resampler = resampler });
          emitted_samples = sat_add_u64 n.emitted_samples (length out);
        },
      )

  accepted :
      AudioFrame
      → ℕ
      → ℕ
      → SourceNormalizer
      → Result PipelineError (Unit {0})
      → Result PipelineError (List ℕ) × SourceNormalizer
  unfolding convert established
  accepted frame sample_rate channels n (err e) = (err e, n)
  accepted frame sample_rate channels n (ok _) =
      convert frame (established n.live sample_rate channels)
        (record n { frames_seen = (n.frames_seen + 1) % u64_mod })

  unfoldable pub push :
      AudioFrame → SourceNormalizer → Result PipelineError (List ℕ) × SourceNormalizer
  unfolding accepted
  push frame n =
      let (sample_rate, channels) = expected n.live frame in
      accepted frame sample_rate channels n
        (validate_frame_format n.frames_seen frame.channels frame.sample_rate channels sample_rate)

  unfoldable pub finish : SourceNormalizer → SourceNormalizer × List ℕ
  finish n = elim n.live [
    | none ↦ (n, [])
    | some live ↦
        let (resampler, out) = finish_resampler live.resampler in
        (
          record n {
            live = some (record live { resampler = resampler });
            emitted_samples = sat_add_u64 n.emitted_samples (length out);
          },
          out,
        )
  ]
