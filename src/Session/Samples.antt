-- ===== src/Session/Samples.antt =====
-- Finals, frames and environments for the examples of a session.
use scrybe.Common.{
  ℕ, ◌+◌, ◌*◌, Bool, true, false, Option, none, some, List, [], ◌∷◌, ◌==◌, if◌then◌else◌,
}
use scrybe.Common.Action.{Result, ok, err}
use scrybe.Errors.{CaptureError, stream_closed}
use scrybe.Pipeline.Normalize
use scrybe.Pipeline.Normalize.{Resampling}
use scrybe.Pipeline.Chunker
use scrybe.Storage.TranscriptLog.LineFormat.Codec.{codec}
use scrybe.Common.Int.{pos}
use scrybe.Text.{Text}
use scrybe.Types.{FrameSource, mic, system, AudioFrame}
use scrybe.Pipeline.Chunker.{max_duration, Listening, ChunkerConfig, speech}
use scrybe.Session.AcceptedFinal.{AcceptedFinal, new}
use scrybe.Session.Opening.{DriveInputs}
use scrybe.Session.State.{Env, SessionState, no_journals, partial, final}

abbrev pub as_is : Text → Text
as_is t = t

abbrev pub said : FrameSource → AcceptedFinal
said source = record {
  transcript = record {
    text = 104 ∷ 105 ∷ [];
    source = source;
    start_ms = 0;
    duration_ms = 900;
    language = none;
    tokens = record { token = 104 ∷ 105 ∷ []; timestamp_ms = 0 } ∷ [];
  };
  source = source;
  ended_on = max_duration;
  wal_seq = none;
}

-- a detector that always hears speech, and samples passed on as they are
abbrev listening : Listening
listening = record {
  Vad = Unit;
  decide = λ vad frame. (vad, speech);
  from_secs_ratio = λ samples rate. samples * 1000;
}

abbrev resampling : Resampling
resampling = record {
  StreamingResampler = Unit;
  new_resampler = λ from to. some tt;
  push_resampler = λ r samples. (r, samples);
  finish_resampler = λ r. (r, []);
  resample_linear = λ samples from to. some samples;
  mean = λ samples. 0;
}

-- the clock and the storage are a count of the calls; the storage fails at the fault's number
abbrev pub streaming : Option ℕ → Bool → Env
streaming fault streams = record {
  listening = listening;
  resampling = resampling;
  codec = codec;
  to_lowercase = as_is;
  streams = streams;
  World = ℕ;
  now_ms = λ w. (w, pos 1000);
  spawns = λ w. (w, true);
  write_fault = λ w. (w + 1, elim fault [ none ↦ none | some n ↦ if n == w then some 3 else none ]);
  read_fails = λ w. (w, false);
  transcribe = λ audio w. (w, ok (said audio.source).transcript);
  accept = λ audio w.
      (w, ok (some (record { stage = partial; chunk = (said audio.source).transcript })));
  finalize = λ source start duration w.
      (w, ok (some (record { stage = final; chunk = (said source).transcript })));
}

abbrev frame : FrameSource → AudioFrame
frame source = record {
  samples = 0 ∷ 0 ∷ [];
  channels = 1;
  sample_rate = 16000;
  timestamp_ns = 0;
  source = source;
}

abbrev pub frames : List (Result CaptureError AudioFrame)
frames = ok (frame mic) ∷ ok (frame system) ∷ err stream_closed ∷ []

abbrev one_frame : ChunkerConfig
one_frame = record { max_chunk = 1; min_speech_before_silence_split = 1; silence_split_after = 1 }

module _ (fault : Option ℕ) (streams : Bool) where
  abbrev pub inputs : DriveInputs (streaming fault streams)
  inputs = record {
    started_at = 0;
    title = some (115 ∷ 121 ∷ []);
    mic_vad = tt;
    system_vad = some tt;
    chunker_config = one_frame;
  }

  -- the values of a session that has not begun
  abbrev pub unstarted : SessionState (streaming fault streams)
  unstarted = record {
    world = 0;
    transcript = [];
    notices = [];
    journals = no_journals;
    boundary = new;
    live = record {
      wal = record { file = none; next_seq = 0 };
      mic = Normalize.new resampling mic;
      system = Normalize.new resampling system;
    };
    mic_chunker = Chunker.new listening one_frame tt mic;
    system_chunker = none;
    mic_text_chunks = [];
    sys_text_chunks = [];
  }

abbrev pub date : ℕ → Text
date instant = 50 ∷ 48 ∷ []

abbrev pub healthy : Env
healthy = streaming none true

abbrev pub failing : Env
failing = streaming (some 5) true

abbrev pub batch : Env
batch = streaming none false
