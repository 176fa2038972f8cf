-- ===== src/Session/Drive/Unfed.antt =====
-- The loop gives the journals nothing but its frames.
use scrybe.Common.{refl, Option, none, some}
use scrybe.Common.Action.{Keeps-bind, Keeps-if, Keeps-pure, Keeps-for_each}
use scrybe.Types.{AudioFrame, FrameSource, mic, system, mixed, TranscriptChunk}
use scrybe.Pipeline.Chunker
use scrybe.Pipeline.Chunker.{EmittedChunk}
use scrybe.Session.AcceptedFinal.{Resolved}
use scrybe.Session.State.{Env}
use scrybe.Session.Fed.{Unfed, unfed_rules}
use scrybe.Session.Persist.{StoreTarget, to_mic, to_system}
use scrybe.Session.Persist.Unfed.{release_streaming_resolved-Unfed, release_ready-Unfed}
use scrybe.Session.Streaming.{ChunkOutcome}
use scrybe.Session.Streaming.Unfed.{flush_source-Unfed, process_streaming_chunk-Unfed}
use scrybe.Session.Batch.Unfed.{process_chunk-Unfed}
use scrybe.Session.Drive.{
  release, advance_boundary, store_text, store_outcome, process, push_mic, push_system,
  push_chunker, finish_system, finish_mic, finish_chunkers, flush_sources, finish_boundary, wind_up,
}

module _ (env : Env) where
  pub release-Unfed : (resolved : Resolved) → Unfed (release env resolved)
  unfolding release
  release-Unfed resolved =
      Keeps-if env.streams _ _ (release_streaming_resolved-Unfed env resolved)
        (release_ready-Unfed env resolved.accepted)

  pub advance_boundary-Unfed : (source : FrameSource) → Unfed (advance_boundary env source)
  unfolding advance_boundary
  advance_boundary-Unfed source = record { same = λ s. refl }

  store_text-Unfed :
      (target : StoreTarget) (text : TranscriptChunk) → Unfed (store_text env target text)
  unfolding store_text
  store_text-Unfed to_mic text = record { same = λ s. refl }
  store_text-Unfed to_system text = record { same = λ s. refl }

  store_outcome-Unfed : (outcome : Option ChunkOutcome) → Unfed (store_outcome env outcome)
  unfolding store_outcome
  store_outcome-Unfed none = Keeps-pure tt
  store_outcome-Unfed (some outcome) = store_text-Unfed outcome.target outcome.text

  pub process-Unfed : (chunk : EmittedChunk) → Unfed (process env chunk)
  unfolding process
  process-Unfed chunk =
      Keeps-bind _ _
        (Keeps-if env.streams _ _ (process_streaming_chunk-Unfed env chunk)
          (process_chunk-Unfed env chunk))
        store_outcome-Unfed

  push_mic-Unfed : (frame : AudioFrame) → Unfed (push_mic env frame)
  unfolding push_mic
  push_mic-Unfed frame = record { same = λ s. refl }

  push_system-Unfed :
      (frame : AudioFrame) (o : Option (Chunker.Chunker env.listening))
      → Unfed (push_system env frame o)
  unfolding push_system
  push_system-Unfed frame none = record { same = λ s. refl }
  push_system-Unfed frame (some c) = record { same = λ s. refl }

  pub push_chunker-Unfed :
      (frame : AudioFrame) (source : FrameSource) → Unfed (push_chunker env frame source)
  unfolding push_chunker
  push_chunker-Unfed frame system = search (unfed_rules, push_system-Unfed)
  push_chunker-Unfed frame mic = push_mic-Unfed frame
  push_chunker-Unfed frame mixed = push_mic-Unfed frame

  finish_system-Unfed : (o : Option (Chunker.Chunker env.listening)) → Unfed (finish_system env o)
  unfolding finish_system
  finish_system-Unfed none = record { same = λ s. refl }
  finish_system-Unfed (some c) = record { same = λ s. refl }

  finish_mic-Unfed : Unfed (finish_mic env)
  unfolding finish_mic
  finish_mic-Unfed = record { same = λ s. refl }

  finish_chunkers-Unfed : Unfed (finish_chunkers env)
  unfolding finish_chunkers
  finish_chunkers-Unfed = search (unfed_rules, finish_mic-Unfed, finish_system-Unfed)

  flush_sources-Unfed : Unfed (flush_sources env)
  unfolding flush_sources
  flush_sources-Unfed =
      Keeps-bind _ _ (flush_source-Unfed env mic) (λ _. flush_source-Unfed env system)

  finish_boundary-Unfed : Unfed (finish_boundary env)
  unfolding finish_boundary
  finish_boundary-Unfed = record { same = λ s. refl }

  pub wind_up-Unfed : Unfed (wind_up env)
  unfolding wind_up
  wind_up-Unfed = Keeps-bind _ _ (Keeps-if env.streams _ _ flush_sources-Unfed (Keeps-pure tt)) λ _.
      Keeps-bind _ _ finish_chunkers-Unfed λ tail.
        Keeps-bind _ _ (record { same = λ s. refl })
          λ _.
            Keeps-bind _ _ (Keeps-for_each tail _ process-Unfed)
              λ _. Keeps-bind _ _ finish_boundary-Unfed release-Unfed
