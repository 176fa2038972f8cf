-- ===== src/Session/Drive.antt =====
-- scrybe-core/src/session.rs: the capture loop of `drive_session`, from the first frame to the point
-- where every final is resolved. The capture stream is the list of what it yields.
pub mod Going
pub mod Returns
pub mod Quiet
pub mod Account
pub mod Hearing
pub mod Heard
pub mod Unfed
pub mod Fed
pub mod Crash
use scrybe.Common.{
  Bool, true, false, Option, none, some, List, [], ◌∷◌, ◌++◌, length, if◌then◌else◌,
}
use scrybe.Common.Action.{Result, ok, err, pure, gets, modify, ◌>>=◌, ◌>>◌, for_each}
use scrybe.Errors.{CaptureError}
use scrybe.Text.{Text}
use scrybe.Types.{AudioFrame, FrameSource, mic, system, mixed, TranscriptChunk}
use scrybe.Pipeline.Chunker
use scrybe.Pipeline.Chunker.{EmittedChunk}
use scrybe.Session.AcceptedFinal
use scrybe.Session.AcceptedFinal.{Resolved}
use scrybe.Session.State.{
  Env, Session, append_durable, report_progress, dispatch_hooks, recording, finalizing_transcript,
  session_start, consent_recorded,
}
use scrybe.Session.Journals.{anchors, elapsed_ms, source_horizon, journal_push}
use scrybe.Session.Persist.{
  StoreTarget, to_mic, to_system, release_ready, release_streaming_resolved,
}
use scrybe.Session.Streaming.{ChunkOutcome, push_frame, flush_source, process_streaming_chunk}
use scrybe.Session.Batch.{process_chunk}

-- `Resolved::is_empty`
abbrev pub is_empty : Resolved → Bool
is_empty resolved = elim resolved.accepted [
  | [] ↦ elim resolved.suppressed [ [] ↦ true | _ ∷ _ ↦ false ]
  | _ ∷ _ ↦ false
]

abbrev pub emitted : Option EmittedChunk → List EmittedChunk
emitted none = []
emitted (some chunk) = chunk ∷ []

module _ (env : Env) where
  -- a release by the path that the session runs on
  unfoldable pub release : Resolved → Session env (Unit {0})
  release resolved =
      if env.streams
      then release_streaming_resolved env resolved
      else release_ready env resolved.accepted

  -- the boundary's `advance`, from the frame's own source
  unfoldable pub advance_boundary : FrameSource → Session env Resolved
  advance_boundary source s =
      let (b, resolved) =
        AcceptedFinal.advance env.to_lowercase source
          (source_horizon (anchors s.journals) source (elapsed_ms s.journals source) 0)
          s.boundary in
      pure resolved (record s { boundary = b })

  store_text : StoreTarget → TranscriptChunk → Session env (Unit {0})
  store_text to_mic text =
      modify (λ s. record s { mic_text_chunks = s.mic_text_chunks ++ text ∷ [] })
  store_text to_system text =
      modify (λ s. record s { sys_text_chunks = s.sys_text_chunks ++ text ∷ [] })

  store_outcome : Option ChunkOutcome → Session env (Unit {0})
  unfolding store_text
  store_outcome none = pure tt
  store_outcome (some outcome) = store_text outcome.target outcome.text

  unfoldable pub process : EmittedChunk → Session env (Unit {0})
  unfolding store_outcome
  process chunk = do
    outcome ← (if env.streams then process_streaming_chunk env chunk else process_chunk env chunk)
    store_outcome outcome

  push_mic : AudioFrame → Session env (List EmittedChunk)
  push_mic frame s =
      let (c, out) = Chunker.push env.listening frame s.mic_chunker in
      pure (emitted out) (record s { mic_chunker = c })

  -- without a voice detector for it, the system's audio is not chunked
  push_system :
      AudioFrame → Option (Chunker.Chunker env.listening) → Session env (List EmittedChunk)
  push_system frame none s = pure [] s
  push_system frame (some chunker) s =
      let (c, out) = Chunker.push env.listening frame chunker in
      pure (emitted out) (record s { system_chunker = some c })

  unfoldable pub push_chunker : AudioFrame → FrameSource → Session env (List EmittedChunk)
  unfolding push_mic push_system
  push_chunker frame system = do chunker ← gets (λ s. s.system_chunker); push_system frame chunker
  push_chunker frame _ = push_mic frame

  -- one turn of the loop
  unfoldable pub take_frame : AudioFrame → Session env (Unit {0})
  take_frame frame = do
    journal_push env frame
    progressed ← advance_boundary frame.source
    if is_empty progressed then pure tt else release progressed
    if env.streams then push_frame env frame else pure tt
    chunks ← push_chunker frame frame.source
    for_each chunks process

  -- the loop; it ends with the stream, or with the error that the stream yields
  unfoldable pub capture : List (Result CaptureError AudioFrame) → Session env (Option CaptureError)
  capture [] = pure none
  capture (err e ∷ rest) = pure (some e)
  capture (ok frame ∷ rest) = let later = capture rest in take_frame frame >>= λ _. later

  finish_system : Option (Chunker.Chunker env.listening) → Session env (List EmittedChunk)
  finish_system none s = pure [] s
  finish_system (some chunker) s =
      let (c, out) = Chunker.finish env.listening chunker in
      pure (emitted out) (record s { system_chunker = some c })

  finish_mic : Session env (List EmittedChunk)
  finish_mic s =
      let (c, out) = Chunker.finish env.listening s.mic_chunker in
      pure (emitted out) (record s { mic_chunker = c })

  -- the last chunks of both chunkers, the microphone's first
  unfoldable pub finish_chunkers : Session env (List EmittedChunk)
  unfolding finish_system finish_mic
  finish_chunkers = do
    mine ← finish_mic
    chunker ← gets (λ s. s.system_chunker)
    theirs ← finish_system chunker
    pure (mine ++ theirs)

  unfoldable pub flush_sources : Session env (Unit {0})
  flush_sources = do flush_source env mic; flush_source env system

  unfoldable pub finish_boundary : Session env Resolved
  finish_boundary s =
      pure (AcceptedFinal.finish env.to_lowercase s.boundary)
        (record s { boundary = record s.boundary { pending = [] } })

  -- what follows the loop, until every final is resolved
  unfoldable pub wind_up : Session env (Unit {0})
  wind_up = do
    if env.streams then flush_sources else pure tt
    tail ← finish_chunkers
    report_progress env (finalizing_transcript (length tail))
    for_each tail process
    remaining ← finish_boundary
    release remaining

  unfoldable pub run_capture :
      List (Result CaptureError AudioFrame) → Session env (Option CaptureError)
  run_capture stream = do terminal ← capture stream; wind_up; pure terminal
