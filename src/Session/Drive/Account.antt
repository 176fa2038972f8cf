-- ===== src/Session/Drive/Account.antt =====
-- A streaming session, from its first frame to the point where every final is decided: its disk always
-- accounts for what it closed.
use scrybe.Common.{
  ◌≡◌, refl, sym, ap, ◌∙◌, true, Option, none, some, List, [], ◌∷◌, ◌++◌, map, if◌then◌else◌, arith,
}
use mathlib.Core.Path.{subst}
use mathlib.Core.List.{Perm, append-nil}
use scrybe.Common.Action.{
  Result, ok, err, pure, Keeps, Ensures, Ensures-bind, Ensures-pure, Ensures-if, Ensures-then,
  Ensures-Keeps, Ensures-for_each,
}
use scrybe.Errors.{CaptureError}
use scrybe.Text.{Text}
use scrybe.Types.{AudioFrame, FrameSource, mic, system, TranscriptChunk}
use scrybe.Pipeline.Chunker.{EmittedChunk}
use scrybe.Storage.TranscriptLog.{IsLineCodec}
use scrybe.Storage.TranscriptLog.Report.{is_orphan, is_flushed, is_suppressed}
use scrybe.Session.AcceptedFinal.{AcceptedFinal, Resolved}
use scrybe.Session.AcceptedFinal.Conservation.{outputs, advance-perm, finish-perm, finals}
use scrybe.Session.State.{Env, Session, SessionState}
use scrybe.Session.View.{view}
use scrybe.Session.Journals.Quiet.{journal_push-Leaves}
use scrybe.Session.Persist.{StoreTarget, to_mic, to_system}
use scrybe.Session.Persist.Quiet.{release_streaming_resolved-Keeps}
use scrybe.Session.Streaming.{ChunkOutcome}
use scrybe.Session.Streaming.Account.{
  Accounts, push_frame-Accounts, flush_source-Accounts, process_streaming_chunk-Accounts,
}
use scrybe.Session.Drive.{
  is_empty, release, advance_boundary, process, store_outcome, store_text, take_frame, capture,
  flush_sources, finish_boundary, wind_up, run_capture,
}
use scrybe.Session.Drive.Quiet.{push_chunker-Leaves, finish_chunkers-Leaves}
use scrybe.Session.Ledger.{IsLedger, IsSettled, entries, entry_of}
use scrybe.Session.Ledger.Steps.{boundary_whole}
use scrybe.Session.Ledger.Run.{Holding, Failed, Leaves-Holding, release-Holding, tell-Holding}

module _ (env : Env) (c : IsLineCodec env.codec) (header : Text)
    (streams : env.streams ≡ true) where
  abbrev pub Keeping : {A : Type 0} → Session env A → Type 0
  Keeping = Accounts env c header

  quiet : {A : Type 0} (m : Session env A) → Keeps (view env) m → Keeping m
  quiet m l = Leaves-Holding env c header [] m l

  release-Decided :
      (resolved : Resolved)
      → Ensures
          (Failed env c header)
          (λ _. Holding env c header [] [])
          (Holding env c header (outputs resolved) [])
          (release env resolved)
  unfolding release
  release-Decided resolved = Ensures-then _ _ _ streams (release-Holding env c header resolved)

  advance_boundary-Holding :
      (source : FrameSource)
      → Ensures
          (Failed env c header)
          (λ resolved. Holding env c header (outputs resolved) [])
          (Holding env c header [] [])
          (advance_boundary env source)
  unfolding advance_boundary
  advance_boundary-Holding source = record {
    at = λ s h.
        boundary_whole env.codec header [] _ _ (advance-perm env.to_lowercase source _ s.boundary)
          h;
  }

  is_empty-outputs : (resolved : Resolved) → is_empty resolved ≡ true → outputs resolved ≡ []
  is_empty-outputs resolved e = ground arith

  -- a release of nothing may be left out
  release_if_any :
      (resolved : Resolved)
      → Ensures
          (Failed env c header)
          (λ _. Holding env c header [] [])
          (Holding env c header (outputs resolved) [])
          (if is_empty resolved then pure tt else release env resolved)
  release_if_any resolved =
      Ensures-if (is_empty resolved) _ _
        (λ e.
          Ensures-pure _
            (λ s. subst (λ l. Holding env c header l [] s) (is_empty-outputs resolved e)))
        (λ _. release-Decided resolved)

  -- the texts for the diarizer are no part of the account
  texts_aside :
      (s : SessionState env) (mine theirs : List TranscriptChunk)
      → Holding env c header [] [] s
      → IsLedger env.codec header [] []
          (record (view env s) { mic_text_chunks = mine; sys_text_chunks = theirs })
  texts_aside s mine theirs h = record {
    records = h.records;
    whole = h.whole;
    numbered = h.numbered;
    settled = h.settled;
    lines = h.lines;
  }

  store_text-Keeping :
      (target : StoreTarget) (text : TranscriptChunk) → Keeping (store_text env target text)
  unfolding store_text
  store_text-Keeping to_mic text = record { at = λ s h. texts_aside s _ _ h }
  store_text-Keeping to_system text = record { at = λ s h. texts_aside s _ _ h }

  store_outcome-Keeping : (o : Option ChunkOutcome) → Keeping (store_outcome env o)
  unfolding store_outcome
  store_outcome-Keeping none = Ensures-pure _ (λ s h. h)
  store_outcome-Keeping (some outcome) = store_text-Keeping outcome.target outcome.text

  process-Keeping : (chunk : EmittedChunk) → Keeping (process env chunk)
  unfolding process
  process-Keeping chunk =
      Ensures-bind _ _
        (Ensures-then _ _ _ streams (process_streaming_chunk-Accounts env c header chunk))
        store_outcome-Keeping

  take_frame-Keeping : (frame : AudioFrame) → Keeping (take_frame env frame)
  unfolding take_frame
  take_frame-Keeping frame = Ensures-bind _ _ (quiet _ (journal_push-Leaves env frame)) λ _.
      Ensures-bind _ _ (advance_boundary-Holding frame.source) λ progressed.
        Ensures-bind _ _ (release_if_any progressed) λ _.
          Ensures-bind _ _ (Ensures-then _ _ _ streams (push_frame-Accounts env c header frame))
            λ _. Ensures-bind _ _ (quiet _ (push_chunker-Leaves env frame frame.source)) λ chunks.
              Ensures-for_each (λ _. Holding env c header [] []) (process env)
                (λ x xs. process-Keeping x) chunks

  pub capture-Keeping :
      (stream : List (Result CaptureError AudioFrame)) → Keeping (capture env stream)
  unfolding capture
  capture-Keeping [] = Ensures-pure _ (λ s h. h)
  capture-Keeping (err e ∷ rest) = Ensures-pure _ (λ s h. h)
  capture-Keeping (ok frame ∷ rest) =
      Ensures-bind _ _ (take_frame-Keeping frame) (λ _. capture-Keeping rest)

  flush_sources-Keeping : Keeping (flush_sources env)
  unfolding flush_sources
  flush_sources-Keeping =
      Ensures-bind _ _ (flush_source-Accounts env c header mic)
        (λ _. flush_source-Accounts env c header system)

  -- the account, with the boundary empty
  abbrev Emptied : List AcceptedFinal → SessionState env → Type 0
  Emptied hand s = Holding env c header hand [] s × (s.boundary.pending ≡ [])

  finish_boundary-Emptied :
      Ensures
        (Failed env c header)
        (λ resolved. Emptied (outputs resolved))
        (Holding env c header [] [])
        (finish_boundary env)
  unfolding finish_boundary
  finish_boundary-Emptied = record {
    at = λ s h. (
      boundary_whole env.codec header [] _ _
          (subst (λ l. Perm l (finals s.boundary.pending)) (sym (append-nil _))
            (finish-perm env.to_lowercase s.boundary))
          h,
      refl,
    );
  }

  release-Emptied :
      (resolved : Resolved)
      → Ensures
          (Failed env c header)
          (λ _. Emptied [])
          (Emptied (outputs resolved))
          (release env resolved)
  unfolding release
  release-Emptied resolved = Ensures-then _ _ _ streams (
      Ensures-Keeps _ (λ seen. seen.0.pending ≡ []) (release_streaming_resolved-Keeps env resolved)
        (release-Holding env c header resolved))

  wind_up-Emptied :
      Ensures (Failed env c header) (λ _. Emptied []) (Holding env c header [] []) (wind_up env)
  unfolding wind_up
  wind_up-Emptied = Ensures-bind _ _ (Ensures-then _ _ _ streams flush_sources-Keeping) λ _.
      Ensures-bind _ _ (quiet _ (finish_chunkers-Leaves env)) λ tail.
        Ensures-bind _ _ (tell-Holding env c header [] [] _) λ _.
          Ensures-bind _ _
            (Ensures-for_each (λ _. Holding env c header [] []) (process env)
              (λ x xs. process-Keeping x) tail)
            λ _. Ensures-bind _ _ finish_boundary-Emptied release-Emptied

  abbrev pub Decided : SessionState env → Type 0
  Decided s = IsSettled env.codec header (view env s)

  Emptied-Decided : (s : SessionState env) → Emptied [] s → Decided s
  Emptied-Decided s (l, e) = record {
    records = l.records;
    whole = l.whole;
    numbered = l.numbered;
    settled =
        let done = entries is_flushed l.records in
        let rejected = entries is_suppressed l.records in
        subst (λ es. Perm (entries is_orphan l.records) (done ++ es)) (append-nil rejected)
          (subst
            (λ ps.
              Perm (entries is_orphan l.records) (done ++ (rejected ++ map entry_of (finals ps))))
            e l.settled);
    lines = l.lines ∙ ap (λ t. header ++ t) (append-nil _);
  }

  pub run_capture-Decided :
      (stream : List (Result CaptureError AudioFrame))
      → Ensures
          (Failed env c header)
          (λ _. Decided)
          (Holding env c header [] [])
          (run_capture env stream)
  unfolding run_capture
  run_capture-Decided stream =
      Ensures-bind _ _ (capture-Keeping stream)
        λ terminal. Ensures-bind _ _ wind_up-Emptied λ _. Ensures-pure _ Emptied-Decided
