-- ===== src/Session/Streaming/Account.antt =====
-- A frame on its way to the recognizer, and a closed segment on its way to the transcript, keep the
-- account.
use scrybe.Common.{ℕ, refl, inl, inr, Option, none, some, List, [], ◌∷◌, Option-cases}
use scrybe.Common.Action.{Ensures, Ensures-bind, Ensures-raise, Ensures-pure}
use scrybe.Text.{Text}
use scrybe.Types.{AudioFrame, FrameSource, TranscriptChunk}
use scrybe.Pipeline.Chunker.{EmittedChunk}
use scrybe.Storage.TranscriptLog.{IsLineCodec, append_pending, append_partial}
use scrybe.Session.AcceptedFinal.{AcceptedFinal}
use scrybe.Session.AcceptedFinal.Conservation.{outputs, push-perm}
use scrybe.Session.State.{
  Env, Session, StreamingStage, partial, final, StreamingUpdate, log_durable,
}
use scrybe.Session.View.{leaves_rules, Leaves-ask_stt}
use scrybe.Session.Streaming.{
  accept, heard, log_partial, push_frame, flush_source, push_boundary, route,
  process_streaming_chunk, attributed_to, pending_record, partial_record,
}
use scrybe.Session.Streaming.Quiet.{set_normalizer-Leaves, keep_normalizer-Leaves, finalize-Leaves}
use scrybe.Session.Ledger.Steps.{pending_whole, partial_whole, boundary_whole}
use scrybe.Session.Ledger.Lines.{Ledger-Torn, record_cut}
use scrybe.Session.Ledger.Run.{Holding, Failed, Leaves-Holding, release-Holding}

module _ (env : Env) (c : IsLineCodec env.codec) (header : Text) where
  -- what keeps the account with nothing in hand
  abbrev pub Accounts : {A : Type 0} → Session env A → Type 0
  Accounts =
      Ensures (Failed env c header) (λ _. Holding env c header [] []) (Holding env c header [] [])

  log_partial-Accounts :
      (source : FrameSource) (stage : StreamingStage) (chunk : TranscriptChunk)
      → Accounts (log_partial env source stage chunk)
  unfolding log_partial log_durable append_partial
  log_partial-Accounts source final chunk =
      Ensures-raise _ (λ s h. Ledger-Torn env.codec header [] h)
  log_partial-Accounts source partial chunk =
      Ensures-bind {Q = λ _. Holding env c header [] []} _ _
        (record {
          at = λ s h. elim (Option-cases (env.write_fault s.world).1) [
            | inl e ↦
                rw e
                  (partial_whole env.codec c header (attributed_to source chunk) [] _ refl refl h)
            | inr (n, e) ↦ rw e (
                record_cut env.codec header [] _
                  (partial_record s.live.wal.next_seq (attributed_to source chunk)) n refl h)
          ];
        })
        (λ _. Ensures-pure _ (λ s h. h))

  heard-Accounts :
      (source : FrameSource) (update : Option StreamingUpdate) → Accounts (heard env source update)
  unfolding heard
  heard-Accounts source none = Ensures-pure _ (λ s h. h)
  heard-Accounts source (some update) = log_partial-Accounts source update.stage update.chunk

  accept-Accounts :
      (source : FrameSource) (samples : List ℕ) (offset : ℕ)
      → Accounts (accept env source samples offset)
  unfolding accept
  accept-Accounts source [] offset = Ensures-pure _ (λ s h. h)
  accept-Accounts source (w ∷ ws) offset =
      Ensures-bind _ _ (Leaves-Holding env c header [] _ (Leaves-ask_stt _))
        (λ update. heard-Accounts source update)

  pub push_frame-Accounts : (frame : AudioFrame) → Accounts (push_frame env frame)
  unfolding push_frame
  push_frame-Accounts frame =
      Ensures-bind _ _ (Leaves-Holding env c header [] _ (search leaves_rules)) λ n.
        Ensures-bind _ _
          (Leaves-Holding env c header [] _ (keep_normalizer-Leaves env frame.source _))
          (λ samples. accept-Accounts _ samples _)

  pub flush_source-Accounts : (source : FrameSource) → Accounts (flush_source env source)
  unfolding flush_source
  flush_source-Accounts source =
      Ensures-bind _ _ (Leaves-Holding env c header [] _ (search leaves_rules)) λ n.
        Ensures-bind _ _ (Leaves-Holding env c header [] _ (set_normalizer-Leaves env source _))
          (λ _. accept-Accounts _ _ _)

  -- a final that is in hand goes to the boundary, and what the boundary releases is in hand
  push_boundary-Holding :
      (f : AcceptedFinal) (duration : ℕ)
      → Ensures
          (Failed env c header)
          (λ resolved. Holding env c header (outputs resolved) [])
          (Holding env c header (f ∷ []) [])
          (push_boundary env f duration)
  unfolding push_boundary
  push_boundary-Holding f duration = record {
    at = λ s h.
        boundary_whole env.codec header (f ∷ []) _ _ (push-perm env.to_lowercase f _ _ s.boundary)
          h;
  }

  abbrev closed : EmittedChunk → TranscriptChunk → ℕ → AcceptedFinal
  closed chunk transcript seq = record {
    transcript = transcript;
    source = chunk.source;
    ended_on = chunk.ended_on;
    wal_seq = some seq;
  }

  append_pending-Holding :
      (chunk : EmittedChunk) (transcript : TranscriptChunk)
      → Ensures
          (Failed env c header)
          (λ seq. Holding env c header (closed chunk transcript seq ∷ []) [])
          (Holding env c header [] [])
          (log_durable env
            (λ log. pending_record log.next_seq (attributed_to chunk.source transcript))
            (append_pending env.codec (attributed_to chunk.source transcript)))
  unfolding log_durable append_pending
  append_pending-Holding chunk transcript = record {
    at = λ s h. elim (Option-cases (env.write_fault s.world).1) [
      | inl e ↦ rw e (
          pending_whole env.codec c header (closed chunk transcript s.live.wal.next_seq) [] _ refl
            refl refl h)
      | inr (n, e) ↦ rw e (
          record_cut env.codec header [] _
            (pending_record s.live.wal.next_seq (attributed_to chunk.source transcript)) n refl h)
    ];
  }

  route-Accounts :
      (chunk : EmittedChunk) (o : Option TranscriptChunk) → Accounts (route env chunk o)
  unfolding route
  route-Accounts chunk none = Ensures-pure _ (λ s h. h)
  route-Accounts chunk (some transcript) =
      Ensures-bind _ _ (append_pending-Holding chunk transcript) λ seq.
        Ensures-bind _ _ (push_boundary-Holding (closed chunk transcript seq) chunk.duration)
          λ ready.
            Ensures-bind _ _ (release-Holding env c header ready) λ _. Ensures-pure _ (λ s h. h)

  pub process_streaming_chunk-Accounts :
      (chunk : EmittedChunk) → Accounts (process_streaming_chunk env chunk)
  unfolding process_streaming_chunk
  process_streaming_chunk-Accounts chunk =
      Ensures-bind _ _ (Leaves-Holding env c header [] _ (finalize-Leaves env chunk))
        (λ transcript. route-Accounts chunk transcript)
