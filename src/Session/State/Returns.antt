-- ===== src/Session/State/Returns.antt =====
-- Effects that return: with a disk that takes every write and a provider that answers, nothing ends
-- the session early. What is still in the chunkers is followed beside it.
use scrybe.Common.{ℕ, ◌<◌, ◌≡◌, true, false, Option, none, some, List}
use scrybe.Common.Action.{Result, ok, err, Outcome, Ensures}
use scrybe.Errors.{SttError, CoreError}
use scrybe.Text.{Text}
use scrybe.Types.{TranscriptChunk}
use scrybe.Pipeline.Chunker.{Chunker}
use scrybe.Pipeline.Normalize.{stt_sample_rate}
use scrybe.Session.State.{
  Env, AudioChunk, SessionState, Session, Notice, appended, append_durable, tell, settled, ask_stt,
}

module _ (env : Env) where
  pub record Chunkers : Type 0 where
    pub mine : Chunker env.listening
    pub theirs : Option (Chunker env.listening)

  abbrev pub chunkers : SessionState env → Chunkers
  chunkers s = record { mine = s.mic_chunker; theirs = s.system_chunker }

  -- what the outside grants to a session in batch mode
  pub record Grants : Type 0 where
    pub batch : env.streams ≡ false
    pub writes : (w : env.World) → (env.write_fault w).1 ≡ none
    pub spawns : (w : env.World) → (env.spawns w).1 ≡ true
    pub answers :
        (audio : AudioChunk) (w : env.World)
        → (chunk : TranscriptChunk) × ((env.transcribe audio w).1 ≡ ok chunk)
    pub resamples :
        (samples : List ℕ) (rate : ℕ)
        → 0 < rate
        → (out : List ℕ) × (env.resampling.resample_linear samples rate stt_sample_rate ≡ some out)

  -- the action returns, and what held of the chunkers holds
  abbrev pub Never : SessionState env → Type 0
  Never s = ⊥

  abbrev pub Returns : {A : Type 0} → (Chunkers → Type 0) → Session env A → Type 0
  Returns K m = Ensures Never (λ _ s. K (chunkers s)) (λ s. K (chunkers s)) m

  module _ (K : Chunkers → Type 0) (grants : Grants) where
    appended-Returns :
        (line : Text) (w : env.World) (fault : Option ℕ) (s : SessionState env)
        → fault ≡ none
        → K (chunkers s)
        → Outcome Never (λ _ t. K (chunkers t)) (appended env line w fault s)
    unfolding appended
    appended-Returns line w none s e k = k
    appended-Returns line w (some n) s e k = absurd (cc)

    pub append_durable-Returns : (line : Text) → Returns K (append_durable env line)
    unfolding append_durable
    append_durable-Returns line = record {
      at = λ s k. appended-Returns line _ _ s (grants.writes s.world) k;
    }

    pub tell-Returns : (notice : Notice) → Returns K (tell env notice)
    tell-Returns notice = record { at = λ s k. k }

    settled-Returns :
        (wrap : SttError → CoreError) (w : env.World) (r : Result SttError TranscriptChunk)
        (chunk : TranscriptChunk) (s : SessionState env)
        → r ≡ ok chunk
        → K (chunkers s)
        → Outcome Never (λ _ t. K (chunkers t)) (settled env wrap (w, r) s)
    unfolding settled
    settled-Returns wrap w (ok a) chunk s e k = k
    settled-Returns wrap w (err a) chunk s e k = absurd (cc)

    pub transcribed-Returns : (audio : AudioChunk) → Returns K (ask_stt env (env.transcribe audio))
    unfolding ask_stt
    transcribed-Returns audio = record {
      at =
          λ s k. let (chunk, e) = grants.answers audio s.world in settled-Returns _ _ _ chunk s e k;
    }
