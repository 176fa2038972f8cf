-- ===== src/Session/View.antt =====
-- What the properties of a session read of its state, and the actions that leave all of it alone.
use scrybe.Common.{arith, ◌≡◌, refl, List}
use scrybe.Common.Action.{
  Keeps, keeps_rules, Result, ok, err, continue, ◌>>=◌, pure, raise, gets, modify, for_each,
}
use scrybe.Errors.{SttError, PipelineError}
use scrybe.Text.{Text}
use scrybe.Types.{TranscriptChunk}
use scrybe.Storage.TranscriptLog.{TranscriptPartialLog}
use scrybe.Session.AcceptedFinal.{AcceptedFinalBoundary}
use scrybe.Session.State.{Env, Session, SessionState, Notice, ask, ask_stt, lift_pipeline}

pub record View : Type 0 where
  pub transcript : Text
  pub wal : TranscriptPartialLog
  pub boundary : AcceptedFinalBoundary
  pub mic_text_chunks : List TranscriptChunk
  pub sys_text_chunks : List TranscriptChunk
  pub notices : List Notice

module _ (env : Env) where
  abbrev pub view : SessionState env → View
  view s = record {
    transcript = s.transcript;
    wal = s.live.wal;
    boundary = s.boundary;
    mic_text_chunks = s.mic_text_chunks;
    sys_text_chunks = s.sys_text_chunks;
    notices = s.notices;
  }

module _ {env : Env} where
  abbrev pub Leaves : {A : Type 0} → Session env A → Type 0
  Leaves = Keeps (view env)

  pub Leaves-modify :
      (f : SessionState env → SessionState env)
      → ((s : SessionState env) → view env (f s) ≡ view env s)
      → Leaves (modify f)
  Leaves-modify f h = record { same = h }

  pub Leaves-ask : {A : Type 0} (call : env.World → env.World × A) → Leaves (ask env call)
  Leaves-ask call = record { same = λ s. refl }

  pub Leaves-ask_stt :
      {A : Type 0} (call : env.World → env.World × Result SttError A) → Leaves (ask_stt env call)
  unfolding ask_stt
  Leaves-ask_stt call = record { same = λ s. ground arith }

  pub Leaves-lift : {A : Type 0} (r : Result PipelineError A) → Leaves (lift_pipeline env r)
  Leaves-lift (ok a) = record { same = λ s. refl }
  Leaves-lift (err e) = record { same = λ s. refl }

pub ruleset leaves_rules = (keeps_rules, Leaves-ask, Leaves-ask_stt, Leaves-lift)
