-- ===== src/Session/Fed.antt =====
-- scrybe-core/src/session.rs: what each channel's journal writer was given. Only `SessionJournals`
-- gives it anything; what is heard and what is persisted leaves it alone.
use scrybe.Common.{ℕ, arith, refl, inl, inr, Option, none, some, List, [], Option-cases}
use scrybe.Common.Action.{Result, ok, err, continue, ◌>>=◌, pure, raise, gets, Keeps, keeps_rules}
use scrybe.Errors.{SttError, PipelineError}
use scrybe.Text.{Text}
use scrybe.Storage.TranscriptLog.{TranscriptPartialRecord, TranscriptPartialLog}
use scrybe.Session.State.{
  Env, JournalSlot, SessionJournals, SessionState, Session, append_durable, log_durable, ask,
  ask_stt, lift_pipeline, tell, Notice,
}

abbrev pub given : Option JournalSlot → List (List ℕ)
given none = []
given (some slot) = slot.writer

-- the samples of the frames that were given to the two writers, frame by frame
pub record Given : Type 0 where
  pub mine : List (List ℕ)
  pub theirs : List (List ℕ)

abbrev pub nothing : Given
nothing = record { mine = []; theirs = [] }

abbrev pub given_by : SessionJournals → Given
given_by j = record { mine = given j.mic; theirs = given j.system }

abbrev pub fed : (env : Env) → SessionState env → Given
fed env s = given_by s.journals

module _ {env : Env} where
  abbrev pub Unfed : {A : Type 0} → Session env A → Type 0
  Unfed = Keeps (fed env)

  pub append_durable-Unfed : (line : Text) → Unfed (append_durable env line)
  unfolding append_durable
  append_durable-Unfed line = record {
    same = λ s. elim (Option-cases (env.write_fault s.world).1) [
      | inl e ↦ rw e refl
      | inr (n, e) ↦ rw e refl
    ];
  }

  pub log_durable-Unfed :
      {A : Type 0} (r : TranscriptPartialLog → TranscriptPartialRecord)
      (whole : TranscriptPartialLog → TranscriptPartialLog × A)
      → Unfed (log_durable env r whole)
  unfolding log_durable
  log_durable-Unfed r whole = record {
    same = λ s. elim (Option-cases (env.write_fault s.world).1) [
      | inl e ↦ rw e refl
      | inr (n, e) ↦ rw e refl
    ];
  }

  pub tell-Unfed : (notice : Notice) → Unfed (tell env notice)
  tell-Unfed notice = record { same = λ s. refl }

  pub ask-Unfed : {A : Type 0} (call : env.World → env.World × A) → Unfed (ask env call)
  ask-Unfed call = record { same = λ s. refl }

  pub ask_stt-Unfed :
      {A : Type 0} (call : env.World → env.World × Result SttError A) → Unfed (ask_stt env call)
  unfolding ask_stt
  ask_stt-Unfed call = record { same = λ s. ground arith }

  pub lift_pipeline-Unfed : {A : Type 0} (r : Result PipelineError A) → Unfed (lift_pipeline env r)
  lift_pipeline-Unfed (ok a) = record { same = λ s. refl }
  lift_pipeline-Unfed (err e) = record { same = λ s. refl }

pub ruleset unfed_rules = (
  keeps_rules, append_durable-Unfed, log_durable-Unfed, tell-Unfed, ask-Unfed, ask_stt-Unfed,
  lift_pipeline-Unfed,
)
