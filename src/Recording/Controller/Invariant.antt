-- ===== src/Recording/Controller/Invariant.antt =====
-- What holds of the controller between two calls, and what follows for the timer and for a session
-- that is being moved.
use Prim.Native.String.{String}
use scrybe.Common.{
  ℕ, ◌-◌, ◌≡◌, ◌≢◌, ◌⊎◌, ◌||◌, Bool, true, false, Option, none, some, arith, is_some,
}
use scrybe.Recording.Contract.{
  RecordingState, idle, preparing, recording, saving, completed, failed, same_state,
  permits_retention, accepts_stop, is_terminal, RecordingFailureKind, preflight, capture,
  finalization, RecordingFailure, StopSource, accepted,
}
use scrybe.Recording.Controller.{
  RecordingController, Result, ok, err, new, elapsed, subscribe, retention_permit, drop_permit,
  begin_preparing, mark_recording, request_stop, begin_saving, complete, fail, acknowledge,
}
use scrybe.Recording.Controller.Transitions.{Call, step}

-- the clock runs only from the start of capture, and stands from the end of it
abbrev pub has_origin : RecordingState → Option Bool
has_origin idle = some false
has_origin preparing = some false
has_origin failed = none
has_origin _ = some true

abbrev pub has_frozen : RecordingState → Option Bool
has_frozen saving = some true
has_frozen completed = some true
has_frozen failed = none
has_frozen _ = some false

abbrev Agrees : Option Bool → Bool → Type 0
Agrees none b = Unit
Agrees (some a) b = b ≡ a

-- what the label of a failure says of the clock
abbrev Label : RecordingFailureKind → Option ℕ → Option ℕ → Type 0
Label preflight origin frozen = (is_some origin ≡ false) × (is_some frozen ≡ false)
Label capture origin frozen = (is_some origin ≡ true) × (is_some frozen ≡ false)
Label finalization origin frozen = (is_some origin ≡ true) × (is_some frozen ≡ true)

abbrev Labelled : Option RecordingFailure → Option ℕ → Option ℕ → Type 0
Labelled none origin frozen = Unit
Labelled (some f) origin frozen = Label f.kind origin frozen

pub record IsWellFormed (c : RecordingController) : Type 0 where
  pub origin : Agrees (has_origin c.state.state) (is_some c.state.started_at)
  pub frozen : Agrees (has_frozen c.state.state) (is_some c.state.frozen_elapsed)
  pub source : is_some c.state.stop_source ≡ c.state.stop_requested
  pub pending :
      (c.state.state ≡ idle) ⊎ (c.state.state ≡ recording) → c.state.stop_requested ≡ false
  pub failure : is_some c.state.failure ≡ same_state c.state.state failed
  pub label : Labelled c.state.failure c.state.started_at c.state.frozen_elapsed
  pub gate : c.retention_gate ≡ true → permits_retention c.state.state ≡ true

pub new-IsWellFormed : IsWellFormed new
new-IsWellFormed = ground arith

-- Every call, whatever it is and whenever it comes, keeps a well-formed controller well formed: the
-- clock has an origin and is frozen as the state asks, a stop's source is known exactly when a stop
-- is requested, a failure is kept exactly while failed and is labelled by the clock's state, and a
-- session may be moved only in a state that permits it.
pub step-IsWellFormed :
    (c : RecordingController) (call : Call) → IsWellFormed c → IsWellFormed (step c call)
unfolding step subscribe retention_permit drop_permit begin_preparing mark_recording request_stop
    begin_saving complete fail acknowledge
step-IsWellFormed c (Call.fails summary now) w = ground arith
step-IsWellFormed c _ w = ground arith

-- While a well-formed controller is saving or completed, a call that does not take it back to idle
-- leaves what the timer shows as it was, whenever it is read.
elapsed-step :
    (c : RecordingController) (call : Call) (m n : ℕ)
    → IsWellFormed c
    → (c.state.state ≡ saving) ⊎ (c.state.state ≡ completed)
    → (step c call).state.state ≢ idle
    → elapsed (step c call).state m ≡ elapsed c.state n
unfolding step subscribe retention_permit drop_permit begin_preparing mark_recording request_stop
    begin_saving complete fail acknowledge elapsed
elapsed-step c (Call.fails summary now) m n w s h = ground arith
elapsed-step c _ m n w s h = ground arith

-- In a well-formed controller that records, a stop is accepted, moves on to saving, and freezes the
-- timer at the time since capture began, at every later reading.
pub elapsed-request_stop :
    (c : RecordingController) (source : StopSource) (now origin later : ℕ)
    → IsWellFormed c
    → c.state.state ≡ recording
    → c.state.started_at ≡ some origin
    → ((request_stop source now c).1 ≡ accepted)
      × ((request_stop source now c).0.state.state ≡ saving)
      × (elapsed (request_stop source now c).0.state later ≡ now - origin)
unfolding request_stop elapsed
elapsed-request_stop c source now origin later w s o = ground arith

abbrev pub is_ok : {A : Type 0} → Result A → Bool
is_ok (ok _) = true
is_ok (err _) = false

-- The answer is positive exactly when `allowed`, and a refusal leaves the controller as it was.
abbrev pub Guarded :
    {A : Type 0} → Bool → RecordingController → RecordingController × Result A → Type 0
Guarded allowed c (c', answer) = (is_ok answer ≡ allowed) × ((allowed ≡ true) ⊎ (c' ≡ c))

-- To begin, to save, to complete, to fail and to acknowledge are each accepted exactly in the states
-- that their documentation names, and a refusal changes nothing and tells no observer.
pub transitions-Guarded :
    (c : RecordingController) (summary : String) (now : ℕ)
    → Guarded (same_state c.state.state preparing) c (mark_recording now c)
      × Guarded (same_state c.state.state recording) c (begin_saving now c)
      × Guarded (same_state c.state.state saving) c (complete now c)
      × Guarded
          (accepts_stop c.state.state || same_state c.state.state saving)
          c
          (fail summary now c)
      × Guarded (is_terminal c.state.state) c (acknowledge now c)
unfolding mark_recording begin_saving complete fail acknowledge
transitions-Guarded c summary now =
    (ground arith, ground arith, ground arith, ground arith, ground arith)
