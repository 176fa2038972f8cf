-- ===== src/Recording/Controller.antt =====
-- scrybe-application/src/recording/controller.rs. An instant is a number of nanoseconds of the
-- monotonic clock, and a method takes the one reading of the clock that it makes. A method returns
-- the new controller and its result. An observer is a handle; what `notify` does is to append to
-- `delivered`, in the order of the calls; a method has done so when it returns. `retention_gate` is true while a `RetentionPermit` is
-- held, and a method that would wait for that mutex returns `none`. The texts that `format!`
-- builds for an error are kept as their parts.
pub mod Transitions
pub mod Invariant
pub mod History
pub mod Threads
use Prim.Native.String.{String}
use scrybe.Common.{
  ℕ, ◌+◌, ◌-◌, ◌/◌, ◌%◌, Bool, true, false, not, Option, none, some, List, [], ◌∷◌, ◌++◌, map, min,
  if◌then◌else◌,
}
use scrybe.Common.Words.{u64_mod, u64_max}
use scrybe.Recording.Contract
use scrybe.Recording.Contract.{
  RecordingState, idle, preparing, recording, saving, completed, failed, same_state, accepts_start,
  is_terminal, permits_retention, RecordingFailureKind, preflight, capture, finalization,
  RecordingFailure, StopSource, StopAcceptance, accepted, already_stopping, not_recording,
  RecordingSnapshot, RecordingEvent,
}

pub data ApplicationError : Type 0 where
  recording_state_conflict : String → RecordingState → ApplicationError
  recording_in_progress : ApplicationError

pub data Result (A : Type 0) : Type 0 where
  ok : A → Result A
  err : ApplicationError → Result A

pub record ControllerState : Type 0 where
  pub state : RecordingState
  pub started_at : Option ℕ
  pub frozen_elapsed : Option ℕ
  pub stop_requested : Bool
  pub stop_source : Option StopSource
  pub failure : Option RecordingFailure
  pub sequence : ℕ

abbrev pub idle_state : ControllerState
idle_state = record {
  state = idle;
  started_at = none;
  frozen_elapsed = none;
  stop_requested = false;
  stop_source = none;
  failure = none;
  sequence = 0;
}

-- `saturating_duration_since` is the subtraction that stops at 0
abbrev since_origin : Option ℕ → ℕ → ℕ
since_origin none now = 0
since_origin (some origin) now = now - origin

abbrev frozen_or : Option ℕ → ℕ → ℕ
frozen_or none live = live
frozen_or (some frozen) live = frozen

unfoldable pub elapsed : ControllerState → ℕ → ℕ
elapsed s now = frozen_or s.frozen_elapsed (since_origin s.started_at now)

unfoldable pub duration_ms : ℕ → ℕ
duration_ms duration = min (duration / 1000000) u64_max

unfoldable pub snapshot_at : ControllerState → ℕ → RecordingSnapshot
unfolding elapsed duration_ms
snapshot_at s now = record {
  schema_version = Contract.schema_version;
  state = s.state;
  elapsed_ms = duration_ms (elapsed s now);
  stop_requested = s.stop_requested;
  stop_source = s.stop_source;
  failure = s.failure;
}

-- `sequence += 1` wraps in a release build
unfoldable pub advance : ControllerState → RecordingState → ℕ → ControllerState × RecordingEvent
unfolding elapsed duration_ms
advance s to now =
    let s' = record s { state = to; sequence = (s.sequence + 1) % u64_mod } in
    (
      s',
      record {
        schema_version = Contract.schema_version;
        sequence = s'.sequence;
        from = s.state;
        to = to;
        elapsed_ms = duration_ms (elapsed s' now);
        stop_source = s'.stop_source;
        failure = s'.failure;
      },
    )

abbrev pub conflict : String → RecordingState → ApplicationError
conflict attempted state = recording_state_conflict attempted state

pub record RecordingController : Type 0 where
  pub observers : List ℕ
  pub retention_gate : Bool
  pub state : ControllerState
  pub delivered : List (ℕ × RecordingEvent)

abbrev pub new : RecordingController
new = record { observers = []; retention_gate = false; state = idle_state; delivered = [] }

unfoldable pub subscribe : ℕ → RecordingController → RecordingController
subscribe observer c = record c { observers = c.observers ++ observer ∷ [] }

unfoldable pub snapshot : ℕ → RecordingController → RecordingSnapshot
unfolding snapshot_at
snapshot now c = snapshot_at c.state now

-- the loop over the cloned list of observers
unfoldable pub deliveries : RecordingEvent → List ℕ → List (ℕ × RecordingEvent)
deliveries event [] = []
deliveries event (observer ∷ rest) = (observer, event) ∷ deliveries event rest

unfoldable pub notify : RecordingEvent → RecordingController → RecordingController
notify event c = record c { delivered = c.delivered ++ deliveries event c.observers }

-- the rest of a transition: an error returns, a target state is entered and announced
settle :
    ℕ
    → RecordingController
    → ControllerState × Result RecordingState
    → RecordingController × Result RecordingSnapshot
unfolding advance notify snapshot_at
settle now c (s, err e) = (record c { state = s }, err e)
settle now c (s, ok to) =
    let (s', event) = advance s to now in
    (notify event (record c { state = s' }), ok (snapshot_at s' now))

-- one transition under one lock: what `mutate` changed before an error stays changed
unfoldable pub transition :
    ℕ
    → (ControllerState → ControllerState × Result RecordingState)
    → RecordingController
    → RecordingController × Result RecordingSnapshot
unfolding settle
transition now mutate c = settle now c (mutate c.state)

-- The gate is taken before the state is read, and given back when the state refuses.
unfoldable pub retention_permit :
    RecordingController → Option (RecordingController × Result (Unit {0}))
retention_permit c =
    if c.retention_gate
    then none
    else if permits_retention c.state.state
    then some (record c { retention_gate = true }, ok tt)
    else some (c, err recording_in_progress)

-- the permit is dropped when its holder has moved the session
unfoldable pub drop_permit : RecordingController → RecordingController
drop_permit c = record c { retention_gate = false }

unfoldable pub begin_preparing :
    ℕ → RecordingController → Option (RecordingController × Result RecordingSnapshot)
unfolding advance notify snapshot_at
begin_preparing now c =
    if c.retention_gate
    then none
    else if accepts_start c.state.state
    then (let fresh = record idle_state { sequence = c.state.sequence } in
        let (s, event) = advance fresh preparing now in
        some (notify event (record c { state = s }), ok (snapshot_at s now)))
    else some (c, err (conflict "start" c.state.state))

mark_recording_with : ℕ → ControllerState → ControllerState × Result RecordingState
mark_recording_with now s =
    if not (same_state s.state preparing)
    then (s, err (conflict "begin recording" s.state))
    else if s.stop_requested
    then (record s { started_at = some now; frozen_elapsed = some 0 }, ok saving)
    else (record s { started_at = some now }, ok recording)

unfoldable pub mark_recording :
    ℕ → RecordingController → RecordingController × Result RecordingSnapshot
unfolding transition mark_recording_with
mark_recording now = transition now (mark_recording_with now)

-- the `match` on the state, reached when no stop is pending
request_stop_in :
    RecordingState → StopSource → ℕ → RecordingController → RecordingController × StopAcceptance
unfolding elapsed advance notify
request_stop_in saving source now c = (c, already_stopping)
request_stop_in preparing source now c = (
  record c { state = record c.state { stop_requested = true; stop_source = some source } },
  accepted,
)
request_stop_in recording source now c =
    let s = record c.state {
      stop_requested = true;
      stop_source = some source;
      frozen_elapsed = some (elapsed c.state now);
    } in
    let (s', event) = advance s saving now in (notify event (record c { state = s' }), accepted)
request_stop_in _ source now c = (c, not_recording)

unfoldable pub request_stop :
    StopSource → ℕ → RecordingController → RecordingController × StopAcceptance
unfolding request_stop_in
request_stop source now c =
    if c.state.stop_requested
    then (c, already_stopping)
    else request_stop_in c.state.state source now c

begin_saving_with : ℕ → ControllerState → ControllerState × Result RecordingState
unfolding elapsed
begin_saving_with now s =
    if not (same_state s.state recording)
    then (s, err (conflict "begin saving" s.state))
    else (record s { frozen_elapsed = some (elapsed s now) }, ok saving)

unfoldable pub begin_saving :
    ℕ → RecordingController → RecordingController × Result RecordingSnapshot
unfolding transition begin_saving_with
begin_saving now = transition now (begin_saving_with now)

complete_with : ControllerState → ControllerState × Result RecordingState
complete_with s =
    if not (same_state s.state saving)
    then (s, err (conflict "complete" s.state))
    else (s, ok completed)

unfoldable pub complete : ℕ → RecordingController → RecordingController × Result RecordingSnapshot
unfolding transition complete_with
complete now = transition now complete_with

-- the label of a failure, from the state that it happened in
failure_kind : RecordingState → Option RecordingFailureKind
failure_kind preparing = some preflight
failure_kind recording = some capture
failure_kind saving = some finalization
failure_kind _ = none

fail_with : String → ControllerState → ControllerState × Result RecordingState
unfolding failure_kind
fail_with summary s = elim (failure_kind s.state) [
  | none ↦ (s, err (conflict "fail" s.state))
  | some kind ↦ (record s { failure = some (record { kind = kind; summary = summary }) }, ok failed)
]

unfoldable pub fail :
    String → ℕ → RecordingController → RecordingController × Result RecordingSnapshot
unfolding transition fail_with
fail summary now = transition now (fail_with summary)

acknowledge_with : ControllerState → ControllerState × Result RecordingState
acknowledge_with s =
    if not (is_terminal s.state) then (s, err (conflict "acknowledge" s.state)) else (
      record s {
        started_at = none;
        frozen_elapsed = none;
        stop_requested = false;
        stop_source = none;
        failure = none;
      },
      ok idle,
    )

unfoldable pub acknowledge :
    ℕ → RecordingController → RecordingController × Result RecordingSnapshot
unfolding transition acknowledge_with
acknowledge now = transition now acknowledge_with
