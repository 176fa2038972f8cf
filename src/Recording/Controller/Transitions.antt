-- ===== src/Recording/Controller/Transitions.antt =====
-- The calls on a controller as one step function, and what one call does to the state.
use Prim.Native.String.{String}
use scrybe.Common.{ℕ, ◌+◌, ◌%◌, ◌≡◌, ◌⊎◌, Option, none, some, ◌++◌, arith}
use scrybe.Common.Words.{u64_mod}
use scrybe.Recording.Contract.{
  RecordingState, idle, preparing, recording, saving, completed, failed, schema_version, StopSource,
  RecordingEvent,
}
use scrybe.Recording.Controller.{
  ControllerState, elapsed, duration_ms, deliveries, RecordingController, subscribe,
  retention_permit, drop_permit, begin_preparing, mark_recording, request_stop, begin_saving,
  complete, fail, acknowledge,
}

-- One call of a surface, with the reading of the clock that it makes.
pub data Call : Type 0 where
  subscribes : ℕ → Call
  takes_permit : Call
  drops_permit : Call
  prepares : ℕ → Call
  marks_recording : ℕ → Call
  stops : StopSource → ℕ → Call
  saves : ℕ → Call
  completes : ℕ → Call
  fails : String → ℕ → Call
  acknowledges : ℕ → Call

-- a call that has to wait for the retention gate changes nothing until it is made again
abbrev after {ℓ} :
    {A : Type ℓ} → RecordingController → Option (RecordingController × A) → RecordingController
after c none = c
after c (some (c', _)) = c'

unfoldable pub step : RecordingController → Call → RecordingController
step c (subscribes observer) = subscribe observer c
step c takes_permit = after c (retention_permit c)
step c drops_permit = drop_permit c
step c (prepares now) = after c (begin_preparing now c)
step c (marks_recording now) = (mark_recording now c).0
step c (stops source now) = (request_stop source now c).0
step c (saves now) = (begin_saving now c).0
step c (completes now) = (complete now c).0
step c (fails summary now) = (fail summary now c).0
step c (acknowledges now) = (acknowledge now c).0

-- The moves of the code: the edges of the diagram in the contract's documentation, and `stop_early`,
-- which the diagram does not have: a stop is also taken while a recording is being prepared.
infix 40 ◌⟶◌
pub data ◌⟶◌ : RecordingState → RecordingState → Type 0 where
  start : idle ⟶ preparing
  begin : preparing ⟶ recording
  stop_early : preparing ⟶ saving
  stop : recording ⟶ saving
  finish : saving ⟶ completed
  fail_preparing : preparing ⟶ failed
  fail_capturing : recording ⟶ failed
  fail_saving : saving ⟶ failed
  settle_completed : completed ⟶ idle
  settle_failed : failed ⟶ idle

ruleset edges = (
  start, begin, stop_early, stop, finish, fail_preparing, fail_capturing, fail_saving,
  settle_completed, settle_failed,
)

abbrev pub clock_of : Call → ℕ
clock_of (prepares now) = now
clock_of (marks_recording now) = now
clock_of (stops source now) = now
clock_of (saves now) = now
clock_of (completes now) = now
clock_of (fails summary now) = now
clock_of (acknowledges now) = now
clock_of _ = 0

-- The one event that describes a move from `s` to `s'`.
abbrev pub event_between : ControllerState → ControllerState → ℕ → RecordingEvent
event_between s s' now = record {
  schema_version = schema_version;
  sequence = s'.sequence;
  from = s.state;
  to = s'.state;
  elapsed_ms = duration_ms (elapsed s' now);
  stop_source = s'.stop_source;
  failure = s'.failure;
}

abbrev pub Quiet : RecordingController → RecordingController → Type 0
Quiet c c' =
    (c'.delivered ≡ c.delivered)
    × (c'.state.state ≡ c.state.state)
    × (c'.state.sequence ≡ c.state.sequence)

abbrev pub Announced : ℕ → RecordingController → RecordingController → Type 0
Announced now c c' =
    (c.state.state ⟶ c'.state.state)
    × (c'.state.sequence ≡ (c.state.sequence + 1) % u64_mod)
    × (c'.observers ≡ c.observers)
    × (c'.delivered ≡ c.delivered ++ deliveries (event_between c.state c'.state now) c.observers)

pub step-Announced :
    (c : RecordingController) (call : Call)
    → Quiet c (step c call) ⊎ Announced (clock_of call) c (step c call)
unfolding step subscribe retention_permit drop_permit begin_preparing mark_recording request_stop
    begin_saving complete fail acknowledge
step-Announced c (fails summary now) = grind (arith, edges)
step-Announced c _ = grind (arith, edges)
