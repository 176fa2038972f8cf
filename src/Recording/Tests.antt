-- ===== src/Recording/Tests.antt =====
-- The controller's theorems at concrete histories.
use mathlib.Core.List.{Perm}
use scrybe.Common.Words.{u64_mod}
use scrybe.Common.{◌+◌, ◌%◌, ◌++◌, ◌≡◌, refl, true, some, List, [], ◌∷◌, arith}
use scrybe.Recording.Contract.{
  idle, preparing, failed, recording, saving, StopSource, RecordingEvent,
}
use scrybe.Recording.Controller.{
  idle_state, new, subscribe, begin_preparing, retention_permit, mark_recording, request_stop,
}
use scrybe.Recording.Controller.Transitions.{Call, step}
use scrybe.Recording.Controller.Threads.{
  run_turns, alone, at_rest, overtaking, run_turns-Hears, run_turns-overtaken,
}
use scrybe.Recording.Controller.Threads.Told.{tell_all}
use scrybe.Recording.Controller.Invariant.{IsWellFormed, step-IsWellFormed}
use scrybe.Recording.Controller.History.{run, run-new-IsWellFormed, run-new-Hears, heard, Leads}

-- a recording that has begun at 7, and one that was stopped at 9
abbrev begun : List Call
begun = Call.subscribes 3 ∷ Call.prepares 5 ∷ Call.marks_recording 7 ∷ []

abbrev stopped : List Call
stopped =
    Call.subscribes 3 ∷ Call.prepares 5 ∷ Call.marks_recording 7 ∷ Call.stops StopSource.tray 9 ∷ []

step-IsWellFormed_example : IsWellFormed (step (run new begun) (Call.stops StopSource.tray 9))
step-IsWellFormed_example =
    step-IsWellFormed (run new begun) (Call.stops StopSource.tray 9) (run-new-IsWellFormed begun)

stopped-saving : (run new stopped).state.state ≡ saving
unfolding run step subscribe begin_preparing mark_recording request_stop
stopped-saving = refl

begun-recording : (run new begun).state.state ≡ recording
unfolding run step subscribe begin_preparing mark_recording
begun-recording = refl

begun-origin : (run new begun).state.started_at ≡ some 7
unfolding run step subscribe begin_preparing mark_recording
begun-origin = refl

-- a session is being moved
abbrev moving : List Call
moving = Call.takes_permit ∷ []

moving-gate : (run new moving).retention_gate ≡ true
unfolding run step retention_permit
moving-gate = refl

abbrev recorded : List Call
recorded = Call.prepares 5 ∷ Call.marks_recording 7 ∷ []

run-new-Hears_example :
    (events : List RecordingEvent) × ((run (subscribe 3 new) recorded).delivered ≡ heard 3 events)
    × Leads 0 idle events
        (run (subscribe 3 new) recorded).state.sequence
        (run (subscribe 3 new) recorded).state.state
run-new-Hears_example =
    run-new-Hears 3 recorded (omega arith) (λ n e. ground arith, (λ n e. ground arith, tt))

run_turns-Hears_example :
    let after = run_turns (alone (at_rest 3 idle_state [])) (overtaking 5 "no input" 7) in
    (events : List RecordingEvent) × Perm
      (after.controller.delivered ++ tell_all (3 ∷ []) after.waiting)
      ([] ++ heard 3 events)
    × Leads 0 idle events after.controller.state.sequence after.controller.state.state
run_turns-Hears_example =
    run_turns-Hears 3 (at_rest 3 idle_state []) (overtaking 5 "no input" 7) refl (omega arith)
      (λ n e. ground arith, (λ n e. ground arith, tt))

run_turns-overtaken_example :
    (first second : RecordingEvent) × (first.to ≡ preparing)
    × (second.from ≡ preparing)
    × (second.to ≡ failed)
    × (first.sequence ≡ (0 + 1) % u64_mod)
    × (second.sequence ≡ (first.sequence + 1) % u64_mod)
    × ((run_turns
          (alone (at_rest 3 idle_state []))
          (overtaking 5 "no input" 7)).controller.delivered
        ≡ [] ++ (3, second) ∷ (3, first) ∷ [])
run_turns-overtaken_example = run_turns-overtaken 3 idle_state [] "no input" 5 7
