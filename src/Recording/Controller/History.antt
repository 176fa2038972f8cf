-- ===== src/Recording/Controller/History.antt =====
-- Whole histories of calls, from a new controller: what no sequence of calls can bring about.
use scrybe.Common.{
  ℕ, ◌+◌, ◌≤◌, ◌<◌, ◌≡◌, ◌≢◌, refl, sym, ap, ◌∙◌, inl, inr, ◌&&◌, not, true, none, List, [], ◌∷◌,
  ◌++◌, arith, length, All, if◌then◌else◌,
}
use mathlib.Core.List.{append-nil, append_assoc}
use mathlib.Core.Path.{subst, subst₂}
use scrybe.Common.Words.{u64_mod}
use scrybe.Recording.Contract.{
  RecordingState, idle, accepts_stop, accepts_start, permits_retention, RecordingEvent,
  StopAcceptance, accepted,
}
use scrybe.Recording.Controller.{
  RecordingController, new, subscribe, retention_permit, drop_permit, deliveries, begin_preparing,
  mark_recording, request_stop, begin_saving, complete, fail, acknowledge,
}
use scrybe.Recording.Controller.Transitions.{
  Call, step, ◌⟶◌, Quiet, Announced, step-Announced, clock_of, event_between,
}
use scrybe.Recording.Controller.Invariant.{IsWellFormed, new-IsWellFormed, step-IsWellFormed}

unfoldable pub run : RecordingController → List Call → RecordingController
run c [] = c
run c (call ∷ calls) = run (step c call) calls

run-IsWellFormed :
    (c : RecordingController) (calls : List Call) → IsWellFormed c → IsWellFormed (run c calls)
unfolding run
run-IsWellFormed c [] w = w
run-IsWellFormed c (call ∷ calls) w =
    run-IsWellFormed (step c call) calls (step-IsWellFormed c call w)

-- Whatever the surfaces call, in whatever order, the controller stays well formed.
pub run-new-IsWellFormed : (calls : List Call) → IsWellFormed (run new calls)
run-new-IsWellFormed calls = run-IsWellFormed new calls new-IsWellFormed

permits-step :
    (c : RecordingController) (call : Call)
    → c.retention_gate ≡ true
    → permits_retention c.state.state ≡ true
    → permits_retention (step c call).state.state ≡ true
unfolding step subscribe retention_permit drop_permit begin_preparing mark_recording request_stop
    begin_saving complete fail acknowledge
permits-step c (Call.fails summary now) h held = ground arith
permits-step c _ h held = ground arith

-- While a session may be moved, no recording is being prepared, captured or saved, a start waits
-- for the gate, and no call of any surface can bring a recording about.
pub permit_excludes_recording :
    (calls : List Call) (now : ℕ) (call : Call)
    → (run new calls).retention_gate ≡ true
    → (permits_retention (run new calls).state.state ≡ true)
      × (begin_preparing now (run new calls) ≡ none)
      × (permits_retention (step (run new calls) call).state.state ≡ true)
permit_excludes_recording calls now call h =
    let held = (run-new-IsWellFormed calls).gate h in
    (held, unfold begin_preparing in ground arith, permits-step (run new calls) call h held)

abbrev pub accepted_count : StopAcceptance → ℕ
accepted_count accepted = 1
accepted_count _ = 0

-- how many stops one call has accepted, and how many recordings it has started
abbrev pub stops_accepted : RecordingController → Call → ℕ
stops_accepted c (Call.stops source now) = accepted_count (request_stop source now c).1
stops_accepted c _ = 0

abbrev pub starts_accepted : RecordingController → Call → ℕ
starts_accepted c (Call.prepares now) =
    if accepts_start c.state.state && not c.retention_gate then 1 else 0
starts_accepted c _ = 0

abbrev pub total : (RecordingController → Call → ℕ) → RecordingController → List Call → ℕ
total count c [] = 0
total count c (call ∷ calls) = count c call + total count (step c call) calls

-- one while a stop could still be accepted
abbrev open_stop : RecordingController → ℕ
open_stop c = if accepts_stop c.state.state && not c.state.stop_requested then 1 else 0

stops-step :
    (c : RecordingController) (call : Call)
    → stops_accepted c call + open_stop (step c call) ≤ open_stop c + starts_accepted c call
unfolding step subscribe retention_permit drop_permit begin_preparing mark_recording request_stop
    begin_saving complete fail acknowledge
stops-step c (Call.fails summary now) = ground arith
stops-step c _ = ground arith

stops-run :
    (c : RecordingController) (calls : List Call)
    → total stops_accepted c calls + open_stop (run c calls)
      ≤ open_stop c + total starts_accepted c calls
unfolding run
stops-run c [] = omega arith
stops-run c (call ∷ calls) = omega (arith, stops-step c call, stops-run (step c call) calls)

-- At most one stop is accepted for each recording that is started, however many surfaces ask.
pub stops-le-starts :
    (calls : List Call) → total stops_accepted new calls ≤ total starts_accepted new calls
stops-le-starts calls = omega (arith, stops-run new calls)

-- The events that one observer is given, in order.
abbrev pub heard : ℕ → List RecordingEvent → List (ℕ × RecordingEvent)
heard observer [] = []
heard observer (event ∷ events) = (observer, event) ∷ heard observer events

-- The events lead from number `n` and state `s` to number `m` and state `t`, each numbered one
-- above the last, each leaving the state that the last one entered, along an edge
-- of the diagram or from preparing to saving.
abbrev pub Leads : ℕ → RecordingState → List RecordingEvent → ℕ → RecordingState → Type 0
Leads n s [] m t = (n ≡ m) × (s ≡ t)
Leads n s (event ∷ events) m t =
    (event.sequence ≡ n + 1) × (event.from ≡ s) × (s ⟶ event.to) × Leads (n + 1) event.to events m t

abbrev pub IsNoSubscription : Call → Type 0
IsNoSubscription call = (observer : ℕ) → call ≢ Call.subscribes observer

pub observers-step :
    (c : RecordingController) (call : Call)
    → IsNoSubscription call
    → (step c call).observers ≡ c.observers
unfolding step retention_permit drop_permit begin_preparing mark_recording request_stop begin_saving
    complete fail acknowledge
observers-step c (Call.subscribes observer) h = absurd (h observer refl)
observers-step c (Call.fails summary now) h = ground arith
observers-step c _ h = ground arith

-- What an observer hears between two states of the controller.
abbrev pub Hears : ℕ → RecordingController → RecordingController → Type 0
Hears observer c c' =
    (events : List RecordingEvent) × (c'.delivered ≡ c.delivered ++ heard observer events)
    × Leads c.state.sequence c.state.state events c'.state.sequence c'.state.state

module _ (observer : ℕ) (c c' final : RecordingController) where
  Hears-of_Quiet : Quiet c c' → Hears observer c' final → Hears observer c final
  Hears-of_Quiet (same, state, sequence) (events, told, leads) = (
    events,
    told ∙ ap (λ d. d ++ heard observer events) same,
    subst₂ (λ n s. Leads n s events final.state.sequence final.state.state) sequence state leads,
  )

  Hears-of_Announced :
      (now : ℕ)
      → c.observers ≡ observer ∷ []
      → c.state.sequence + 1 < u64_mod
      → Announced now c c'
      → Hears observer c' final
      → Hears observer c final
  unfolding deliveries
  Hears-of_Announced now alone fits (edge, next, kept, said) (events, told, leads) =
      let event = event_between c.state c'.state now in
      let up : c'.state.sequence ≡ c.state.sequence + 1 = omega (arith, next) in
      let one : deliveries event c.observers ≡ (observer, event) ∷ [] = rw alone in
      (
        event ∷ events,
        told
            ∙ ap (λ d. d ++ heard observer events) (said ∙ ap (λ d. c.delivered ++ d) one)
            ∙ append_assoc c.delivered ((observer, event) ∷ []) (heard observer events),
        (
          up,
          refl,
          edge,
          subst (λ n. Leads n c'.state.state events final.state.sequence final.state.state) up
              leads,
        ),
      )

pub run-Hears :
    (observer : ℕ) (c : RecordingController) (calls : List Call)
    → c.observers ≡ observer ∷ []
    → c.state.sequence + length calls < u64_mod
    → All IsNoSubscription calls
    → Hears observer c (run c calls)
unfolding run
run-Hears observer c [] alone fits h = ([], sym (append-nil _), (refl, refl))
run-Hears observer c (call ∷ calls) alone fits h =
    let rest = run-Hears observer (step c call) calls (observers-step c call h.0 ∙ alone) in
    elim (step-Announced c call) [
      | inl quiet ↦
          Hears-of_Quiet observer c (step c call) (run (step c call) calls) quiet
            (rest (omega (arith, quiet.2)) h.1)
      | inr moved ↦
          Hears-of_Announced observer c (step c call) (run (step c call) calls) (clock_of call)
            alone (omega arith) moved (rest (omega (arith, moved.1)) h.1)
    ]

-- One observer, subscribed to a new controller and alone, is told of every transition exactly once
-- and in order: the events it hears are numbered 1, 2, 3 without a gap, each leaves the state that
-- the last one entered, each is an edge of the diagram or goes from preparing to saving, and they end in the present state and
-- number. This holds for fewer than 2^64 calls, each made when the one before has returned, none of
-- which subscribes another.
pub run-new-Hears :
    (observer : ℕ) (calls : List Call)
    → length calls < u64_mod
    → All IsNoSubscription calls
    → (events : List RecordingEvent) × ((run (subscribe observer new) calls).delivered
        ≡ heard observer events)
      × Leads 0 idle events
          (run (subscribe observer new) calls).state.sequence
          (run (subscribe observer new) calls).state.state
unfolding subscribe
run-new-Hears observer calls fits h =
    run-Hears observer (subscribe observer new) calls refl (omega arith) h
