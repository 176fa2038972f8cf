-- ===== src/Recording/Controller/Threads.antt =====
-- scrybe-application/src/recording/controller.rs with several threads: a call changes the state under
-- its lock, and calls the observers after it has let the lock go, so that other calls come between.
pub mod Told
use Prim.Native.String.{String}
use scrybe.Common.Words.{u64_mod}
use scrybe.Common.{
  ◌<◌, length, false, ◌+◌, ◌%◌, All, ap, sym, ◌∙◌, ℕ, zero, suc, ◌≡◌, refl, List, [], ◌∷◌, ◌++◌,
  arith, Option, none, some, get_elem?,
}
use mathlib.Core.List.{Perm, perm_append_comm, append-nil, append_assoc}
use mathlib.Core.List.Perm
use mathlib.Core.Path.{subst, subst₂}
use scrybe.Recording.Contract.{RecordingEvent, idle, preparing, failed}
use scrybe.Recording.Controller.{
  ControllerState, RecordingController, subscribe, retention_permit, drop_permit, deliveries,
  notify, begin_preparing, mark_recording, request_stop, begin_saving, complete, fail, acknowledge,
}
use scrybe.Recording.Controller.Threads.Told.{
  event_of, locked, remove_at, tell_all, step-tell_all, locked-delivered, tell_all-append,
  remove_at-tell_all,
}
use scrybe.Recording.Controller.Transitions.{Call, prepares, fails, step, event_between}
use scrybe.Recording.Controller.History.{
  run, IsNoSubscription, observers-step, heard, Leads, run-Hears,
}

-- the controller, and the events of the calls that have yet to call the observers
pub record Threads : Type 0 where
  pub controller : RecordingController
  pub waiting : List RecordingEvent

pub data Turn : Type 0 where
  enters : Call → Turn
  notifies : ℕ → Turn

notify_at : ℕ → Option RecordingEvent → Threads → Threads
notify_at i none t = t
notify_at i (some event) t = record {
  controller = notify event t.controller;
  waiting = remove_at t.waiting i;
}

-- any of the threads goes next; a turn that notifies calls all the observers, and no other thread
-- calls any of them meanwhile, which is no restriction where there is one observer
unfoldable pub turn : Threads → Turn → Threads
unfolding notify_at
turn t (enters call) = record {
  controller = locked t.controller call;
  waiting = t.waiting ++ event_of t.controller call;
}
turn t (notifies i) = notify_at i (get_elem? t.waiting i) t

-- the state of the controller is that of the calls in the order of their locks; what was told and
-- what is still to tell are together what these calls tell
record Follows (t : Threads) (c : RecordingController) : Type 0 where
  same : t.controller ≡ record c { delivered = t.controller.delivered }
  told : Perm (t.controller.delivered ++ tell_all c.observers t.waiting) c.delivered

enters-Follows :
    (t : Threads) (c : RecordingController) (call : Call)
    → IsNoSubscription call
    → Follows t c
    → Follows (turn t (enters call)) (step c call)
unfolding turn
enters-Follows t c call h f =
    let d = t.controller.delivered in
    let made : event_of t.controller call ≡ event_of c call = ap (λ x. event_of x call) f.same in
    record {
      same = ap (λ x. locked x call) f.same ∙ locked-delivered c d call;
      told =
          let all : Perm
              ((d ++ tell_all c.observers t.waiting) ++ tell_all c.observers (event_of c call))
              (step c call).delivered =
            subst (Perm _) (sym (step-tell_all c call)) (Perm.append_right _ f.told) in
          rw
            (observers-step c call h, made, tell_all-append c.observers t.waiting (event_of c call))
            (subst (λ l. Perm l (step c call).delivered) (append_assoc d _ _) all);
    }

notify_at-Follows :
    (t : Threads) (c : RecordingController) (i : ℕ) (found : Option RecordingEvent)
    → get_elem? t.waiting i ≡ found
    → Follows t c
    → Follows (notify_at i found t) c
unfolding notify_at notify
notify_at-Follows t c i none e f = f
notify_at-Follows t c i (some event) e f =
    let d = t.controller.delivered in
    let listening : t.controller.observers ≡ c.observers = ap (λ x. x.observers) f.same in
    record {
      same =
          ap {A = RecordingController} {B = RecordingController}
            (λ x. record x { delivered = d ++ deliveries event t.controller.observers }) f.same;
      told = rw listening (
          subst (λ l. Perm l c.delivered) (sym (append_assoc d _ _))
            (Perm.trans (Perm.append_left d (remove_at-tell_all c.observers t.waiting i event e))
              f.told));
    }

unfoldable pub run_turns : Threads → List Turn → Threads
run_turns t [] = t
run_turns t (next ∷ turns) = run_turns (turn t next) turns

-- the calls in the order in which they take the lock
abbrev pub calls_of : List Turn → List Call
calls_of [] = []
calls_of (enters call ∷ turns) = call ∷ calls_of turns
calls_of (notifies _ ∷ turns) = calls_of turns

run_turns-Follows :
    (t : Threads) (c : RecordingController) (turns : List Turn)
    → All IsNoSubscription (calls_of turns)
    → Follows t c
    → Follows (run_turns t turns) (run c (calls_of turns))
unfolding run_turns run
run_turns-Follows t c [] h f = f
run_turns-Follows t c (enters call ∷ turns) h f =
    run_turns-Follows (turn t (enters call)) (step c call) turns h.1 (enters-Follows t c call h.0 f)
run_turns-Follows t c (notifies i ∷ turns) h f =
    run_turns-Follows (turn t (notifies i)) c turns h
      (unfold turn in notify_at-Follows t c i (get_elem? t.waiting i) refl f)

observers-run :
    (c : RecordingController) (calls : List Call)
    → All IsNoSubscription calls
    → (run c calls).observers ≡ c.observers
unfolding run
observers-run c [] h = refl
observers-run c (call ∷ calls) h = observers-run (step c call) calls h.1 ∙ observers-step c call h.0

abbrev pub alone : RecordingController → Threads
alone c = record { controller = c; waiting = [] }

-- The calls in the order of their locks, one after the other, make the same state and tell the same.
run_turns-Linearizes :
    (c : RecordingController) (turns : List Turn)
    → All IsNoSubscription (calls_of turns)
    → ((run_turns (alone c) turns).controller.state ≡ (run c (calls_of turns)).state)
      × ((run_turns (alone c) turns).controller.retention_gate
          ≡ (run c (calls_of turns)).retention_gate)
      × Perm
          ((run_turns (alone c) turns).controller.delivered
            ++ tell_all c.observers (run_turns (alone c) turns).waiting)
          (run c (calls_of turns)).delivered
run_turns-Linearizes c turns h =
    let f = run_turns-Follows (alone c) c turns h (record {
      same = refl;
      told = subst (λ l. Perm l c.delivered) (sym (append-nil _)) Perm.rfl;
    }) in
    (
      ap (λ x. x.state) f.same,
      ap (λ x. x.retention_gate) f.same,
      subst
          (λ l.
            Perm
              ((run_turns (alone c) turns).controller.delivered
                ++ tell_all l (run_turns (alone c) turns).waiting)
              (run c (calls_of turns)).delivered)
          (observers-run c (calls_of turns) h) f.told,
    )

-- Several threads call the controller that one observer watches, and each calls the observer only
-- after it has let the lock go, in any order. What the observer was told so far, together with what
-- it has yet to be told, is in some order, each once, a list of events in which each is numbered one
-- above the last, leaves the state that the last one entered and goes along an edge of the diagram or
-- from preparing to saving, and which leads from the state and number at the start to the present
-- ones. This holds while the number stays below 2^64 and no call subscribes.
pub run_turns-Hears :
    (observer : ℕ) (c : RecordingController) (turns : List Turn)
    → c.observers ≡ observer ∷ []
    → c.state.sequence + length (calls_of turns) < u64_mod
    → All IsNoSubscription (calls_of turns)
    → let after = run_turns (alone c) turns in
      (events : List RecordingEvent) × Perm
        (after.controller.delivered ++ tell_all (observer ∷ []) after.waiting)
        (c.delivered ++ heard observer events)
      × Leads c.state.sequence c.state.state events after.controller.state.sequence
          after.controller.state.state
run_turns-Hears observer c turns watched fits h =
    let after = run_turns (alone c) turns in
    let (state, gate, told) = run_turns-Linearizes c turns h in
    let (events, all, leads) = run-Hears observer c (calls_of turns) watched fits h in
    (
      events,
      subst₂ (λ l d. Perm (after.controller.delivered ++ tell_all l after.waiting) d) watched all
          told,
      subst (λ s. Leads c.state.sequence c.state.state events s.sequence s.state) (sym state) leads,
    )

-- an idle controller that one observer watches and that no one keeps from starting
abbrev pub at_rest : ℕ → ControllerState → List (ℕ × RecordingEvent) → RecordingController
at_rest observer s delivered = record {
  observers = observer ∷ [];
  retention_gate = false;
  state = record s { state = idle };
  delivered = delivered;
}

-- One thread prepares a recording, another fails it before the first has called the observers, and
-- calls them before the first does.
abbrev pub overtaking : ℕ → String → ℕ → List Turn
overtaking now summary later =
    enters (prepares now) ∷ enters (fails summary later) ∷ notifies 1 ∷ notifies 0 ∷ []

-- In an order of turns that the locks permit, the observer of an idle controller is told that the
-- attempt has failed before it is told that the attempt has begun: the higher number comes first.
pub run_turns-overtaken :
    (observer : ℕ) (s : ControllerState) (delivered : List (ℕ × RecordingEvent)) (summary : String)
    (now later : ℕ)
    → (first second : RecordingEvent) × (first.to ≡ preparing)
      × (second.from ≡ preparing)
      × (second.to ≡ failed)
      × (first.sequence ≡ (s.sequence + 1) % u64_mod)
      × (second.sequence ≡ (first.sequence + 1) % u64_mod)
      × ((run_turns
            (alone (at_rest observer s delivered))
            (overtaking now summary later)).controller.delivered
          ≡ delivered ++ (observer, second) ∷ (observer, first) ∷ [])
unfolding run_turns turn notify_at notify deliveries step begin_preparing fail
run_turns-overtaken observer s delivered summary now later =
    let c1 : RecordingController = locked (at_rest observer s delivered) (prepares now) in
    let c2 : RecordingController = locked c1 (fails summary later) in
    (
      event_between (record s { state = idle }) c1.state now,
      event_between c1.state c2.state later,
      refl,
      refl,
      refl,
      refl,
      refl,
      append_assoc delivered _ _,
    )
