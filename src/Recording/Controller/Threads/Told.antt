-- ===== src/Recording/Controller/Threads/Told.antt =====
-- What a call of scrybe-application/src/recording/controller.rs does under its lock, and the events
-- that it leaves to tell the observers after it.
use scrybe.Common.{
  ap, sym, ◌∙◌, ℕ, zero, suc, ◌≡◌, refl, List, [], ◌∷◌, ◌++◌, arith, some, get_elem?,
}
use mathlib.Core.List.{Perm, perm_append_comm, append-nil, append_assoc}
use mathlib.Core.List.Perm
use mathlib.Core.Path.{subst}
use scrybe.Recording.Contract.{RecordingEvent}
use scrybe.Recording.Controller.{
  RecordingController, subscribe, retention_permit, drop_permit, deliveries, begin_preparing,
  mark_recording, request_stop, begin_saving, complete, fail, acknowledge,
}
use scrybe.Recording.Controller.Transitions.{Call, step}

abbrev pub events_of : List (ℕ × RecordingEvent) → List RecordingEvent
events_of [] = []
events_of ((observer, event) ∷ rest) = event ∷ events_of rest

-- the event that a call makes under the lock, if it makes one: what one observer would be told of it
abbrev pub event_of : RecordingController → Call → List RecordingEvent
event_of c call = events_of (step (record c { observers = 0 ∷ []; delivered = [] }) call).delivered

-- what a call does under the lock
abbrev pub locked : RecordingController → Call → RecordingController
locked c call = record (step c call) { delivered = c.delivered }

abbrev pub remove_at : List RecordingEvent → ℕ → List RecordingEvent
remove_at [] i = []
remove_at (x ∷ xs) zero = xs
remove_at (x ∷ xs) (suc i) = x ∷ remove_at xs i

abbrev pub tell_all : List ℕ → List RecordingEvent → List (ℕ × RecordingEvent)
tell_all observers [] = []
tell_all observers (event ∷ events) = deliveries event observers ++ tell_all observers events

pub step-tell_all :
    (c : RecordingController) (call : Call)
    → (step c call).delivered ≡ c.delivered ++ tell_all c.observers (event_of c call)
unfolding step subscribe retention_permit drop_permit begin_preparing mark_recording request_stop
    begin_saving complete fail acknowledge deliveries
step-tell_all c (Call.fails summary now) = grind (arith, append-nil)
step-tell_all c _ = grind (arith, append-nil)

-- what was delivered is no part of what a call does
pub locked-delivered :
    (c : RecordingController) (delivered : List (ℕ × RecordingEvent)) (call : Call)
    → locked (record c { delivered = delivered }) call
      ≡ record (step c call) { delivered = delivered }
unfolding step subscribe retention_permit drop_permit begin_preparing mark_recording request_stop
    begin_saving complete fail acknowledge
locked-delivered c delivered (Call.fails summary now) = grind arith
locked-delivered c delivered _ = grind arith

pub tell_all-append :
    (observers : List ℕ) (es fs : List RecordingEvent)
    → tell_all observers (es ++ fs) ≡ tell_all observers es ++ tell_all observers fs
tell_all-append observers [] fs = refl
tell_all-append observers (e ∷ es) fs =
    ap (λ l. deliveries e observers ++ l) (tell_all-append observers es fs)
    ∙ sym (append_assoc (deliveries e observers) (tell_all observers es) (tell_all observers fs))

swap_front : (xs ys zs : List (ℕ × RecordingEvent)) → Perm (xs ++ (ys ++ zs)) (ys ++ (xs ++ zs))
swap_front xs ys zs =
    subst (λ l. Perm l (ys ++ (xs ++ zs))) (append_assoc xs ys zs)
      (subst (Perm ((xs ++ ys) ++ zs)) (append_assoc ys xs zs)
        (Perm.append_right zs (perm_append_comm xs ys)))

-- the event that is taken out is told before the others, or among them
pub remove_at-tell_all :
    (observers : List ℕ) (events : List RecordingEvent) (i : ℕ) (event : RecordingEvent)
    → get_elem? events i ≡ some event
    → Perm
        (deliveries event observers ++ tell_all observers (remove_at events i))
        (tell_all observers events)
remove_at-tell_all observers [] i event h = absurd (cc)
remove_at-tell_all observers (e ∷ es) zero event h =
    subst
      (λ x.
        Perm (deliveries x observers ++ tell_all observers es)
          (deliveries e observers ++ tell_all observers es))
      (cc h) Perm.rfl
remove_at-tell_all observers (e ∷ es) (suc i) event h =
    Perm.trans (swap_front (deliveries event observers) (deliveries e observers) _)
      (Perm.append_left (deliveries e observers) (remove_at-tell_all observers es i event h))
