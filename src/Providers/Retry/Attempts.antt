-- ===== src/Providers/Retry/Attempts.antt =====
-- What a run of the retry loop does: its calls, its sleeps and its end, as the policy allows.
use scrybe.Common.{
  ℕ, zero, suc, ◌+◌, ◌-◌, ◌*◌, ◌<◌, ◌≤◌, ◌≡◌, ◌≢◌, ◌↔◌, refl, sym, ◌⊎◌, inl, inr, true, false,
  Option, none, some, List, [], ◌∷◌, ltb, max, arith,
}
use mathlib.Core.Path.{subst}
use scrybe.Providers.Retry.{
  RetryPolicy, RetryOutcome, ok, transient, permanent, Ending, returned, failed, panicked, Effect,
  called, slept, backoff_for, retry_from, after_call, retry_with_policy, exhausted,
}
use scrybe.Providers.Retry.Backoff.{backoff_for-bounded}

more_time : (k m limit b t : ℕ) → m ≡ k + 1 → b ≤ limit → t ≤ k * limit → b + t ≤ m * limit
more_time k m limit b t e hb ht = rw e (grind arith)

module _ {T E S : Type 0} (policy : RetryPolicy) (op : ℕ → S → S × RetryOutcome T E) where
  -- runs from an attempt on: it ends with the first success, the first permanent error, or the last
  -- attempt's error, and sleeps the attempt's backoff before the next one
  pub data IsRun : ℕ → S → S → List (Effect T E) → Ending T E → Type 0 where
    succeeds :
        (n : ℕ) (s s' : S) (value : T)
        → op n s ≡ (s', ok value)
        → IsRun n s s' (called n (ok value) ∷ []) (returned value)
    gives_up :
        (n : ℕ) (s s' : S) (e : E)
        → op n s ≡ (s', permanent e)
        → IsRun n s s'
            (called n (permanent e) ∷ [])
            (failed (record { attempts = n; last_error = e; permanent = true }))
    runs_out :
        (s s' : S) (e : E)
        → op policy.max_attempts s ≡ (s', transient e)
        → IsRun policy.max_attempts s s'
            (called policy.max_attempts (transient e) ∷ [])
            (failed (record { attempts = policy.max_attempts; last_error = e; permanent = false }))
    tries_again :
        (n : ℕ) (s s1 s' : S) (e : E) (trace : List (Effect T E)) (end : Ending T E)
        → n < policy.max_attempts
        → op n s ≡ (s1, transient e)
        → IsRun (n + 1) s1 s' trace end
        → IsRun n s s' (called n (transient e) ∷ slept (backoff_for policy n) ∷ trace) end

  IsRunOf : ℕ → S → S × List (Effect T E) × Ending T E → Type 0
  IsRunOf n s run = IsRun n s run.0 run.1 run.2

  -- after a transient error the loop is over, or goes on as a run
  Continues : ℕ → S → E → S × List (Effect T E) × Ending T E → Type 0
  Continues n s1 e rest =
      ((n ≡ policy.max_attempts)
        × (rest ≡ (
          s1,
          [],
          failed (record { attempts = policy.max_attempts; last_error = e; permanent = false }),
        )))
      ⊎ ((n < policy.max_attempts) × IsRunOf (n + 1) s1 rest)

  after_call-IsRun :
      (n : ℕ) (s s1 : S) (o : RetryOutcome T E) (rest : E → S × List (Effect T E) × Ending T E)
      → op n s ≡ (s1, o)
      → ((e : E) → Continues n s1 e (rest e))
      → IsRunOf n s (after_call policy op n s1 o rest)
  unfolding after_call IsRunOf Continues
  after_call-IsRun n s s1 (ok value) rest q c = succeeds n s s1 value q
  after_call-IsRun n s s1 (permanent e) rest q c = gives_up n s s1 e q
  after_call-IsRun n s s1 (transient e) rest q c = elim (c e) [
    | inl (last_one, r) ↦
        let stop : ltb n policy.max_attempts ≡ false = ground arith in
        rw (stop, r) (rw last_one (runs_out s s1 e (rw⁻¹ last_one q)))
    | inr (more, run) ↦
        let go : ltb n policy.max_attempts ≡ true = ground arith in
        rw go (tries_again n s s1 _ e _ _ more q run)
  ]

  retry_from-IsRun :
      (left n : ℕ) (last : Option E) (s : S)
      → n + left ≡ policy.max_attempts
      → IsRunOf n s (retry_from policy op (suc left) n last s)
  unfolding retry_from exhausted Continues
  retry_from-IsRun zero n last s h =
      after_call-IsRun n s (op n s).0 (op n s).1 _ refl (λ e. inl (omega arith, refl))
  retry_from-IsRun (suc left) n last s h =
      after_call-IsRun n s (op n s).0 (op n s).1 _ refl
        (λ e. inr (omega arith, retry_from-IsRun left (n + 1) (some e) (op n s).0 (omega arith)))

  -- With at least one attempt allowed, the helper always ends, never in its panic, and does just
  -- this: it calls the operation for attempt 1, 2 and so on, each call on the state that the last
  -- one left, sleeps the backoff of each failed attempt before the next, and ends at the first
  -- success with its value, at the first permanent error with that error, or after the last allowed
  -- attempt with that attempt's error.
  pub retry_with_policy-IsRun :
      (s : S)
      → 1 ≤ policy.max_attempts
      → let run = retry_with_policy policy op s in IsRun 1 s run.0 run.1 run.2
  unfolding retry_with_policy IsRunOf
  retry_with_policy-IsRun s h =
      let e : policy.max_attempts ≡ suc (policy.max_attempts - 1) = omega arith in
      subst (λ m. IsRunOf 1 s (retry_from policy op m 1 none s)) (sym e)
        (retry_from-IsRun (policy.max_attempts - 1) 1 none s (omega arith))

  IsRun-not_panicked :
      (n : ℕ) (s s' : S) (trace : List (Effect T E)) (end : Ending T E)
      → IsRun n s s' trace end
      → end ≢ panicked
  IsRun-not_panicked _ _ _ _ _ (succeeds n s s' value q) e = cc
  IsRun-not_panicked _ _ _ _ _ (gives_up n s s' err q) e = cc
  IsRun-not_panicked _ _ _ _ _ (runs_out s s' err q) e = cc
  IsRun-not_panicked _ _ _ _ _ (tries_again n s s1 s' err trace end m q run) e =
      IsRun-not_panicked (n + 1) s1 s' trace end run e

  -- The helper reaches its `unreachable!` exactly under a policy that allows no attempt at all.
  pub retry_with_policy-panicked_iff :
      (s : S) → ((retry_with_policy policy op s).2 ≡ panicked) ↔ (policy.max_attempts ≡ 0)
  retry_with_policy-panicked_iff s = (
    λ p. elim (zero_or_more policy.max_attempts) [
      | inl z ↦ z
      | inr m ↦ absurd (IsRun-not_panicked 1 s _ _ _ (retry_with_policy-IsRun s m) p)
    ],
    λ z. unfold retry_with_policy retry_from exhausted in rw z refl,
  )
    where
      zero_or_more : (n : ℕ) → (n ≡ 0) ⊎ (1 ≤ n)
      zero_or_more zero = inl refl
      zero_or_more (suc n) = inr (omega arith)

  abbrev pub calls_of : List (Effect T E) → ℕ
  calls_of [] = 0
  calls_of (called _ _ ∷ rest) = suc (calls_of rest)
  calls_of (slept _ ∷ rest) = calls_of rest

  abbrev pub sleep_of : List (Effect T E) → ℕ
  sleep_of [] = 0
  sleep_of (called _ _ ∷ rest) = sleep_of rest
  sleep_of (slept ms ∷ rest) = ms + sleep_of rest

  abbrev longest : ℕ
  longest = max policy.initial_backoff_ms policy.max_backoff_ms

  IsRun-calls :
      (n : ℕ) (s s' : S) (trace : List (Effect T E)) (end : Ending T E)
      → IsRun n s s' trace end
      → 1 ≤ calls_of trace
  IsRun-calls _ _ _ _ _ (succeeds n s s' value q) = omega arith
  IsRun-calls _ _ _ _ _ (gives_up n s s' err q) = omega arith
  IsRun-calls _ _ _ _ _ (runs_out s s' err q) = omega arith
  IsRun-calls _ _ _ _ _ (tries_again n s s1 s' err trace end m q run) = omega arith

  IsRun-bounded :
      (n : ℕ) (s s' : S) (trace : List (Effect T E)) (end : Ending T E)
      → IsRun n s s' trace end
      → n ≤ policy.max_attempts
      → (calls_of trace + n ≤ policy.max_attempts + 1)
        × (sleep_of trace ≤ (policy.max_attempts - n) * longest)
  IsRun-bounded _ _ _ _ _ (succeeds n s s' value q) h = (omega arith, omega arith)
  IsRun-bounded _ _ _ _ _ (gives_up n s s' err q) h = (omega arith, omega arith)
  IsRun-bounded _ _ _ _ _ (runs_out s s' err q) h = (omega arith, omega arith)
  IsRun-bounded _ _ _ _ _ (tries_again n s s1 s' err trace end m q run) h =
      let rest = IsRun-bounded (n + 1) s1 s' trace end run (omega arith) in
      let pause = (backoff_for-bounded policy n).1 in
      (
        omega (arith, rest.0),
        more_time (policy.max_attempts - (n + 1)) (policy.max_attempts - n) longest _ _
            (omega arith) pause rest.1,
      )

  -- A run calls the operation at least once and at most as often as the policy allows, and sleeps,
  -- all in all, at most the longer one of the initial backoff and the ceiling for every attempt but
  -- the last; with at least one attempt allowed.
  pub retry_with_policy-bounded :
      (s : S)
      → 1 ≤ policy.max_attempts
      → let trace = (retry_with_policy policy op s).1 in
        (1 ≤ calls_of trace)
        × (calls_of trace ≤ policy.max_attempts)
        × (sleep_of trace
            ≤ (policy.max_attempts - 1) * max policy.initial_backoff_ms policy.max_backoff_ms)
  retry_with_policy-bounded s h =
      let run = retry_with_policy-IsRun s h in
      let (calls, sleep) = IsRun-bounded 1 s _ _ _ run h in
      (IsRun-calls 1 s _ _ _ run, omega (arith, calls), sleep)
