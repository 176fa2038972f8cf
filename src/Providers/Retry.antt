-- ===== src/Providers/Retry.antt =====
-- scrybe-core/src/providers/retry.rs: the retry loop and its backoff. The operation is a function on
-- a state of its own; what a run does to the outside, the calls and the sleeps, is its trace.
pub mod Backoff
pub mod Attempts
use scrybe.Common.{
  ℕ, zero, suc, ◌+◌, ◌-◌, ◌*◌, ◌^◌, ◌%◌, Bool, true, false, Option, none, some, List, [], ◌∷◌, min,
  ltb, leb, if◌then◌else◌,
}
use scrybe.Common.Words.{u64_mod}

pub record RetryPolicy : Type 0 where
  pub max_attempts : ℕ
  pub initial_backoff_ms : ℕ
  pub max_backoff_ms : ℕ

abbrev pub default_policy : RetryPolicy
default_policy = record { max_attempts = 3; initial_backoff_ms = 500; max_backoff_ms = 8000 }

-- milliseconds; `checked_shl` loses the bits above the word and refuses only a shift of 64 or more,
-- which `min(31)` excludes
unfoldable pub backoff_for : RetryPolicy → ℕ → ℕ
backoff_for policy attempt =
    if leb attempt 1
    then policy.initial_backoff_ms
    else let shift = min (attempt - 1) 31 in
      let scaled = policy.initial_backoff_ms * 2 ^ shift % u64_mod in
      min scaled policy.max_backoff_ms

pub data RetryOutcome (T E : Type 0) : Type 0 where
  ok : T → RetryOutcome T E
  transient permanent : E → RetryOutcome T E

pub record RetryFailure (E : Type 0) : Type 0 where
  pub attempts : ℕ
  pub last_error : E
  pub permanent : Bool

-- how the helper ends: with a value, with a failure, or in its `unreachable!`
pub data Ending (T E : Type 0) : Type 0 where
  returned : T → Ending T E
  failed : RetryFailure E → Ending T E
  panicked : Ending T E

pub data Effect (T E : Type 0) : Type 0 where
  called : ℕ → RetryOutcome T E → Effect T E
  slept : ℕ → Effect T E

exhausted : {T E : Type 0} → RetryPolicy → Option E → Ending T E
exhausted policy none = panicked
exhausted policy (some e) =
    failed (record { attempts = policy.max_attempts; last_error = e; permanent = false })

module _ {T E S : Type 0} (policy : RetryPolicy) (op : ℕ → S → S × RetryOutcome T E) where
  -- one attempt's outcome, and the rest of the loop after a transient error
  after_call :
      ℕ
      → S
      → RetryOutcome T E
      → (E → S × List (Effect T E) × Ending T E)
      → S × List (Effect T E) × Ending T E
  after_call attempt s (ok value) rest = (s, called attempt (ok value) ∷ [], returned value)
  after_call attempt s (permanent e) rest = (
    s,
    called attempt (permanent e) ∷ [],
    failed (record { attempts = attempt; last_error = e; permanent = true }),
  )
  after_call attempt s (transient e) rest =
      let (s2, trace, end) = rest e in
      let after =
        if ltb attempt policy.max_attempts
        then slept (backoff_for policy attempt) ∷ trace
        else trace in
      (s2, called attempt (transient e) ∷ after, end)

  -- the loop from `attempt` on, with the attempts that are left
  unfoldable retry_from : ℕ → ℕ → Option E → S → S × List (Effect T E) × Ending T E
  unfolding exhausted after_call
  retry_from zero attempt last s = (s, [], exhausted policy last)
  retry_from (suc left) attempt last s =
      let (s1, outcome) = op attempt s in
      after_call attempt s1 outcome (λ e. retry_from left (attempt + 1) (some e) s1)

  unfoldable pub retry_with_policy : S → S × List (Effect T E) × Ending T E
  unfolding retry_from
  retry_with_policy s = retry_from policy.max_attempts 1 none s
