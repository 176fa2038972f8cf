-- ===== src/Providers/Tests.antt =====
-- The retry loop's theorems at the default policy and an operation that fails twice.
use scrybe.Common.{ℕ, zero, suc, ◌≡◌, ◌↔◌, arith}
use scrybe.Providers.Retry.{
  default_policy, RetryOutcome, ok, transient, panicked, retry_with_policy,
}
use scrybe.Providers.Retry.Attempts.{IsRun, retry_with_policy-IsRun, retry_with_policy-panicked_iff}

-- the state is the number of failures to come
abbrev flaky : ℕ → ℕ → ℕ × RetryOutcome ℕ ℕ
flaky attempt zero = (0, ok attempt)
flaky attempt (suc n) = (n, transient attempt)

retry_with_policy-IsRun_example :
    let run = retry_with_policy default_policy flaky 2 in
    IsRun default_policy flaky 1 2 run.0 run.1 run.2
retry_with_policy-IsRun_example = retry_with_policy-IsRun default_policy flaky 2 (omega arith)

retry_with_policy-panicked_iff_example :
    ((retry_with_policy default_policy flaky 2).2 ≡ panicked) ↔ (default_policy.max_attempts ≡ 0)
retry_with_policy-panicked_iff_example = retry_with_policy-panicked_iff default_policy flaky 2
