-- ===== src/Providers/Retry/Backoff.antt =====
-- The backoff schedule.
use scrybe.Common.{
  ℕ, zero, suc, ◌+◌, ◌-◌, ◌*◌, ◌^◌, ◌%◌, ◌<◌, ◌≤◌, ◌≡◌, refl, ap, ◌∙◌, false, leb, max, min, arith,
}
use native.Mathlib.Nat.{mul-le-mul, pow-le-pow_right, two-pow-succ}
use scrybe.Common.Words.{u32_mod, u64_mod}
use scrybe.Providers.Retry.{RetryPolicy, backoff_for}

power_bound : (n : ℕ) → n ≤ 31 → 2 ^ n ≤ 2147483648
power_bound n h = omega (arith, pow-le-pow_right {n = 2} (omega arith) h)

backoff_for_lem :
    (policy : RetryPolicy) (n : ℕ)
    → policy.initial_backoff_ms < u32_mod
    → 1 ≤ n
    → n ≤ 31
    → backoff_for policy (n + 1) ≡ min (policy.initial_backoff_ms * 2 ^ n) policy.max_backoff_ms
unfolding backoff_for
backoff_for_lem policy n h lo hi =
    let shift : min (n + 1 - 1) 31 ≡ n = omega arith in
    let late : leb (n + 1) 1 ≡ false = ground arith in
    let bound : policy.initial_backoff_ms ≤ 4294967296 = omega arith in
    let small : policy.initial_backoff_ms * 2 ^ n < u64_mod =
      omega (arith, mul-le-mul bound (power_bound n hi)) in
    let kept : policy.initial_backoff_ms * 2 ^ n % u64_mod ≡ policy.initial_backoff_ms * 2 ^ n =
      omega (arith, small) in
    rw (late, shift, kept) refl

-- From the second attempt to the 32nd, whatever the policy, each backoff is twice the one before
-- it, or the ceiling where that is less.
pub backoff_for-doubles :
    (policy : RetryPolicy) (n : ℕ)
    → policy.initial_backoff_ms < u32_mod
    → 2 ≤ n
    → n ≤ 31
    → backoff_for policy (n + 1) ≡ min (2 * backoff_for policy n) policy.max_backoff_ms
backoff_for-doubles policy zero h lo hi = absurd (omega arith)
backoff_for-doubles policy (suc m) h lo hi =
    let first : backoff_for policy (suc m)
        ≡ min (policy.initial_backoff_ms * 2 ^ m) policy.max_backoff_ms =
      ap (backoff_for policy) (succ m) ∙ backoff_for_lem policy m h (omega arith) (omega arith) in
    let twice : policy.initial_backoff_ms * 2 ^ suc m ≡ 2 * (policy.initial_backoff_ms * 2 ^ m) =
      rw (two-pow-succ m) (grind arith) in
    omega (arith, backoff_for_lem policy (suc m) h (omega arith) hi, first, twice)
  where
    succ : (k : ℕ) → suc k ≡ k + 1
    succ k = omega arith

-- Every backoff from the second attempt on is at most the ceiling, and none is longer than the
-- longer one of the ceiling and the initial backoff.
pub backoff_for-bounded :
    (policy : RetryPolicy) (attempt : ℕ)
    → (backoff_for policy (attempt + 2) ≤ policy.max_backoff_ms)
      × (backoff_for policy attempt ≤ max policy.initial_backoff_ms policy.max_backoff_ms)
unfolding backoff_for
backoff_for-bounded policy attempt = (ground arith, ground arith)
