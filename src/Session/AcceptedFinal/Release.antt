-- ===== src/Session/AcceptedFinal/Release.antt =====
-- When held finals are released, and in which order.
use scrybe.Common.{◌≡◌, ◌⊎◌, none, List, ◌++◌, All, arith}
use mathlib.Core.List.{Perm, Sublistᴰ}
use scrybe.Common.Int.{ℤ, ◌≤ℤ◌}
use scrybe.Common.Sorting.{IsSortedBy}
use scrybe.Text.{Text}
use scrybe.Session.AcceptedFinal.{
  Pending, Resolved, AcceptedFinalBoundary, key_le, release_between, release_resolved,
  nothing_resolved,
}
use scrybe.Session.AcceptedFinal.Conservation.{finals}

module _ (to_lowercase : Text → Text) where
  -- What a release with this watermark must do.
  pub record Releases (watermark : ℤ) (b b' : AcceptedFinalBoundary) (out : Resolved) : Type 0 where
    pub due : List Pending
    pub whole : Perm (due ++ b'.pending) b.pending
    pub passed : All (λ p. p.aligned_ms ≤ℤ watermark) due
    pub held : All (λ p. ¬ (p.aligned_ms ≤ℤ watermark)) b'.pending
    pub in_order : IsSortedBy key_le due
    pub handed_on : Perm (out.accepted ++ out.suppressed) (finals due)
    pub accepted_order : Sublistᴰ out.accepted (finals due)
    pub suppressed_order : Sublistᴰ out.suppressed (finals due)

  -- While one source has made no progress, nothing is released and nothing changes.
  pub release_resolved-waits :
      (b : AcceptedFinalBoundary)
      → (b.mic_progress_ms ≡ none) ⊎ (b.system_progress_ms ≡ none)
      → release_resolved to_lowercase b ≡ (b, nothing_resolved)
  unfolding release_resolved release_between
  release_resolved-waits b h = ground arith
