-- ===== src/Session/AcceptedFinal/Suppressed.antt =====
-- Only finals of the microphone are ever suppressed.
use scrybe.Common.{◌≡◌, refl, ◌⊎◌, inl, inr, Option, none, some, List, [], ◌∷◌, All, arith}
use scrybe.Common.Int.{ℤ}
use scrybe.Text.{Text}
use scrybe.Types.{FrameSource, mic, system, mixed}
use scrybe.Session.AcceptedFinal.{
  AcceptedFinal, Pending, AcceptedFinalBoundary, accept, suppress, resolve_from, resolve_mic,
  resolve_release, resolve_all, file_verdict, release_up_to, release_between, release_resolved,
  push, advance, finish, enqueue, advance_progress,
}

abbrev pub AreMine : List AcceptedFinal → Type 0
AreMine = All (λ f. f.source ≡ mic)

module _ (to_lowercase : Text → Text) where
  resolve_from_cases :
      (source : FrameSource) (b : AcceptedFinalBoundary) (p : Pending)
      → (resolve_from to_lowercase source b p ≡ accept p.final)
        ⊎ ((resolve_from to_lowercase source b p ≡ suppress p.final) × (source ≡ mic))
  unfolding resolve_from resolve_mic
  resolve_from_cases system b p = inl refl
  resolve_from_cases mixed b p = inl refl
  resolve_from_cases mic b p = ground arith

  resolve_all-AreMine :
      (b : AcceptedFinalBoundary) (ps : List Pending)
      → AreMine (resolve_all to_lowercase b ps).suppressed
  unfolding resolve_all resolve_release file_verdict
  resolve_all-AreMine b [] = tt
  resolve_all-AreMine b (p ∷ ps) = elim (resolve_from_cases p.final.source b p) [
    | inl e ↦ rw e (resolve_all-AreMine b ps)
    | inr (e, m) ↦ rw e (m, resolve_all-AreMine b ps)
  ]

  between-AreMine :
      (m s : Option ℤ) (b : AcceptedFinalBoundary)
      → AreMine (release_between to_lowercase m s b).1.suppressed
  unfolding release_between release_up_to
  between-AreMine none s b = tt
  between-AreMine (some m) none b = tt
  between-AreMine (some m) (some s) b = resolve_all-AreMine _ _

  release-AreMine :
      (b : AcceptedFinalBoundary) → AreMine (release_resolved to_lowercase b).1.suppressed
  unfolding release_resolved
  release-AreMine b = between-AreMine b.mic_progress_ms b.system_progress_ms b

  pub push-AreMine :
      (f : AcceptedFinal) (aligned progress : Option ℤ) (b : AcceptedFinalBoundary)
      → AreMine (push to_lowercase f aligned progress b).1.suppressed
  unfolding push
  push-AreMine f (some aligned) (some progress) b =
      release-AreMine (enqueue to_lowercase f aligned progress b)
  push-AreMine f (some aligned) none b = tt
  push-AreMine f none progress b = tt

  pub advance-AreMine :
      (source : FrameSource) (horizon : Option ℤ) (b : AcceptedFinalBoundary)
      → AreMine (advance to_lowercase source horizon b).1.suppressed
  unfolding advance
  advance-AreMine source none b = tt
  advance-AreMine source (some horizon) b = release-AreMine (advance_progress source horizon b)

  pub finish-AreMine : (b : AcceptedFinalBoundary) → AreMine (finish to_lowercase b).suppressed
  unfolding finish
  finish-AreMine b = resolve_all-AreMine _ _
