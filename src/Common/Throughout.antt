-- ===== src/Common/Throughout.antt =====
-- An invariant that holds whatever comes of an action, and what is known of its result.
use mathlib.Core.Path.{sym, subst}
use scrybe.Common.Action.{
  Result, ok, err, Action, ◌>>=◌, Outcome, Ensures, Ensures-bind, Ensures-pure, Keeps,
}

module _ {ℓ} {S E : Type ℓ} (R : S → Type ℓ) where
  abbrev pub Throughout : {A : Type ℓ} → (A → Type ℓ) → Action S E A → Type ℓ
  Throughout K = Ensures R (λ a s. K a × R s) R

  pub Throughout-bind :
      {A B : Type ℓ} (K : A → Type ℓ) (L : B → Type ℓ) (m : Action S E A) (f : A → Action S E B)
      → Throughout K m
      → ((a : A) → K a → Throughout L (f a))
      → Throughout L (m >>= f)
  Throughout-bind K L m f h k = Ensures-bind m f h (λ a. record { at = λ s b. (k a b.0).at s b.1 })

  pub Throughout-pure : {A : Type ℓ} (K : A → Type ℓ) (a : A) → K a → Throughout K (λ s. (ok a, s))
  Throughout-pure K a k = Ensures-pure a (λ s h. (k, h))

-- an action that keeps what the invariant speaks of
pub Throughout-Keeps {ℓ} :
    {S E A X : Type ℓ} {seen : S → X} (P : X → Type ℓ) (m : Action S E A)
    → Keeps seen m
    → Throughout (λ s. P (seen s)) (λ _. Unit {ℓ}) m
Throughout-Keeps {S = S} {E = E} {A = A} {seen = seen} P m l = record {
  at = λ s h. on (m s) (subst P (sym (l.same s)) h);
}
  where
    on :
        (r : Result E A × S)
        → P (seen r.1)
        → Outcome (λ s. P (seen s)) (λ a s. Unit {ℓ} × P (seen s)) r
    on (ok a, s) h = (tt, h)
    on (err e, s) h = h

-- what is known of a result may be used of the action that takes it
pub Ensures-given {ℓ} :
    {S E B : Type ℓ} {K : Type ℓ} {P R : S → Type ℓ} {Q : B → S → Type ℓ} (m : Action S E B)
    → (K → Ensures R Q P m)
    → Ensures R Q (λ s. K × P s) m
Ensures-given m f = record { at = λ s h. (f h.0).at s h.1 }
