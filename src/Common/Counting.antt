-- ===== src/Common/Counting.antt =====
-- How many elements of a list pass a test, on the native numbers. The count does not depend on the
-- order, so it carries a property from a list to a rearrangement of it.
use Prim.Native.Nat.{ℕ, ◌+◌}
use mathlib.Core.Path.{◌≡◌, refl, ap, ◌∙◌}
use mathlib.Core.Logic.{inl, inr, ∥∥₁_elim}
use mathlib.Core.Bool.{Bool, false}
use mathlib.Core.List.{List, [], ◌∷◌, ◌++◌, Perm, Permᴰ}
use native.Mathlib.Nat.{ℕ_set}
use native.Mathlib.Omega.{arith}
use scrybe.Common.Tests.{Bool-cases, if◌then◌else◌}
use scrybe.Common.Lists.{All}

abbrev bit : Bool → ℕ
bit b = if b then 1 else 0

module _ {ℓ} {A : Type ℓ} (p : A → Bool) where
  abbrev pub count_if : List A → ℕ
  count_if [] = 0
  count_if (x ∷ xs) = bit (p x) + count_if xs

  pub count_if-append : (xs ys : List A) → count_if (xs ++ ys) ≡ count_if xs + count_if ys
  count_if-append [] ys = omega arith
  count_if-append (x ∷ xs) ys = omega (arith, count_if-append xs ys)

  count_if-Permᴰ : {xs ys : List A} → Permᴰ xs ys → count_if xs ≡ count_if ys
  count_if-Permᴰ Permᴰ.nil = refl
  count_if-Permᴰ (Permᴰ.cons e r) = omega (arith, ap (λ x. bit (p x)) e, count_if-Permᴰ r)
  count_if-Permᴰ (Permᴰ.swap e d) = omega (arith, ap (λ x. bit (p x)) e, ap (λ x. bit (p x)) d)
  count_if-Permᴰ (Permᴰ.trans r s) = count_if-Permᴰ r ∙ count_if-Permᴰ s

  pub count_if-Perm : {xs ys : List A} → Perm xs ys → count_if xs ≡ count_if ys
  count_if-Perm r = ∥∥₁_elim r (ℕ_set _ _) (λ d. count_if-Permᴰ d)

  -- a count of nothing is a property of every element
  pub none_of : (xs : List A) → count_if xs ≡ 0 → All (λ x. p x ≡ false) xs
  none_of [] h = tt
  none_of (x ∷ xs) h = elim (Bool-cases (p x)) [
    | inl e ↦ absurd (omega (arith, ap bit e, h))
    | inr e ↦ (e, none_of xs (omega (arith, h)))
  ]
