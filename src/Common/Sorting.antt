-- ===== src/Common/Sorting.antt =====
-- The standard library's stable sort, over a Boolean test: `slice::sort_by_key` with the test on
-- keys, `sort_unstable` on distinct values. An element goes before the first one that it may
-- precede, so equal elements keep their order.
use Prim.Native.Nat.{ℕ, zero, suc}
use mathlib.Core.Path.{◌≡◌, refl}
use mathlib.Core.Logic.{inl, inr}
use mathlib.Core.Bool.{Bool, true, false}
use mathlib.Core.List.{List, [], ◌∷◌, Perm}
use mathlib.Core.List.Perm
use scrybe.Common.Tests.{Bool-cases, if◌then◌else◌}
use scrybe.Common.Lists.{All, All-take, take}

module _ {ℓ} {A : Type ℓ} (le : A → A → Bool) where
  pub insert_sorted : A → List A → List A
  insert_sorted x [] = x ∷ []
  insert_sorted x (y ∷ ys) = if le x y then x ∷ y ∷ ys else y ∷ insert_sorted x ys

  unfoldable pub sort_by : List A → List A
  unfolding insert_sorted
  sort_by [] = []
  sort_by (x ∷ xs) = insert_sorted x (sort_by xs)

  -- every earlier element may precede every later one
  abbrev pub IsSortedBy : List A → Type ℓ
  IsSortedBy [] = Unit
  IsSortedBy (x ∷ xs) = All (λ y. le x y ≡ true) xs × IsSortedBy xs

  insert_sorted-perm : (x : A) (l : List A) → Perm (insert_sorted x l) (x ∷ l)
  unfolding insert_sorted
  insert_sorted-perm x [] = Perm.rfl
  insert_sorted-perm x (y ∷ ys) = elim (Bool-cases (le x y)) [
    | inl e ↦ rw e Perm.rfl
    | inr e ↦ rw e (Perm.trans (Perm.cons y (insert_sorted-perm x ys)) (Perm.swap x y ys))
  ]

  -- Sorting only rearranges.
  pub sort_by-perm : (l : List A) → Perm (sort_by l) l
  unfolding sort_by
  sort_by-perm [] = Perm.rfl
  sort_by-perm (x ∷ xs) =
      Perm.trans (insert_sorted-perm x (sort_by xs)) (Perm.cons x (sort_by-perm xs))

module _ {ℓ κ} {A : Type ℓ} (le : A → A → Bool) (P : A → Type κ) where
  insert_sorted-All : (x : A) (l : List A) → P x → All P l → All P (insert_sorted le x l)
  unfolding insert_sorted
  insert_sorted-All x [] p h = (p, tt)
  insert_sorted-All x (y ∷ ys) p h = elim (Bool-cases (le x y)) [
    | inl e ↦ rw e (p, h)
    | inr e ↦ rw e (h.0, insert_sorted-All x ys p h.1)
  ]

  -- What holds of every element holds of every element of the sorted list.
  pub sort_by-All : (l : List A) → All P l → All P (sort_by le l)
  unfolding sort_by
  sort_by-All [] h = tt
  sort_by-All (x ∷ xs) h = insert_sorted-All x (sort_by le xs) h.0 (sort_by-All xs h.1)

module _ {ℓ} {A : Type ℓ} (le : A → A → Bool) (total : (x y : A) → le x y ≡ false → le y x ≡ true)
    (trans : (x y z : A) → le x y ≡ true → le y z ≡ true → le x z ≡ true) where
  All-trans :
      (x y : A) (l : List A)
      → le x y ≡ true
      → All (λ z. le y z ≡ true) l
      → All (λ z. le x z ≡ true) l
  All-trans x y [] e h = tt
  All-trans x y (z ∷ zs) e h = (trans x y z e h.0, All-trans x y zs e h.1)

  insert_sorted-IsSortedBy :
      (x : A) (l : List A) → IsSortedBy le l → IsSortedBy le (insert_sorted le x l)
  unfolding insert_sorted
  insert_sorted-IsSortedBy x [] s = (tt, tt)
  insert_sorted-IsSortedBy x (y ∷ ys) s = elim (Bool-cases (le x y)) [
    | inl e ↦ rw e ((e, All-trans x y ys e s.0), s)
    | inr e ↦ rw e (
      insert_sorted-All le (λ z. le y z ≡ true) x ys (total x y e) s.0,
      insert_sorted-IsSortedBy x ys s.1,
    )
  ]

  -- The result is in order.
  pub sort_by-IsSortedBy : (l : List A) → IsSortedBy le (sort_by le l)
  unfolding sort_by
  sort_by-IsSortedBy [] = tt
  sort_by-IsSortedBy (x ∷ xs) = insert_sorted-IsSortedBy x (sort_by le xs) (sort_by-IsSortedBy xs)

module _ {ℓ} {A : Type ℓ} (le : A → A → Bool) where
  -- The head of a list in order is in order.
  pub IsSortedBy-take : (n : ℕ) (l : List A) → IsSortedBy le l → IsSortedBy le (take n l)
  IsSortedBy-take zero l s = tt
  IsSortedBy-take (suc n) [] s = tt
  IsSortedBy-take (suc n) (x ∷ xs) s =
      (All-take (λ y. le x y ≡ true) n xs s.0, IsSortedBy-take n xs s.1)

  insert_sorted-first :
      (x : A) (l : List A) → All (λ y. le x y ≡ true) l → insert_sorted le x l ≡ x ∷ l
  unfolding insert_sorted
  insert_sorted-first x [] h = refl
  insert_sorted-first x (y ∷ ys) h = rw (h.0)

  -- A list in order is left as it is.
  pub sort_by_of_IsSortedBy : (l : List A) → IsSortedBy le l → sort_by le l ≡ l
  unfolding sort_by
  sort_by_of_IsSortedBy [] s = refl
  sort_by_of_IsSortedBy (x ∷ xs) s =
      rw (sort_by_of_IsSortedBy xs s.1) (insert_sorted-first x xs s.0)
