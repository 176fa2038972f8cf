-- ===== src/Sessions/Retention/Index.antt =====
-- scrybe-application/src/sessions/retention.rs: the index as a map ordered by its keys.
use scrybe.Common.{
  ◌≡◌, refl, inl, inr, Bool, true, false, Option, none, some, List, [], ◌∷◌, ltb, ◌==◌, ◌&&◌, ◌||◌,
  if◌then◌else◌, Bool-cases,
}
use mathlib.Core.Path.{subst}
use scrybe.Text.{Text, text_eq, text_eq→eq, text_eq_refl}

-- the order of strings, which code points have as their bytes do
abbrev pub before : Text → Text → Bool
before [] [] = false
before [] (_ ∷ _) = true
before (_ ∷ _) [] = false
before (a ∷ s) (b ∷ t) = ltb a b || (a == b && before s t)

module _ {A : Type 0} where
  unfoldable pub lookup : Text → List (Text × A) → Option A
  lookup key [] = none
  lookup key ((k, a) ∷ rest) =
      let later = lookup key rest in if text_eq key k then some a else later

  unfoldable pub insert : Text → A → List (Text × A) → List (Text × A)
  insert key a [] = (key, a) ∷ []
  insert key a ((k, b) ∷ rest) =
      let later = insert key a rest in
      if text_eq key k
      then (key, a) ∷ rest
      else if before key k
      then (key, a) ∷ (k, b) ∷ rest
      else (k, b) ∷ later

  unfoldable pub remove : Text → List (Text × A) → List (Text × A)
  remove key [] = []
  remove key ((k, a) ∷ rest) =
      let later = remove key rest in if text_eq key k then later else (k, a) ∷ later

  -- a change of one entry, through `get_mut`
  unfoldable pub change : Text → (A → A) → List (Text × A) → List (Text × A)
  change key f [] = []
  change key f ((k, a) ∷ rest) =
      let later = change key f rest in if text_eq key k then (k, f a) ∷ later else (k, a) ∷ later

  abbrev pub keys : List (Text × A) → List Text
  keys [] = []
  keys ((k, _) ∷ rest) = k ∷ keys rest

  pub lookup-remove_other :
      (g key : Text) (index : List (Text × A))
      → text_eq g key ≡ false
      → lookup g (remove key index) ≡ lookup g index
  unfolding lookup remove
  lookup-remove_other g key [] h = refl
  lookup-remove_other g key ((k, a) ∷ rest) h = elim (Bool-cases (text_eq key k)) [
    | inl e ↦
        let n : text_eq g k ≡ false = subst (λ t. text_eq g t ≡ false) (text_eq→eq key k e) h in
        rw (e, n) (lookup-remove_other g key rest h)
    | inr e ↦ rw (e, lookup-remove_other g key rest h) refl
  ]

  pub lookup-remove_same :
      (key : Text) (index : List (Text × A)) → lookup key (remove key index) ≡ none
  unfolding lookup remove
  lookup-remove_same key [] = refl
  lookup-remove_same key ((k, a) ∷ rest) = elim (Bool-cases (text_eq key k)) [
    | inl e ↦ rw e (lookup-remove_same key rest)
    | inr e ↦ rw (e, e) (lookup-remove_same key rest)
  ]

  pub lookup-change_other :
      (g key : Text) (f : A → A) (index : List (Text × A))
      → text_eq g key ≡ false
      → lookup g (change key f index) ≡ lookup g index
  unfolding lookup change
  lookup-change_other g key f [] h = refl
  lookup-change_other g key f ((k, a) ∷ rest) h = elim (Bool-cases (text_eq key k)) [
    | inl e ↦
        let n : text_eq g k ≡ false = subst (λ t. text_eq g t ≡ false) (text_eq→eq key k e) h in
        rw (e, n) (lookup-change_other g key f rest h)
    | inr e ↦ rw (e, lookup-change_other g key f rest h) refl
  ]

  pub lookup-insert_same :
      (key : Text) (a : A) (index : List (Text × A)) → lookup key (insert key a index) ≡ some a
  unfolding lookup insert
  lookup-insert_same key a [] = rw (text_eq_refl key) refl
  lookup-insert_same key a ((k, b) ∷ rest) = elim (Bool-cases (text_eq key k)) [
    | inl e ↦ rw (e, text_eq_refl key) refl
    | inr e ↦ elim (Bool-cases (before key k)) [
      | inl f ↦ rw (e, f, text_eq_refl key) refl
      | inr f ↦ rw (e, f, e) (lookup-insert_same key a rest)
    ]
  ]
