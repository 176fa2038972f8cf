-- ===== src/Common/Action.antt =====
-- Actions on a state that may fail. What an action did before it failed stays done, as with an
-- early return by `?` in code that has already written to a disk.
use mathlib.Core.Path.{◌≡◌, refl, sym, ◌∙◌, subst}
use mathlib.Core.Bool.{Bool, true, false}
use mathlib.Core.List.{List, [], ◌∷◌}
pub use scrybe.Common.Results.{Result, ok, err}
use scrybe.Common.Tests.{if◌then◌else◌}

abbrev pub Action {ℓ} : Type ℓ → Type ℓ → Type ℓ → Type ℓ
Action S E A = S → Result E A × S

module _ {ℓ} {S E A : Type ℓ} where
  abbrev pub pure : A → Action S E A
  pure a s = (ok a, s)

  abbrev pub raise : E → Action S E A
  raise e s = (err e, s)

  abbrev pub gets : (S → A) → Action S E A
  gets f s = (ok (f s), s)

abbrev pub modify {ℓ} : {S E : Type ℓ} → (S → S) → Action S E (Unit {ℓ})
modify f s = (ok tt, f s)

module _ {ℓ} {S E A B : Type ℓ} where
  abbrev pub continue : Result E A × S → (A → Action S E B) → Result E B × S
  continue (ok a, s) f = f a s
  continue (err e, s) f = (err e, s)

  infixl 10 ◌>>=◌
  unfoldable pub ◌>>=◌ : Action S E A → (A → Action S E B) → Action S E B
  ◌>>=◌ m f s = continue (m s) f

infixl 10 ◌>>◌
abbrev pub ◌>>◌ {ℓ} : {S E B : Type ℓ} → Action S E (Unit {ℓ}) → Action S E B → Action S E B
m >> n = m >>= λ _. n

-- the loop `for x in xs { body(x)?; }`
unfoldable pub for_each {ℓ} :
    {S E A : Type ℓ} → List A → (A → Action S E (Unit {ℓ})) → Action S E (Unit {ℓ})
for_each [] body = pure tt
for_each (x ∷ xs) body = let rest = for_each xs body in body x >>= λ _. rest

module _ {ℓ} {S E A : Type ℓ} (R : S → Type ℓ) (Q : A → S → Type ℓ) where
  abbrev pub Outcome : Result E A × S → Type ℓ
  Outcome (ok a, s) = Q a s
  Outcome (err e, s) = R s

  -- from a state with `P`, the action returns into `Q`, or fails and leaves `R`
  pub record Ensures (P : S → Type ℓ) (m : Action S E A) : Type ℓ where
    pub at : (s : S) → P s → Outcome (m s)

module _ {ℓ} {S E A B : Type ℓ} {R : S → Type ℓ} {Q : A → S → Type ℓ} {T : B → S → Type ℓ} where
  continue-Outcome :
      (r : Result E A × S) (f : A → Action S E B)
      → Outcome R Q r
      → ((a : A) → Ensures R T (Q a) (f a))
      → Outcome R T (continue r f)
  continue-Outcome (ok a, s) f h kf = (kf a).at s h
  continue-Outcome (err e, s) f h kf = h

  pub Ensures-bind :
      {P : S → Type ℓ} (m : Action S E A) (f : A → Action S E B)
      → Ensures R Q P m
      → ((a : A) → Ensures R T (Q a) (f a))
      → Ensures R T P (m >>= f)
  unfolding ◌>>=◌
  Ensures-bind m f km kf = record { at = λ s h. continue-Outcome (m s) f (km.at s h) kf }

module _ {ℓ} {S E A : Type ℓ} {P R : S → Type ℓ} {Q : A → S → Type ℓ} where
  pub Ensures-pure : (a : A) → ((s : S) → P s → Q a s) → Ensures {E = E} R Q P (pure a)
  Ensures-pure a h = record { at = h }

  pub Ensures-raise : (e : E) → ((s : S) → P s → R s) → Ensures R Q P (raise e)
  Ensures-raise e h = record { at = h }

  pub Ensures-if :
      (b : Bool) (m n : Action S E A)
      → (b ≡ true → Ensures R Q P m)
      → (b ≡ false → Ensures R Q P n)
      → Ensures R Q P (if b then m else n)
  Ensures-if true m n km kn = km refl
  Ensures-if false m n km kn = kn refl

  pub Ensures-then :
      (b : Bool) (m n : Action S E A)
      → b ≡ true
      → Ensures R Q P m
      → Ensures R Q P (if b then m else n)
  Ensures-then true m n e km = km
  Ensures-then false m n e km = absurd (cc)

-- a loop, with an invariant that speaks of what is still to do
pub Ensures-for_each {ℓ} :
    {S E A : Type ℓ} {R : S → Type ℓ} (P : List A → S → Type ℓ) (body : A → Action S E (Unit {ℓ}))
    → ((x : A) (xs : List A) → Ensures R (λ _. P xs) (P (x ∷ xs)) (body x))
    → (xs : List A) → Ensures R (λ _. P []) (P xs) (for_each xs body)
unfolding for_each
Ensures-for_each P body k [] = record { at = λ s h. h }
Ensures-for_each P body k (x ∷ xs) =
    Ensures-bind (body x) (λ _. for_each xs body) (k x xs) (λ _. Ensures-for_each P body k xs)

-- an action that leaves an observation of the state as it was
pub record Keeps {ℓ} {S E A X : Type ℓ} (seen : S → X) (m : Action S E A) : Type ℓ where
  pub same : (s : S) → seen (m s).1 ≡ seen s

module _ {ℓ} {S E X : Type ℓ} {seen : S → X} where
  continue-seen :
      {A B : Type ℓ} (r : Result E A × S) (f : A → Action S E B)
      → ((a : A) → Keeps seen (f a))
      → seen (continue r f).1 ≡ seen r.1
  continue-seen (ok a, s) f k = (k a).same s
  continue-seen (err e, s) f k = refl

  pub Keeps-bind :
      {A B : Type ℓ} (m : Action S E A) (f : A → Action S E B)
      → Keeps seen m
      → ((a : A) → Keeps seen (f a))
      → Keeps seen (m >>= f)
  unfolding ◌>>=◌
  Keeps-bind m f l k = record { same = λ s. continue-seen (m s) f k ∙ l.same s }

  pub Keeps-pure : {A : Type ℓ} (a : A) → Keeps seen (pure {E = E} a)
  Keeps-pure a = record { same = λ s. refl }

  pub Keeps-raise : {A : Type ℓ} (e : E) → Keeps seen (raise {A = A} e)
  Keeps-raise e = record { same = λ s. refl }

  pub Keeps-gets : {A : Type ℓ} (f : S → A) → Keeps seen (gets {E = E} f)
  Keeps-gets f = record { same = λ s. refl }

  pub Keeps-if :
      {A : Type ℓ} (b : Bool) (m n : Action S E A)
      → Keeps seen m
      → Keeps seen n
      → Keeps seen (if b then m else n)
  Keeps-if true m n l k = l
  Keeps-if false m n l k = k

  pub Keeps-for_each :
      {A : Type ℓ} (xs : List A) (body : A → Action S E Unit)
      → ((x : A) → Keeps seen (body x))
      → Keeps seen (for_each xs body)
  unfolding for_each
  Keeps-for_each [] body k = Keeps-pure tt
  Keeps-for_each (x ∷ xs) body k =
      Keeps-bind (body x) (λ _. for_each xs body) (k x) (λ _. Keeps-for_each xs body k)

pub ruleset keeps_rules = (Keeps-bind, Keeps-pure, Keeps-raise, Keeps-gets, Keeps-if)

kept-Outcome {ℓ} :
    {S E A X : Type ℓ} (seen : S → X) (R : S → Type ℓ) (Q : A → S → Type ℓ) (K : X → Type ℓ) (s : S)
    (r : Result E A × S)
    → seen r.1 ≡ seen s
    → K (seen s)
    → Outcome R Q r
    → Outcome R (λ a t. Q a t × K (seen t)) r
kept-Outcome seen R Q K s (ok a, t) e k h = (h, subst K (sym e) k)
kept-Outcome seen R Q K s (err _, t) e k h = h

-- an observation that an action keeps may be added to what it ensures
pub Ensures-Keeps {ℓ} :
    {S E A X : Type ℓ} {seen : S → X} {P R : S → Type ℓ} {Q : A → S → Type ℓ} (m : Action S E A)
    (K : X → Type ℓ)
    → Keeps seen m
    → Ensures R Q P m
    → Ensures R (λ a s. Q a s × K (seen s)) (λ s. P s × K (seen s)) m
Ensures-Keeps {seen = seen} {R = R} {Q = Q} m K l h = record {
  at = λ s b. kept-Outcome seen R Q K s (m s) (l.same s) b.1 (h.at s b.0);
}

pub Outcome-mono {ℓ} :
    {S E A : Type ℓ} (R : S → Type ℓ) {Q T : A → S → Type ℓ}
    → ((a : A) (s : S) → Q a s → T a s)
    → (r : Result E A × S) → Outcome R Q r
    → Outcome R T r
Outcome-mono R k (ok a, s) h = k a s h
Outcome-mono R k (err _, s) h = h

pub Outcome-both {ℓ} :
    {S E A : Type ℓ} {R R' : S → Type ℓ} {Q T : A → S → Type ℓ}
    → ((s : S) → R s → R' s)
    → ((a : A) (s : S) → Q a s → T a s)
    → (r : Result E A × S) → Outcome R Q r
    → Outcome R' T r
Outcome-both h k (ok a, s) o = k a s o
Outcome-both h k (err _, s) o = h s o

pub Ensures-mono {ℓ} :
    {S E A : Type ℓ} {P R R' : S → Type ℓ} {Q T : A → S → Type ℓ} {m : Action S E A}
    → ((s : S) → R s → R' s)
    → ((a : A) (s : S) → Q a s → T a s)
    → Ensures R Q P m
    → Ensures R' T P m
Ensures-mono {m = m} h k e = record { at = λ s p. Outcome-both h k (m s) (e.at s p) }
