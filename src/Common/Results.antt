-- ===== src/Common/Results.antt =====
-- The result of code that may fail, and what the standard library does with one.
use mathlib.Core.Path.{◌≡◌, refl}
use mathlib.Core.Option.{Option, none, some}

pub data Result {ℓ} (E A : Type ℓ) : Type ℓ where
  ok : A → Result E A
  err : E → Result E A

abbrev pub ok_or {ℓ} : {E A : Type ℓ} → E → Option A → Result E A
ok_or e none = err e
ok_or e (some a) = ok a

abbrev pub map_err {ℓ} : {E E' A : Type ℓ} → (E → E') → Result E A → Result E' A
map_err f (ok a) = ok a
map_err f (err e) = err (f e)

-- the operator `?`
abbrev pub and_then {ℓ} : {E A B : Type ℓ} → Result E A → (A → Result E B) → Result E B
and_then (ok a) f = f a
and_then (err e) f = err e

pub and_then-cases {ℓ κ} :
    {E A B : Type ℓ} (P : Result E B → Type κ) (r : Result E A) (f : A → Result E B)
    → ((e : E) → P (err e))
    → ((a : A) → r ≡ ok a → P (f a))
    → P (and_then r f)
and_then-cases P (ok a) f bad good = good a refl
and_then-cases P (err e) f bad good = bad e

pub map_err-ok {ℓ} :
    {E E' A : Type ℓ} (f : E → E') (r : Result E A) (a : A) → map_err f r ≡ ok a → r ≡ ok a
map_err-ok f (ok b) a h = cc
map_err-ok f (err e) a h = absurd cc

pub ok_or-ok {ℓ} : {E A : Type ℓ} (e : E) (o : Option A) (a : A) → ok_or e o ≡ ok a → o ≡ some a
ok_or-ok e none a h = absurd cc
ok_or-ok e (some b) a h = cc
