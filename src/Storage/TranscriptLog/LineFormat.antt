-- ===== src/Storage/TranscriptLog/LineFormat.antt =====
-- A small line format, to run the log with: a number is its unary digits and a stop, and everything
-- else is its numbers. It stands in for serde_json in the tests.
pub mod Codec
use scrybe.Common.{
  ℕ, zero, suc, ◌≡◌, ◌≢◌, refl, ap, ◌∙◌, false, Option, none, some, List, [], ◌∷◌, All, arith,
  length, ◌==◌, if◌then◌else◌,
}
use scrybe.Text.{Text, is_whitespace}

abbrev IsDigit : ℕ → Type 0
IsDigit c = is_whitespace c ≡ false × (c ≢ 10)

-- a value's form before the rest of a line, and back
record Form {ℓ} (A : Type ℓ) : Type ℓ where
  pub write : A → Text → Text
  pub read : Text → Option (A × Text)
  pub reads : (a : A) (rest : Text) → read (write a rest) ≡ some (a, rest)
  pub digits : (a : A) (rest : Text) → All IsDigit rest → All IsDigit (write a rest)

write_number : ℕ → Text → Text
write_number zero rest = 48 ∷ rest
write_number (suc n) rest = 49 ∷ write_number n rest

counted : Option (ℕ × Text) → Option (ℕ × Text)
counted none = none
counted (some (n, rest)) = some (suc n, rest)

read_number : Text → Option (ℕ × Text)
unfolding counted
read_number [] = none
read_number (c ∷ s) = let later = read_number s in if c == 48 then some (0, s) else counted later

number : Form ℕ
unfolding write_number read_number counted is_whitespace
number = record { write = write_number; read = read_number; reads = reads; digits = digits }
  where
    reads : (n : ℕ) (rest : Text) → read_number (write_number n rest) ≡ some (n, rest)
    reads zero rest = refl
    reads (suc n) rest = ap counted (reads n rest)

    digits : (n : ℕ) (rest : Text) → All IsDigit rest → All IsDigit (write_number n rest)
    digits zero rest h = ((refl, omega arith), h)
    digits (suc n) rest h = ((refl, omega arith), digits n rest h)

module _ {A B : Type 0} (fa : Form A) (fb : Form B) where
  second : A → Option (B × Text) → Option ((A × B) × Text)
  second a none = none
  second a (some (b, rest)) = some ((a, b), rest)

  after_first : Option (A × Text) → Option ((A × B) × Text)
  after_first none = none
  after_first (some (a, rest)) = second a (fb.read rest)

  pair : Form (A × B)
  unfolding after_first second
  pair = record {
    write = λ p rest. fa.write p.0 (fb.write p.1 rest);
    read = λ s. after_first (fa.read s);
    reads = λ p rest.
        ap after_first (fa.reads p.0 (fb.write p.1 rest)) ∙ ap (second p.0) (fb.reads p.1 rest);
    digits = λ p rest h. fa.digits p.0 (fb.write p.1 rest) (fb.digits p.1 rest h);
  }

module _ {A B : Type 0} (to : A → B) (back : B → A) (same : (a : A) → back (to a) ≡ a)
    (f : Form B) where
  mapped : Option (B × Text) → Option (A × Text)
  mapped none = none
  mapped (some (b, rest)) = some (back b, rest)

  through : Form A
  unfolding mapped
  through = record {
    write = λ a. f.write (to a);
    read = λ s. mapped (f.read s);
    reads = λ a rest. ap mapped (f.reads (to a) rest) ∙ ap (λ x. some (x, rest)) (same a);
    digits = λ a. f.digits (to a);
  }

-- a list is its length and its elements
module _ {A : Type 0} (f : Form A) where
  write_all : List A → Text → Text
  write_all [] rest = rest
  write_all (a ∷ l) rest = f.write a (write_all l rest)

  read_all : ℕ → Text → Option (List A × Text)
  read_all zero s = some ([], s)
  read_all (suc n) s = elim (f.read s) [
    | none ↦ none
    | some found ↦ elim (read_all n found.1) [
      | none ↦ none
      | some others ↦ some (found.0 ∷ others.0, others.1)
    ]
  ]

  read_all-write_all :
      (l : List A) (rest : Text) → read_all (length l) (write_all l rest) ≡ some (l, rest)
  unfolding read_all write_all
  read_all-write_all [] rest = refl
  read_all-write_all (a ∷ l) rest =
      rw (f.reads a (write_all l rest), read_all-write_all l rest) refl

  write_all-digits : (l : List A) (rest : Text) → All IsDigit rest → All IsDigit (write_all l rest)
  unfolding write_all
  write_all-digits [] rest h = h
  write_all-digits (a ∷ l) rest h = f.digits a (write_all l rest) (write_all-digits l rest h)

  sized : Option (ℕ × Text) → Option (List A × Text)
  sized none = none
  sized (some (n, s)) = read_all n s

  list : Form (List A)
  unfolding sized
  list = record {
    write = λ l rest. number.write (length l) (write_all l rest);
    read = λ s. sized (number.read s);
    reads =
        λ l rest. ap sized (number.reads (length l) (write_all l rest)) ∙ read_all-write_all l rest;
    digits = λ l rest h. number.digits (length l) (write_all l rest) (write_all-digits l rest h);
  }
