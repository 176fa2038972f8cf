-- ===== src/Notes/Transcript/Decimal.antt =====
-- Decimal numbers read back, and so the timestamps that are made of them.
use scrybe.Common.{
  ℕ, zero, suc, ◌+◌, ◌-◌, ◌*◌, ◌/◌, ◌%◌, ◌^◌, ◌<◌, ◌≤◌, ◌≡◌, ◌≢◌, refl, ap, ◌∙◌, inl, inr, false,
  ◌&&◌, ◌||◌, Option, none, some, [], ◌∷◌, ◌++◌, All, All-append, All-mono, ltb, leb, ◌==◌,
  Bool-cases, arith,
}
use native.Mathlib.Nat.{pow-suc}
use scrybe.Common.Words.{u64_max, u64_mod}
use scrybe.Text.{Text}
use scrybe.Notes.Transcript.{
  show_from, two_digits, parse_digits, parse_u64, parse_unsigned, split_colon, before_parts,
  parse_hms, hms_parts, hms_value, format_hms_ms,
}

abbrev pub IsDecimal : ℕ → Type 0
IsDecimal c = (48 ≤ c) × (c ≤ 57)

-- one more digit behind a value
abbrev read_digit : Option ℕ → ℕ → Option ℕ
read_digit none c = none
read_digit (some v) c = parse_digits v (c ∷ [])

parse_digits-append :
    (acc c : ℕ) (l : Text) → parse_digits acc (l ++ c ∷ []) ≡ read_digit (parse_digits acc l) c
unfolding parse_digits
parse_digits-append acc c [] = refl
parse_digits-append acc c (d ∷ l) =
    elim (Bool-cases (leb 48 d && leb d 57 && leb (acc * 10 + (d - 48)) u64_max)) [
      | inl e ↦ rw (parse_digits, e) (parse_digits-append (acc * 10 + (d - 48)) c l)
      | inr e ↦ rw (parse_digits, e) refl
    ]

parse_digits-one :
    (v d : ℕ) → d < 10 → v * 10 + d ≤ u64_max → parse_digits v ((48 + d) ∷ []) ≡ some (v * 10 + d)
unfolding parse_digits
parse_digits-one v d h k = ground arith

parse_digits-show_from :
    (fuel n : ℕ) → n < 10 ^ fuel → n ≤ u64_max → parse_digits 0 (show_from fuel n) ≡ some n
unfolding show_from
parse_digits-show_from zero n h k = let e : 0 ≡ n = omega arith in unfold parse_digits in ap some e
parse_digits-show_from (suc fuel) n h k = elim (Bool-cases (ltb n 10)) [
  | inl e ↦
      let low : n < 10 = ground arith in
      let same : 0 * 10 + n ≡ n = omega arith in
      rw (show_from, e) (parse_digits-one 0 n low (omega (arith, k)) ∙ ap some same)
  | inr e ↦
      let below : n / 10 < 10 ^ fuel = omega (arith, h, pow-suc 10 fuel) in
      let same : n / 10 * 10 + n % 10 ≡ n = omega arith in
      rw (show_from, e)
        (parse_digits-append 0 (48 + n % 10) (show_from fuel (n / 10))
          ∙ ap (λ o. read_digit o (48 + n % 10))
              (parse_digits-show_from fuel (n / 10) below (omega arith))
          ∙ parse_digits-one (n / 10) (n % 10) (omega arith) (omega arith)
          ∙ ap some same)
]

show_from-IsDecimal : (fuel n : ℕ) → All IsDecimal (show_from fuel n)
unfolding show_from
show_from-IsDecimal zero n = tt
show_from-IsDecimal (suc fuel) n = elim (Bool-cases (ltb n 10)) [
  | inl e ↦ rw (show_from, e) ((omega arith, ground arith), tt)
  | inr e ↦
      rw (show_from, e)
        (All-append IsDecimal (show_from fuel (n / 10)) ((48 + n % 10) ∷ [])
          (show_from-IsDecimal fuel (n / 10)) ((omega arith, omega arith), tt))
]

pub two_digits-IsDecimal : (n : ℕ) → All IsDecimal (two_digits n)
unfolding two_digits
two_digits-IsDecimal n = elim (Bool-cases (ltb n 10)) [
  | inl e ↦ rw (two_digits, e) ((omega arith, omega arith), show_from-IsDecimal 20 n)
  | inr e ↦ rw (two_digits, e) (show_from-IsDecimal 20 n)
]

parse_digits-two_digits : (n : ℕ) → n ≤ u64_max → parse_digits 0 (two_digits n) ≡ some n
unfolding two_digits parse_digits
parse_digits-two_digits n k = elim (Bool-cases (ltb n 10)) [
  | inl e ↦ rw (two_digits, e) (parse_digits-show_from 20 n (omega arith) k)
  | inr e ↦ rw (two_digits, e) (parse_digits-show_from 20 n (omega arith) k)
]

-- digits are parsed without a sign
parse_u64-IsDecimal :
    (t : Text) (n : ℕ) → All IsDecimal t → t ≢ [] → parse_digits 0 t ≡ some n → parse_u64 t ≡ some n
unfolding parse_u64 parse_unsigned
parse_u64-IsDecimal [] n h ne e = absurd (ne refl)
parse_u64-IsDecimal (c ∷ t) n h ne e =
    let digit : (c == 43) ≡ false = ground (arith, h.0) in rw digit e

one_more_nonempty : (l : Text) (c : ℕ) → l ++ c ∷ [] ≢ []
one_more_nonempty [] c e = cc
one_more_nonempty (d ∷ l) c e = cc

two_digits_nonempty : (n : ℕ) → two_digits n ≢ []
unfolding two_digits show_from
two_digits_nonempty n = elim (Bool-cases (ltb n 10)) [
  | inl small ↦ rw (two_digits, small) (λ e. cc)
  | inr large ↦
      rw (two_digits, show_from, large) (one_more_nonempty (show_from 19 (n / 10)) (48 + n % 10))
]

parse_u64-two_digits : (n : ℕ) → n ≤ u64_max → parse_u64 (two_digits n) ≡ some n
parse_u64-two_digits n k =
    parse_u64-IsDecimal (two_digits n) n (two_digits-IsDecimal n) (two_digits_nonempty n)
      (parse_digits-two_digits n k)

split_colon-append : (a b : Text) → All IsDecimal a → split_colon (a ++ 58 ∷ b) ≡ a ∷ split_colon b
unfolding split_colon before_parts
split_colon-append [] b h = refl
split_colon-append (c ∷ a) b h =
    let other : (c == 58) ≡ false = ground (arith, h.0) in
    rw (split_colon, other, split_colon-append a b h.1) refl

split_colon_whole : (a : Text) → All IsDecimal a → split_colon a ≡ a ∷ []
unfolding split_colon before_parts
split_colon_whole [] h = refl
split_colon_whole (c ∷ a) h =
    let other : (c == 58) ≡ false = ground (arith, h.0) in
    rw (split_colon, other, split_colon_whole a h.1) refl

-- A timestamp that is rendered from an instant below the 64-bit limit is read back as that instant,
-- less what is left of its last second.
pub parse_hms-format_hms_ms :
    (start_ms : ℕ)
    → start_ms ≤ u64_max
    → parse_hms (format_hms_ms start_ms) ≡ some (start_ms / 1000 * 1000)
unfolding parse_hms hms_parts hms_value format_hms_ms
parse_hms-format_hms_ms start_ms k =
    let total = start_ms / 1000 in
    let h = total / 3600 in
    let m = total % 3600 / 60 in
    let s = total % 60 in
    let parts : split_colon (format_hms_ms start_ms)
        ≡ two_digits h ∷ two_digits m ∷ two_digits s ∷ [] =
      split_colon-append (two_digits h) _ (two_digits-IsDecimal h)
      ∙ ap (λ l. two_digits h ∷ l)
          (split_colon-append (two_digits m) _ (two_digits-IsDecimal m)
            ∙ ap (λ l. two_digits m ∷ l)
                (split_colon_whole (two_digits s) (two_digits-IsDecimal s))) in
    let in_range : (leb 60 m || leb 60 s) ≡ false = ground arith in
    let value : (h * 3600 + m * 60 + s) * 1000 % u64_mod ≡ start_ms / 1000 * 1000 = omega arith in
    ap hms_parts parts
    ∙ ap (λ o. hms_value o (parse_u64 (two_digits m)) (parse_u64 (two_digits s)))
        (parse_u64-two_digits h (omega arith))
    ∙ ap (λ o. hms_value (some h) o (parse_u64 (two_digits s)))
        (parse_u64-two_digits m (omega arith))
    ∙ ap (hms_value (some h) (some m)) (parse_u64-two_digits s (omega arith))
    ∙ rw in_range (ap some value)

-- a digit or a colon
abbrev pub IsStamp : ℕ → Type 0
IsStamp c = (48 ≤ c) × (c ≤ 58)

two_digits-IsStamp : (n : ℕ) → All IsStamp (two_digits n)
two_digits-IsStamp n =
    All-mono IsDecimal IsStamp (λ c h. (h.0, omega (arith, h.1))) (two_digits n)
      (two_digits-IsDecimal n)

pub format_hms_ms-IsStamp : (start_ms : ℕ) → All IsStamp (format_hms_ms start_ms)
unfolding format_hms_ms
format_hms_ms-IsStamp start_ms =
    let total = start_ms / 1000 in
    All-append IsStamp (two_digits (total / 3600)) _ (two_digits-IsStamp (total / 3600)) (
      (omega arith, omega arith),
      All-append IsStamp (two_digits (total % 3600 / 60)) _ (two_digits-IsStamp (total % 3600 / 60))
          ((omega arith, omega arith), two_digits-IsStamp (total % 60)),
    )
