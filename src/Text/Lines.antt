-- ===== src/Text/Lines.antt =====
-- `lines` reads back the lines that a text was written from.
use scrybe.Common.{ℕ, ◌≡◌, ◌≢◌, refl, inl, inr, [], ◌∷◌, ◌++◌, All, arith, ◌==◌, Bool-cases}
use scrybe.Text.{Text, lines}

abbrev pub IsOneLine : Text → Type 0
IsOneLine = All (λ c. c ≢ 10)

-- A line that ends by a newline comes first, whatever follows.
pub lines-append :
    (line rest : Text) → IsOneLine line → lines (line ++ 10 ∷ rest) ≡ line ∷ lines rest
unfolding lines
lines-append [] rest h = refl
lines-append (c ∷ line) rest h = elim (Bool-cases (c == 10)) [
  | inl e ↦ absurd (h.0 (ground arith))
  | inr e ↦ rw (e, lines-append line rest h.1)
]

-- A last line without a newline is a line too.
pub lines_torn : (c : ℕ) (line : Text) → IsOneLine (c ∷ line) → lines (c ∷ line) ≡ (c ∷ line) ∷ []
unfolding lines
lines_torn c [] h = elim (Bool-cases (c == 10)) [
  | inl e ↦ absurd (h.0 (ground arith))
  | inr e ↦ rw e
]
lines_torn c (d ∷ line) h = elim (Bool-cases (c == 10)) [
  | inl e ↦ absurd (h.0 (ground arith))
  | inr e ↦ rw (e, lines_torn d line h.1)
]
