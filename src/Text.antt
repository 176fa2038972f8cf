-- ===== src/Text.antt =====
-- What the program uses of the standard library's `str`. A text is its list of code points.
pub mod Lines
use Prim.Native.Char.{code}
use Prim.Native.String.{String}
use scrybe.Common.{
  ℕ, ◌≡◌, Bool, true, false, ◌&&◌, ◌||◌, Option, none, some, List, [], ◌∷◌, ◌++◌, leb, ◌==◌, arith,
  if◌then◌else◌,
}
use mathlib.Core.List.{reverse}

abbrev pub Text : Type 0
Text = List ℕ

-- a literal
abbrev pub codes : String → Text
codes String.[] = []
codes (String.◌∷◌ c s) = code c ∷ codes s

-- `char::is_whitespace`
unfoldable pub is_whitespace : ℕ → Bool
is_whitespace c =
    leb 9 c && leb c 13
    || c == 32
    || c == 133
    || c == 160
    || c == 5760
    || leb 8192 c && leb c 8202
    || c == 8232
    || c == 8233
    || c == 8239
    || c == 8287
    || c == 12288

unfoldable pub trim_start : Text → Text
unfolding is_whitespace
trim_start [] = []
trim_start (c ∷ s) = if is_whitespace c then trim_start s else c ∷ s

unfoldable pub trim : Text → Text
unfolding trim_start
trim s = reverse (trim_start (reverse (trim_start s)))

-- `==` on texts
unfoldable pub text_eq : Text → Text → Bool
text_eq [] [] = true
text_eq (a ∷ s) (b ∷ t) = a == b && text_eq s t
text_eq _ _ = false

pub text_eq→eq : (s t : Text) → text_eq s t ≡ true → s ≡ t
unfolding text_eq
text_eq→eq [] [] h = ground arith
text_eq→eq [] (b ∷ t) h = ground arith
text_eq→eq (a ∷ s) [] h = ground arith
text_eq→eq (a ∷ s) (b ∷ t) h = ground (arith, text_eq→eq s t)

pub text_eq_refl : (s : Text) → text_eq s s ≡ true
unfolding text_eq
text_eq_refl [] = ground arith
text_eq_refl (a ∷ s) = ground (arith, text_eq_refl s)

-- the first character before the lines of the rest
before_lines : ℕ → List Text → List Text
before_lines c [] = (c ∷ []) ∷ []
before_lines c (line ∷ rest) = (c ∷ line) ∷ rest

-- `str::lines`: a last line needs no newline, and a final newline begins no line. A carriage
-- return before a newline stays here; each caller trims its lines, and it is whitespace.
unfoldable pub lines : Text → List Text
unfolding before_lines
lines [] = []
lines (c ∷ s) = let rest = lines s in if c == 10 then [] ∷ rest else before_lines c rest
