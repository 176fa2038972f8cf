-- ===== src/Notes/Title.antt =====
-- scrybe-core/src/notes.rs: the title that a model makes up. What counts as alphanumeric is Unicode's,
-- a parameter.
pub mod Clean
use scrybe.Common.{
  ℕ, Bool, true, false, ◌||◌, Option, none, some, List, [], ◌∷◌, ◌++◌, take, ◌==◌, if◌then◌else◌,
}
use mathlib.Core.List.{reverse}
use scrybe.Text.{Text, trim, is_whitespace}
use scrybe.Notes.Document.{doc_lines, is_blank}

unfoldable pub drop_while : (ℕ → Bool) → Text → Text
drop_while p [] = []
drop_while p (c ∷ s) = let rest = drop_while p s in if p c then rest else c ∷ s

unfoldable pub trim_matches : (ℕ → Bool) → Text → Text
trim_matches p s = reverse (drop_while p (reverse (drop_while p s)))

-- a quote, an apostrophe, a backtick, and the characters # * - : and space
unfoldable pub is_decoration : ℕ → Bool
is_decoration c =
    c == 34 || c == 39 || c == 96 || c == 35 || c == 42 || c == 45 || c == 58 || c == 32

-- the first of the trimmed lines that has text
unfoldable pub first_line : List Text → Option Text
first_line [] = none
first_line (line ∷ rest) =
    let later = first_line rest in if is_blank line then later else some (trim line)

-- a word, unless it is empty
push_word : Text → List Text → List Text
push_word [] rest = rest
push_word (c ∷ word) rest = (c ∷ word) ∷ rest

-- the words, from the part of the first one that is read
split_from : Text → Text → List Text
unfolding push_word
split_from word [] = push_word word []
split_from word (c ∷ s) = elim (is_whitespace c) [
  | true ↦ push_word word (split_from [] s)
  | false ↦ split_from (word ++ c ∷ []) s
]

unfoldable pub split_whitespace : Text → List Text
unfolding split_from
split_whitespace s = split_from [] s

-- `join(" ")`
unfoldable pub join_spaced : List Text → Text
join_spaced [] = []
join_spaced (word ∷ []) = word
join_spaced (word ∷ next ∷ rest) = word ++ 32 ∷ join_spaced (next ∷ rest)

unfoldable pub any_of : (ℕ → Bool) → Text → Bool
any_of p [] = false
any_of p (c ∷ s) = p c || any_of p s

module _ (is_alphanumeric : ℕ → Bool) where
  unfoldable pub clean_line : Text → Option Text
  clean_line line =
      let clipped = take 80 (join_spaced (split_whitespace (trim_matches is_decoration line))) in
      let title = trim_matches is_decoration clipped in
      if any_of is_alphanumeric title then some title else none

  unfoldable pub clean_generated_title : Text → Option Text
  clean_generated_title raw = elim (first_line (doc_lines raw)) [
    | none ↦ none
    | some line ↦ clean_line line
  ]
