-- ===== src/Notes/Title/Clean.antt =====
-- What a title that is cleaned looks like, whatever the model wrote.
use scrybe.Common.{
  ℕ, ◌≤◌, ◌≡◌, ◌≢◌, refl, sym, ap, ◌∙◌, ◌⊎◌, inl, inr, Bool, true, false, Option, none, some, List,
  [], ◌∷◌, ◌++◌, All, All-append, All-take, All-reverse_aux, length-reverse_aux, All-mono, length,
  length-take, take, Bool-cases, arith,
}
use mathlib.Core.Path.{subst}
use mathlib.Core.List.{reverse, reverse_aux-eq, reverse-append, reverse-reverse}
use scrybe.Text.{Text, is_whitespace}
use scrybe.Notes.Document.{doc_lines}
use scrybe.Notes.Title.{
  drop_while, trim_matches, is_decoration, push_word, split_from, split_whitespace, join_spaced,
  any_of, clean_line, first_line, clean_generated_title,
}

module _ (p : ℕ → Bool) where
  All-drop_while : (P : ℕ → Type 0) (s : Text) → All P s → All P (drop_while p s)
  unfolding drop_while
  All-drop_while P [] h = tt
  All-drop_while P (c ∷ s) h = elim (Bool-cases (p c)) [
    | inl e ↦ rw e (All-drop_while P s h.1)
    | inr e ↦ rw e h
  ]

  length-drop_while : (s : Text) → length (drop_while p s) ≤ length s
  unfolding drop_while
  length-drop_while [] = omega arith
  length-drop_while (c ∷ s) = elim (Bool-cases (p c)) [
    | inl e ↦ rw e (omega (arith, length-drop_while s))
    | inr e ↦ rw e (omega arith)
  ]

  All-trim_matches : (P : ℕ → Type 0) (s : Text) → All P s → All P (trim_matches p s)
  unfolding trim_matches
  All-trim_matches P s h =
      All-reverse_aux P _ [] (All-drop_while P _ (All-reverse_aux P _ [] (All-drop_while P s h) tt))
        tt

  length-trim_matches : (s : Text) → length (trim_matches p s) ≤ length s
  unfolding trim_matches
  length-trim_matches s =
      let front = drop_while p s in
      let back = drop_while p (reverse front) in
      omega (
        arith,
        length-drop_while s,
        length-drop_while (reverse front),
        length-reverse_aux front [],
        length-reverse_aux back [],
      )

  -- a text that is empty or begins with another character
  abbrev BeginsClean : Text → Type 0
  BeginsClean [] = Unit
  BeginsClean (c ∷ s) = p c ≡ false

  drop_while-BeginsClean : (s : Text) → BeginsClean (drop_while p s)
  unfolding drop_while
  drop_while-BeginsClean [] = tt
  drop_while-BeginsClean (c ∷ s) = elim (Bool-cases (p c)) [
    | inl e ↦ rw e (drop_while-BeginsClean s)
    | inr e ↦ rw e e
  ]

  -- a last character that stays keeps everything from the first one that stays
  drop_while-append :
      (s : Text) (c : ℕ) → p c ≡ false → drop_while p (s ++ c ∷ []) ≡ drop_while p s ++ c ∷ []
  unfolding drop_while
  drop_while-append [] c e = rw e refl
  drop_while-append (d ∷ s) c e = elim (Bool-cases (p d)) [
    | inl f ↦ rw f (drop_while-append s c e)
    | inr f ↦ rw f refl
  ]

  trimmed_end : (t : Text) → BeginsClean t → BeginsClean (reverse (drop_while p (reverse t)))
  unfolding drop_while
  trimmed_end [] h = tt
  trimmed_end (c ∷ t) h =
      let kept : reverse (drop_while p (reverse (c ∷ t))) ≡ c ∷ reverse (drop_while p (reverse t)) =
        ap (λ l. reverse (drop_while p l)) (reverse_aux-eq t (c ∷ []))
        ∙ ap reverse (drop_while-append (reverse t) c h)
        ∙ reverse-append (drop_while p (reverse t)) (c ∷ []) in
      subst BeginsClean (sym kept) h

  -- neither the first nor the last character is one that was trimmed
  abbrev IsTrimmed : Text → Type 0
  IsTrimmed s = BeginsClean s × BeginsClean (reverse s)

  trim_matches-IsTrimmed : (s : Text) → IsTrimmed (trim_matches p s)
  unfolding trim_matches
  trim_matches-IsTrimmed s =
      let back = drop_while p (reverse (drop_while p s)) in
      (
        trimmed_end (drop_while p s) (drop_while-BeginsClean s),
        subst BeginsClean (sym (reverse-reverse back))
            (drop_while-BeginsClean (reverse (drop_while p s))),
      )

abbrev IsInk : ℕ → Type 0
IsInk c = is_whitespace c ≡ false

push_word-IsInk :
    (word : Text) (rest : List Text)
    → All IsInk word
    → All (All IsInk) rest
    → All (All IsInk) (push_word word rest)
unfolding push_word
push_word-IsInk [] rest h k = k
push_word-IsInk (c ∷ word) rest h k = (h, k)

split_from-IsInk : (word s : Text) → All IsInk word → All (All IsInk) (split_from word s)
unfolding split_from
split_from-IsInk word [] h = push_word-IsInk word [] h tt
split_from-IsInk word (c ∷ s) h =
    on (is_whitespace c) refl (split_from-IsInk [] s tt)
      (λ e. split_from-IsInk (word ++ c ∷ []) s (All-append IsInk word (c ∷ []) h (e, tt)))
  where
    on :
        (b : Bool)
        → is_whitespace c ≡ b
        → All (All IsInk) (split_from [] s)
        → (IsInk c → All (All IsInk) (split_from (word ++ c ∷ []) s))
        → All (All IsInk) (elim b as (λ _. List Text) [
          | true ↦ push_word word (split_from [] s)
          | false ↦ split_from (word ++ c ∷ []) s
        ])
    on true e later grown = push_word-IsInk word _ h later
    on false e later grown = grown e

-- a text that is empty or whose first character is neither of " ' ` # * - : and space
abbrev pub BeginsPlain : Text → Type 0
BeginsPlain [] = Unit
BeginsPlain (c ∷ s) =
    (c ≢ 34) × (c ≢ 39) × (c ≢ 96) × (c ≢ 35) × (c ≢ 42) × (c ≢ 45) × (c ≢ 58) × (c ≢ 32)

BeginsClean-BeginsPlain : (s : Text) → BeginsClean is_decoration s → BeginsPlain s
unfolding is_decoration
BeginsClean-BeginsPlain [] h = tt
BeginsClean-BeginsPlain (c ∷ s) h = ground arith

-- no white space but plain spaces
abbrev pub IsSpaced : ℕ → Type 0
IsSpaced c = (is_whitespace c ≡ false) ⊎ (c ≡ 32)

join_spaced-IsSpaced :
    (words : List Text) → All (All IsInk) words → All IsSpaced (join_spaced words)
unfolding join_spaced
join_spaced-IsSpaced [] h = tt
join_spaced-IsSpaced (word ∷ []) h = All-mono IsInk IsSpaced (λ c e. inl e) word h.0
join_spaced-IsSpaced (word ∷ next ∷ rest) h =
    All-append IsSpaced word _ (All-mono IsInk IsSpaced (λ c e. inl e) word h.0)
      (inr refl, join_spaced-IsSpaced (next ∷ rest) h.1)

module _ (is_alphanumeric : ℕ → Bool) where
  -- a title that may stand in one line of a document and in a folder's name
  abbrev pub IsTitle : Option Text → Type 0
  IsTitle none = Unit
  IsTitle (some title) =
      (length title ≤ 80)
      × All IsSpaced title
      × BeginsPlain title
      × BeginsPlain (reverse title)
      × (any_of is_alphanumeric title ≡ true)

  clean_line-IsTitle : (line : Text) → IsTitle (clean_line is_alphanumeric line)
  unfolding clean_line split_whitespace
  clean_line-IsTitle line =
      let joined = join_spaced (split_from [] (trim_matches is_decoration line)) in
      let title = trim_matches is_decoration (take 80 joined) in
      let ends = trim_matches-IsTrimmed is_decoration (take 80 joined) in
      elim (Bool-cases (any_of is_alphanumeric title)) [
        | inl e ↦ rw e (
          omega (arith, length-trim_matches is_decoration (take 80 joined), length-take 80 joined),
          All-trim_matches is_decoration IsSpaced _ (
              All-take IsSpaced 80 joined (
                join_spaced-IsSpaced _ (split_from-IsInk [] (trim_matches is_decoration line) tt))),
          BeginsClean-BeginsPlain title ends.0,
          BeginsClean-BeginsPlain (reverse title) ends.1,
          e,
        )
        | inr e ↦ rw e tt
      ]

  -- Whatever text a model writes, the title that is made of it has at most 80 characters, of which
  -- no white space but plain spaces, so no line break, neither begins nor ends with a quote, an
  -- apostrophe, a backtick, # * - : or a space, and has an alphanumeric character; or there is none.
  pub clean_generated_title-IsTitle :
      (raw : Text) → IsTitle (clean_generated_title is_alphanumeric raw)
  unfolding clean_generated_title
  clean_generated_title-IsTitle raw = on (first_line (doc_lines raw))
    where
      on :
          (line : Option Text)
          → IsTitle (elim line as (λ _. Option Text) [
            | none ↦ none
            | some text ↦ clean_line is_alphanumeric text
          ])
      on none = tt
      on (some text) = clean_line-IsTitle text
