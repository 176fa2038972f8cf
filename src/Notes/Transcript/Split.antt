-- ===== src/Notes/Transcript/Split.antt =====
-- What stands behind the first blank line of a text.
use scrybe.Common.{ℕ, ◌≡◌, ◌≢◌, refl, ◌∙◌, Option, none, some, [], ◌∷◌, ◌++◌, All, arith}
use scrybe.Text.{Text}
use scrybe.Notes.Transcript.{strip_prefix, split_once, after_char, behind}

behind-after_char : (c : ℕ) (o : Option (Text × Text)) → behind (after_char c o) ≡ behind o
unfolding after_char
behind-after_char c none = refl
behind-after_char c (some (before, after)) = refl

abbrev blank_line : Text
blank_line = 10 ∷ 10 ∷ []

behind_step :
    (c : ℕ) (s : Text)
    → strip_prefix blank_line (c ∷ s) ≡ none
    → behind (split_once blank_line (c ∷ s)) ≡ behind (split_once blank_line s)
unfolding split_once
behind_step c s e = rw (split_once, e) (behind-after_char c (split_once blank_line s))

pub behind-line :
    (line rest : Text)
    → All (λ c. c ≢ 10) line
    → behind (split_once blank_line (line ++ rest)) ≡ behind (split_once blank_line rest)
behind-line [] rest h = refl
behind-line (c ∷ line) rest h =
    behind_step c (line ++ rest) (unfold strip_prefix in ground (arith, h.0))
    ∙ behind-line line rest h.1

-- a newline that another line follows
pub behind-newline :
    (c : ℕ) (s : Text)
    → c ≢ 10
    → behind (split_once blank_line (10 ∷ c ∷ s)) ≡ behind (split_once blank_line (c ∷ s))
behind-newline c s h = behind_step 10 (c ∷ s) (unfold strip_prefix in ground (arith, h))

pub behind-blank : (s : Text) → behind (split_once blank_line (10 ∷ 10 ∷ s)) ≡ s
unfolding split_once strip_prefix
behind-blank s = refl
