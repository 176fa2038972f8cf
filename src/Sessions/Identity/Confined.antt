-- ===== src/Sessions/Identity/Confined.antt =====
-- A session's reference names at most one direct child of the storage root.
use scrybe.Common.{
  ℕ, ◌≡◌, ◌≢◌, refl, inl, inr, Bool, true, false, ◌||◌, Option, none, some, [], ◌∷◌, All, All-mono,
  ◌==◌, if◌then◌else◌, Bool-cases, arith,
}
use mathlib.Core.Path.{subst}
use scrybe.Text.{Text, trim, trim_start, text_eq}
use scrybe.Sessions.Identity.{
  empty, control, absolute, traversal, separator, drive_or_stream, is_empty, any, starts_with,
  is_control, is_separator, segments, any_dots, validate,
}

-- What makes a text one name in a directory: it is not blank, no character of it separates, names a
-- drive or is a control character, and it is neither the directory itself nor its parent.
pub record IsConfined (name : Text) : Type 0 where
  pub nonempty : name ≢ []
  pub one_component : All (λ c. (c ≢ 47) × (c ≢ 92)) name
  pub no_drive : All (λ c. c ≢ 58) name
  pub printable : any is_control name ≡ false
  pub not_itself : name ≢ 46 ∷ []
  pub not_parent : name ≢ 46 ∷ 46 ∷ []

-- one condition of a chain of returns
passed :
    {E : Type 0} (b : Bool) (e : E) (rest : Option E)
    → (if b then some e else rest) ≡ none
    → (b ≡ false) × (rest ≡ none)
passed true e rest h = cc
passed false e rest h = (refl, h)

any-All : (p : ℕ → Bool) (s : Text) → any p s ≡ false → All (λ c. p c ≡ false) s
any-All p [] h = tt
any-All p (c ∷ s) h = elim (Bool-cases (p c)) [
  | inl e ↦ absurd (ground arith)
  | inr e ↦ (e, any-All p s (ground arith))
]

no_separator : (c : ℕ) → is_separator c ≡ false → (c ≢ 47) × (c ≢ 92)
no_separator c h = ground arith

no_colon : (c : ℕ) → (c == 58) ≡ false → c ≢ 58
no_colon c h = ground arith

not_blank : (s : Text) → is_empty (trim s) ≡ false → s ≢ []
unfolding trim trim_start
not_blank [] h e = cc
not_blank (c ∷ s) h e = cc

not_dots : (s t : Text) → any_dots (segments s) ≡ false → any_dots (segments t) ≡ true → s ≢ t
not_dots s t h k e = let l = subst (λ u. any_dots (segments u) ≡ false) e h in cc

-- A text that `validate` lets through is one name in a directory, whatever the platform says of
-- absolute paths.
pub validate-IsConfined :
    (is_absolute : Text → Bool) (candidate : Text)
    → validate is_absolute candidate ≡ none
    → IsConfined candidate
unfolding validate text_eq
validate-IsConfined is_absolute candidate h =
    let (named, h1) = passed (is_empty (trim candidate)) empty _ h in
    let (printed, h2) = passed (any is_control candidate) control _ h1 in
    let (relative, h3) =
      passed (starts_with 47 candidate || starts_with 92 candidate || is_absolute candidate)
        absolute _ h2 in
    let (straight, h4) = passed (any_dots (segments candidate)) traversal _ h3 in
    let (whole, h5) = passed (any is_separator candidate) separator _ h4 in
    let (undriven, h6) = passed (any (λ c. c == 58) candidate) drive_or_stream _ h5 in
    record {
      nonempty = not_blank candidate named;
      one_component = All-mono _ _ no_separator candidate (any-All is_separator candidate whole);
      no_drive = All-mono _ _ no_colon candidate (any-All (λ c. c == 58) candidate undriven);
      printable = printed;
      not_itself = not_dots candidate _ straight refl;
      not_parent = not_dots candidate _ straight refl;
    }
