-- ===== src/Sessions/Identity.antt =====
-- scrybe-application/src/identity.rs: which texts name a session. `Path::is_absolute` and
-- `char::is_control` are the standard library's; what the former says beyond a leading separator
-- depends on the platform, so it is a parameter.
pub mod Confined
use scrybe.Common.{
  ℕ, Bool, true, false, ◌||◌, ◌&&◌, Option, none, some, List, [], ◌∷◌, leb, ◌==◌, if◌then◌else◌,
}
use scrybe.Common.Action.{Result, ok, err}
use scrybe.Text.{Text, trim, text_eq}

pub data IdentityRejection : Type 0 where
  empty control absolute separator traversal drive_or_stream home_relative : IdentityRejection
  not_a_partial_file : IdentityRejection

abbrev pub is_empty : Text → Bool
is_empty [] = true
is_empty (_ ∷ _) = false

abbrev pub any : (ℕ → Bool) → Text → Bool
any p [] = false
any p (c ∷ s) = p c || any p s

abbrev pub starts_with : ℕ → Text → Bool
starts_with c [] = false
starts_with c (d ∷ s) = c == d

-- `char::is_control`
abbrev pub is_control : ℕ → Bool
is_control c = leb c 31 || leb 127 c && leb c 159

-- `/` and `\`
abbrev pub is_separator : ℕ → Bool
is_separator c = c == 47 || c == 92

-- the first segment continued by a character
abbrev pub onto_first : ℕ → List Text → List Text
onto_first c [] = (c ∷ []) ∷ []
onto_first c (segment ∷ rest) = (c ∷ segment) ∷ rest

-- `split(['/', '\\'])`
abbrev pub segments : Text → List Text
segments [] = [] ∷ []
segments (c ∷ s) = let rest = segments s in if is_separator c then [] ∷ rest else onto_first c rest

abbrev pub is_dots : Text → Bool
is_dots segment = text_eq segment (46 ∷ []) || text_eq segment (46 ∷ 46 ∷ [])

abbrev pub any_dots : List Text → Bool
any_dots [] = false
any_dots (segment ∷ rest) = is_dots segment || any_dots rest

unfoldable pub validate : (Text → Bool) → Text → Option IdentityRejection
validate is_absolute candidate =
    if is_empty (trim candidate)
    then some empty
    else if any is_control candidate
    then some control
    else if starts_with 47 candidate || starts_with 92 candidate || is_absolute candidate
    then some absolute
    else if any_dots (segments candidate)
    then some traversal
    else if any is_separator candidate
    then some separator
    else if any (λ c. c == 58) candidate
    then some drive_or_stream
    else if starts_with 126 candidate
    then some home_relative
    else none

-- `SessionRef::parse`: a reference is the text that it was parsed from
abbrev parsed : Text → Option IdentityRejection → Result IdentityRejection Text
parsed candidate none = ok candidate
parsed candidate (some rejection) = err rejection

unfoldable pub parse : (Text → Bool) → Text → Result IdentityRejection Text
parse is_absolute candidate = parsed candidate (validate is_absolute candidate)
