-- ===== src/Sessions/Paging.antt =====
-- scrybe-application/src/paging.rs: the paging contract of every listing and search.
pub mod Walk
use scrybe.Common.{
  ℕ, zero, suc, ◌+◌, Bool, Option, none, some, List, [], ◌∷◌, ltb, min, length, take, drop,
  if◌then◌else◌, get_or_else,
}

abbrev pub default_page_limit : ℕ
default_page_limit = 20

abbrev pub max_page_limit : ℕ
max_page_limit = 200

pub record PageRequest : Type 0 where
  pub offset : ℕ
  pub limit : ℕ

unfoldable pub first : PageRequest
first = record { offset = 0; limit = default_page_limit }

unfoldable pub new : ℕ → ℕ → PageRequest
new offset limit = record {
  offset = offset;
  limit = if ltb limit 1 then 1 else if ltb max_page_limit limit then max_page_limit else limit;
}

-- the wire form: a field that is missing takes its default
pub record RawPageRequest : Type 0 where
  pub offset : Option ℕ
  pub limit : Option ℕ

unfoldable pub from_raw : RawPageRequest → PageRequest
from_raw value = new (get_or_else value.offset 0) (get_or_else value.limit default_page_limit)

pub record Page {ℓ} (A : Type ℓ) : Type ℓ where
  pub items : List A
  pub offset : ℕ
  pub total : ℕ
  pub has_more : Bool

unfoldable pub paginate {ℓ} : {A : Type ℓ} → List A → PageRequest → Page A
paginate all request =
    let total = length all in
    let offset = min request.offset total in
    let items = take request.limit (drop offset all) in
    record {
      items = items;
      offset = offset;
      total = total;
      has_more = ltb (offset + length items) total;
    }
