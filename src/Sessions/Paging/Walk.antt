-- ===== src/Sessions/Paging/Walk.antt =====
-- A frontend's walk over the pages of a listing.
use scrybe.Common.{
  ℕ, zero, suc, ◌+◌, ◌-◌, ◌<◌, ◌≤◌, ◌≡◌, refl, sym, ap, ◌∙◌, ◌⊎◌, inl, inr, true, false, Option,
  none, some, List, [], ◌∷◌, ◌++◌, ltb, min, max, length, length-take, length-drop, take, drop,
  take-append-drop, if◌then◌else◌, get_or_else, Bool-cases, arith,
}
use mathlib.Core.List.{append-nil}
use native.Mathlib.Nat.{zero-add, add-zero}
use scrybe.Sessions.Paging.{
  PageRequest, first, new, RawPageRequest, from_raw, paginate, default_page_limit,
}

abbrev pub IsClamped : PageRequest → Type 0
IsClamped request = (1 ≤ request.limit) × (request.limit ≤ 200)

new-IsClamped : (offset limit : ℕ) → IsClamped (new offset limit)
unfolding new
new-IsClamped offset limit = (ground arith, ground arith)

-- Every request that the type can be given, also one that arrives over the wire, asks for at least
-- one row and at most 200: for what it was given, or the nearest one of these two bounds.
pub request-IsClamped :
    (raw : RawPageRequest) (offset limit : ℕ)
    → IsClamped first
      × IsClamped (from_raw raw)
      × IsClamped (new offset limit)
      × ((new offset limit).limit ≡ max 1 (min limit 200))
unfolding first from_raw new
request-IsClamped raw offset limit = (
  (omega arith, omega arith),
  new-IsClamped (get_or_else raw.offset 0) (get_or_else raw.limit default_page_limit),
  new-IsClamped offset limit,
  ground arith,
)

length_zero {ℓ} : {A : Type ℓ} (l : List A) → length l ≡ 0 → l ≡ []
length_zero [] h = refl
length_zero (x ∷ l) h = absurd (omega arith)

drop-drop {ℓ} : {A : Type ℓ} (m n : ℕ) (l : List A) → drop m (drop n l) ≡ drop (n + m) l
drop-drop m zero l = rw (zero-add m) refl
drop-drop zero (suc n) [] = rw (add-zero (suc n)) refl
drop-drop (suc m) (suc n) [] =
    let e : suc (n + suc m) ≡ suc n + suc m = omega arith in ap (λ k. drop k []) e
drop-drop m (suc n) (x ∷ l) =
    let e : suc (n + m) ≡ suc n + m = omega arith in drop-drop m n l ∙ ap (λ k. drop k (x ∷ l)) e

abbrev prefixed {ℓ} : {A : Type ℓ} → List A → Option (List A) → Option (List A)
prefixed items none = none
prefixed items (some rest) = some (items ++ rest)

-- A page's rows are the ones at its offset, at most the limit, none of them missing: they are all
-- that is left, and then there is no more to fetch, or they fill the limit and the rest, which is
-- not empty, is still to fetch. The offset is within the list, and the total is the list's length.
pub paginate-window {ℓ} :
    {A : Type ℓ} (all : List A) (request : PageRequest)
    → let page = paginate all request in
      let rest = drop request.limit (drop page.offset all) in
      (page.items ++ rest ≡ drop page.offset all)
      × (page.total ≡ length all)
      × (page.offset ≤ length all)
      × (((page.has_more ≡ false) × (rest ≡ []))
          ⊎ ((page.has_more ≡ true) × (length page.items ≡ request.limit) × (1 ≤ length rest)))
unfolding paginate
paginate-window all request =
    let o = min request.offset (length all) in
    let l = drop o all in
    let here = length-take request.limit l in
    let left = length-drop request.limit l in
    let below = length-drop o all in
    (
      take-append-drop request.limit l,
      refl,
      omega arith,
      elim (Bool-cases (ltb (o + length (take request.limit l)) (length all))) [
        | inl more ↦ inr (more, ground (arith, here, below), ground (arith, here, left, below))
        | inr last ↦
            inl (last, length_zero (drop request.limit l) (ground (arith, here, left, below)))
      ],
    )

-- the rows that a frontend has after it fetches page after page, each at the end of the last one,
-- until a page says that there is no more; nothing if it gives up first
abbrev pub walk {ℓ} : {A : Type ℓ} → ℕ → ℕ → ℕ → List A → Option (List A)
walk zero offset limit all = none
walk (suc fuel) offset limit all =
    let page = paginate all (new offset limit) in
    let rest = walk fuel (page.offset + length page.items) limit all in
    if page.has_more then prefixed page.items rest else some page.items

walk_step {ℓ} :
    {A : Type ℓ} (fuel offset limit : ℕ) (all : List A)
    → offset ≤ length all
    → ((n : ℕ) → offset < n → n ≤ length all → walk fuel n limit all ≡ some (drop n all))
    → walk (suc fuel) offset limit all ≡ some (drop offset all)
walk_step fuel offset limit all within next =
    let request = new offset limit in
    let page = paginate all request in
    let (window, _, _, ending) = paginate-window all request in
    let here : page.offset ≡ offset = unfold paginate new in omega arith in
    let rows = window ∙ ap (λ o. drop o all) here in
    elim ending [
      | inl (last, none_left) ↦
          rw last (
            ap some
              (sym (append-nil page.items) ∙ ap (λ l. page.items ++ l) (sym none_left) ∙ rows))
      | inr (more, full, some_left) ↦
          let n = page.offset + length page.items in
          let beyond : drop request.limit (drop page.offset all) ≡ drop n all =
            drop-drop request.limit page.offset all
            ∙ ap (λ k. drop (page.offset + k) all) (sym full) in
          let left : 1 ≤ length all - n =
            omega (arith, length-drop n all, ap length beyond, some_left) in
          let later =
            next n (omega (arith, here, full, (new-IsClamped offset limit).0))
              (omega (arith, left)) in
          rw (more, later) (ap some (ap (λ l. page.items ++ l) (sym beyond) ∙ rows))
    ]

-- A frontend that fetches page after page, from an offset within the list and with any limit that
-- it likes, comes to a page without a next one, after at most one page more than rows are left,
-- and then has every row from that offset on, once and in order.
pub walk_complete {ℓ} :
    {A : Type ℓ} (fuel offset limit : ℕ) (all : List A)
    → offset ≤ length all
    → length all ≤ offset + fuel
    → walk (suc fuel) offset limit all ≡ some (drop offset all)
walk_complete zero offset limit all within enough =
    walk_step zero offset limit all within (λ n lo hi. absurd (omega (arith, enough)))
walk_complete (suc fuel) offset limit all within enough =
    walk_step (suc fuel) offset limit all within
      (λ n lo hi. walk_complete fuel n limit all hi (omega (arith, enough)))
