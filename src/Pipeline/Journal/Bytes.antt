-- ===== src/Pipeline/Journal/Bytes.antt =====
-- Lists of segments: what a commit adds to the ones that are there.
use scrybe.Common.{
  ℕ, zero, suc, ◌≡◌, refl, sym, ap, ◌∙◌, Option, some, List, [], ◌∷◌, ◌++◌, map, length, get_elem?,
  ◌==◌, arith, if◌then◌else◌,
}
use mathlib.Core.List.{append_assoc}
use scrybe.Pipeline.Merge.Segments.{concat}
use scrybe.Pipeline.Journal.{put_segment, samples_to_le_bytes, to_le_bytes}

-- the committed segments, numbered from 0, hold these samples, and no other is committed
abbrev pub Stores : List (List ℕ) → (ℕ → Option (List ℕ)) → Type 0
Stores segments segment = (i : ℕ) → segment i ≡ get_elem? (map samples_to_le_bytes segments) i

get_elem?-append_one :
    (bytes : List ℕ) (l : List (List ℕ)) (i : ℕ)
    → (if i == length l then some bytes else get_elem? l i) ≡ get_elem? (l ++ bytes ∷ []) i
get_elem?-append_one bytes [] zero = refl
get_elem?-append_one bytes [] (suc i) = ground arith
get_elem?-append_one bytes (x ∷ l) zero = ground arith
get_elem?-append_one bytes (x ∷ l) (suc i) =
    let e : (suc i == suc (length l)) ≡ (i == length l) = ground arith in
    rw e (get_elem?-append_one bytes l i)

map-append_one :
    (l : List (List ℕ)) (x : List ℕ)
    → map samples_to_le_bytes (l ++ x ∷ [])
      ≡ map samples_to_le_bytes l ++ samples_to_le_bytes x ∷ []
map-append_one [] x = refl
map-append_one (y ∷ l) x = ap (λ k. samples_to_le_bytes y ∷ k) (map-append_one l x)

length-encoded : (l : List (List ℕ)) → length (map samples_to_le_bytes l) ≡ length l
length-encoded [] = refl
length-encoded (x ∷ l) = ap suc (length-encoded l)

pub append_nil : (l : List ℕ) → l ++ [] ≡ l
append_nil [] = refl
append_nil (x ∷ l) = ap (λ k. x ∷ k) (append_nil l)

pub concat-append_one : (l : List (List ℕ)) (x : List ℕ) → concat (l ++ x ∷ []) ≡ concat l ++ x
concat-append_one [] x = append_nil x
concat-append_one (y ∷ l) x =
    ap (λ k. y ++ k) (concat-append_one l x) ∙ sym (append_assoc y (concat l) x)

pub samples_to_le_bytes-append :
    (l r : List ℕ) → samples_to_le_bytes (l ++ r) ≡ samples_to_le_bytes l ++ samples_to_le_bytes r
unfolding samples_to_le_bytes to_le_bytes
samples_to_le_bytes-append [] r = refl
samples_to_le_bytes-append (w ∷ l) r = rw (samples_to_le_bytes-append l r) refl

pub put_segment-Stores :
    (segments : List (List ℕ)) (x : List ℕ) (segment : ℕ → Option (List ℕ)) (seq : ℕ)
    → seq ≡ length segments
    → Stores segments segment
    → Stores (segments ++ x ∷ []) (put_segment seq (samples_to_le_bytes x) segment)
put_segment-Stores segments x segment seq e h i =
    rw
      (
        map-append_one segments x,
        sym (get_elem?-append_one (samples_to_le_bytes x) (map samples_to_le_bytes segments) i),
        e,
        length-encoded segments,
        h i,
      )
      refl
