-- ===== src/Pipeline/Merge/Segments.antt =====
-- The journal's samples, read back from its segments, the last of which may be torn.
use scrybe.Common.{
  ℕ, zero, suc, ◌+◌, ◌-◌, ◌*◌, ◌/◌, ◌%◌, ◌<◌, ◌≡◌, refl, ap, ◌∙◌, Option, none, some, List, [], ◌∷◌,
  ◌++◌, All, length, length-append, take, arith,
}
use scrybe.Pipeline.Journal.{samples_to_le_bytes, to_le_bytes}
use scrybe.Pipeline.Merge.{from_le_bytes, decode, decode_segment, read_from, read_segments}

abbrev pub concat : List (List ℕ) → List ℕ
concat [] = []
concat (l ∷ rest) = l ++ concat rest

-- a segment with its samples and what is torn off behind them
abbrev pub IsSegment : List ℕ → List ℕ → Type 0
IsSegment samples bytes =
    (tail : List ℕ) × (bytes ≡ samples_to_le_bytes samples ++ tail)
    × (length tail < 4)
    × All (λ s. s < 4294967296) samples

-- the segments from a number on hold these samples, and the next one is missing
abbrev pub Holds : (ℕ → Option (List ℕ)) → ℕ → List (List ℕ) → Type 0
Holds segment seq [] = segment seq ≡ none
Holds segment seq (samples ∷ rest) =
    ((bytes : List ℕ) × (segment seq ≡ some bytes) × IsSegment samples bytes)
    × Holds segment (seq + 1) rest

le_bytes :
    (s : ℕ)
    → s < 4294967296
    → from_le_bytes (s % 256) (s / 256 % 256) (s / 65536 % 256) (s / 16777216 % 256) ≡ s
le_bytes s h = omega arith

length-samples_to_le_bytes :
    (samples : List ℕ) → length (samples_to_le_bytes samples) ≡ 4 * length samples
unfolding samples_to_le_bytes to_le_bytes
length-samples_to_le_bytes [] = omega arith
length-samples_to_le_bytes (s ∷ samples) = omega (arith, length-samples_to_le_bytes samples)

take-append_length : (l r : List ℕ) (n : ℕ) → n ≡ length l → take n (l ++ r) ≡ l
take-append_length [] r zero e = refl
take-append_length [] r (suc n) e = absurd (omega arith)
take-append_length (x ∷ l) r zero e = absurd (omega arith)
take-append_length (x ∷ l) r (suc n) e = ap (λ k. x ∷ k) (take-append_length l r n (omega arith))

decode-samples_to_le_bytes :
    (samples : List ℕ)
    → All (λ s. s < 4294967296) samples
    → decode (samples_to_le_bytes samples) ≡ samples
unfolding decode samples_to_le_bytes to_le_bytes
decode-samples_to_le_bytes [] h = refl
decode-samples_to_le_bytes (s ∷ samples) h =
    rw (le_bytes s h.0, decode-samples_to_le_bytes samples h.1) refl

decode_segment-IsSegment :
    (samples bytes : List ℕ) → IsSegment samples bytes → decode_segment bytes ≡ samples
unfolding decode_segment
decode_segment-IsSegment samples bytes (tail, e, short, fit) =
    let n : length bytes - length bytes % 4 ≡ length (samples_to_le_bytes samples) = omega (
      arith,
      ap length e,
      length-append (samples_to_le_bytes samples) tail,
      length-samples_to_le_bytes samples,
    ) in
    ap decode (
      ap (λ b. take (length bytes - length bytes % 4) b) e
      ∙ take-append_length (samples_to_le_bytes samples) tail _ n)
    ∙ decode-samples_to_le_bytes samples fit

read_from-Holds :
    (segment : ℕ → Option (List ℕ)) (written : List (List ℕ)) (seq fuel : ℕ)
    → Holds segment seq written
    → length written < fuel
    → read_from segment fuel seq ≡ some (concat written)
unfolding read_from
read_from-Holds segment written seq zero h enough = absurd (omega arith)
read_from-Holds segment [] seq (suc fuel) h enough = rw (read_from, h) refl
read_from-Holds segment (samples ∷ rest) seq (suc fuel) ((bytes, e, is), h) enough =
    rw
      (
        read_from,
        e,
        read_from-Holds segment rest (seq + 1) fuel h (omega arith),
        decode_segment-IsSegment samples bytes is,
      )
      refl

-- Reading a journal whose segments, numbered from 0, each hold some samples and up to three bytes of
-- a torn one, and of which the next is missing, ends after one step more than there are segments, and
-- gives all their samples in order; the torn ones are left out.
pub read_segments-Holds :
    (segment : ℕ → Option (List ℕ)) (written : List (List ℕ)) (fuel : ℕ)
    → Holds segment 0 written
    → length written < fuel
    → read_segments segment fuel ≡ some (concat written)
unfolding read_segments
read_segments-Holds segment written fuel h enough = read_from-Holds segment written 0 fuel h enough
