-- ===== src/Pipeline/Merge.antt =====
-- scrybe-core/src/pipeline/merge.rs: the journal's segments read back, and the two channels put side
-- by side. A byte is a number below 256 and a sample is the 32 bits of its `f32`, of which 0 is
-- silence. The midpoint of two samples is a parameter.
pub mod Segments
pub mod Stereo
use scrybe.Common.{
  ℕ, zero, suc, ◌+◌, ◌-◌, ◌*◌, ◌/◌, ◌%◌, Option, none, some, List, [], ◌∷◌, ◌++◌, max, length, take,
  replicate,
}
use scrybe.Common.Int.{ℤ, pos, negsuc}
use scrybe.Common.Words.{u64_mod}

-- `f32::from_le_bytes`, as bits
abbrev pub from_le_bytes : ℕ → ℕ → ℕ → ℕ → ℕ
from_le_bytes a b c d = a + 256 * b + 65536 * c + 16777216 * d

-- `as_chunks::<4>`, without the remainder
unfoldable pub decode : List ℕ → List ℕ
decode (a ∷ b ∷ c ∷ d ∷ rest) = from_le_bytes a b c d ∷ decode rest
decode _ = []

unfoldable pub decode_segment : List ℕ → List ℕ
decode_segment bytes = decode (take (length bytes - length bytes % 4) bytes)

-- the loop over the segment files from `seq` on; nothing once the fuel is used up
unfoldable pub read_from : (ℕ → Option (List ℕ)) → ℕ → ℕ → Option (List ℕ)
read_from segment zero seq = none
read_from segment (suc fuel) seq =
    let rest = read_from segment fuel (seq + 1) in
    elim (segment seq) [
      | none ↦ some []
      | some bytes ↦ elim rest [ none ↦ none | some later ↦ some (decode_segment bytes ++ later) ]
    ]

unfoldable pub read_segments : (ℕ → Option (List ℕ)) → ℕ → Option (List ℕ)
read_segments segment fuel = read_from segment fuel 0

unfoldable pub prefix_samples : ℕ → ℕ → ℕ
prefix_samples delta_abs sample_rate = delta_abs * sample_rate % u64_mod / 1000

-- the microphone's samples and the system's, the later one behind its silence
unfoldable pub align : List ℕ → List ℕ → ℤ → ℕ → List ℕ × List ℕ
align mic system (pos zero) sample_rate = (mic, system)
align mic system (pos (suc n)) sample_rate =
    (mic, replicate (prefix_samples (suc n) sample_rate) 0 ++ system)
align mic system (negsuc n) sample_rate =
    (replicate (prefix_samples (suc n) sample_rate) 0 ++ mic, system)

-- `Vec::resize` to a length that is no shorter
unfoldable pub resize : ℕ → List ℕ → List ℕ
resize len samples = take len samples ++ replicate (len - length samples) 0

unfoldable pub interleave : List ℕ → List ℕ → List ℕ
interleave (l ∷ ls) (r ∷ rs) = l ∷ r ∷ interleave ls rs
interleave _ _ = []

unfoldable pub interleave_stereo : List ℕ → List ℕ → ℤ → ℕ → List ℕ
interleave_stereo mic system delta_ms sample_rate =
    let (left, right) = align mic system delta_ms sample_rate in
    let len = max (length left) (length right) in interleave (resize len left) (resize len right)

unfoldable pub center_stereo : (ℕ → ℕ → ℕ) → List ℕ → List ℕ
center_stereo midpoint (l ∷ r ∷ rest) =
    let centered = midpoint l r in centered ∷ centered ∷ center_stereo midpoint rest
center_stereo midpoint odd = odd
