-- ===== src/Notes/Segments.antt =====
-- scrybe-core/src/notes_segments.rs: `pack_segments`. Token counts are u32 and their running total
-- is a u64. The total is a plain number here: before each sum it is at most the larger one of the
-- target and a single count, so a u64 holds it.
pub mod Packed
use scrybe.Common.{
  ℕ, ◌+◌, ◌-◌, Bool, true, false, not, ◌&&◌, List, [], ◌∷◌, ◌++◌, ltb, length, drop,
}
use scrybe.Text.{Text}

pub record TranscriptSegment : Type 0 where
  pub ordinal : ℕ
  pub speaker : Text
  pub start_ms : ℕ
  pub text : Text

pub record SegmentChunk : Type 0 where
  pub segments : List TranscriptSegment
  pub overlap : List TranscriptSegment

abbrev pub is_empty {ℓ} : {A : Type ℓ} → List A → Bool
is_empty [] = true
is_empty (_ ∷ _) = false

unfoldable pub trailing : List TranscriptSegment → ℕ → List TranscriptSegment
trailing items n = drop (length items - n) items

module _ (target overlap_len : ℕ) (count_tokens : TranscriptSegment → ℕ) where
  abbrev pub would_overflow : List TranscriptSegment → ℕ → TranscriptSegment → Bool
  would_overflow current current_tokens segment =
      not (is_empty current) && ltb target (current_tokens + count_tokens segment)

  -- the last chunk, after the loop
  close : List TranscriptSegment → List TranscriptSegment → List SegmentChunk
  close [] pending_overlap = []
  close (s ∷ current) pending_overlap =
      record { segments = s ∷ current; overlap = pending_overlap } ∷ []

  -- the loop from its state on: the chunks that it still pushes, in order
  unfoldable pub pack_from :
      List TranscriptSegment
      → List TranscriptSegment
      → ℕ
      → List TranscriptSegment
      → List SegmentChunk
  unfolding close
  pack_from [] current current_tokens pending_overlap = close current pending_overlap
  pack_from (segment ∷ rest) current current_tokens pending_overlap =
      elim (would_overflow current current_tokens segment) [
        | true ↦
            record { segments = current; overlap = pending_overlap }
            ∷ pack_from rest (segment ∷ []) (0 + count_tokens segment)
                (trailing current overlap_len)
        | false ↦
            pack_from rest (current ++ segment ∷ []) (current_tokens + count_tokens segment)
              pending_overlap
      ]

  unfoldable pub pack_segments : List TranscriptSegment → List SegmentChunk
  pack_segments segments = pack_from segments [] 0 []
