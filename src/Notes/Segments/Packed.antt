-- ===== src/Notes/Segments/Packed.antt =====
-- The chunks of a packed transcript: nothing is lost, split or out of order, and none is too large.
use scrybe.Common.{
  ℕ, ◌+◌, ◌<◌, ◌≤◌, ◌≡◌, ◌≢◌, refl, ap, ◌∙◌, ◌⊎◌, inl, inr, true, false, List, [], ◌∷◌, ◌++◌, map,
  sum, length, Bool-cases, arith,
}
use mathlib.Core.List.{append_assoc}
use scrybe.Notes.Segments.{
  TranscriptSegment, SegmentChunk, trailing, would_overflow, close, pack_from, pack_segments,
}

abbrev pub segments_of : List SegmentChunk → List TranscriptSegment
segments_of [] = []
segments_of (chunk ∷ rest) = chunk.segments ++ segments_of rest

module _ (target overlap_len : ℕ) (count_tokens : TranscriptSegment → ℕ) where
  abbrev pub total : List TranscriptSegment → ℕ
  total segments = sum (map count_tokens segments)

  -- whole segments within the target, or one segment alone
  abbrev pub Fits : List TranscriptSegment → Type 0
  Fits segments = (total segments ≤ target) ⊎ (length segments ≡ 1)

  -- the next chunk starts with a segment that would not have fitted
  abbrev pub IsFull : List TranscriptSegment → List SegmentChunk → Type 0
  IsFull segments [] = Unit
  IsFull segments (next ∷ _) =
      (s : TranscriptSegment) × (rest : List TranscriptSegment) × (next.segments ≡ s ∷ rest)
      × (target < total segments + count_tokens s)

  -- chunks after one that leaves this overlap
  abbrev pub IsPacked : List TranscriptSegment → List SegmentChunk → Type 0
  IsPacked overlap [] = Unit
  IsPacked overlap (chunk ∷ rest) =
      (chunk.segments ≢ [])
      × (chunk.overlap ≡ overlap)
      × Fits chunk.segments
      × IsFull chunk.segments rest
      × IsPacked (trailing chunk.segments overlap_len) rest

  pack_from_cases :
      (P : List SegmentChunk → Type 0) (segment : TranscriptSegment)
      (rest current overlap : List TranscriptSegment) (tokens : ℕ)
      → (would_overflow target overlap_len count_tokens current tokens segment ≡ true
          → P (
              record { segments = current; overlap = overlap }
              ∷ pack_from target overlap_len count_tokens rest
                  (segment ∷ [])
                  (0 + count_tokens segment)
                  (trailing current overlap_len)))
      → (would_overflow target overlap_len count_tokens current tokens segment ≡ false
          → P (
              pack_from target overlap_len count_tokens rest
                (current ++ segment ∷ [])
                (tokens + count_tokens segment)
                overlap))
      → P (pack_from target overlap_len count_tokens (segment ∷ rest) current tokens overlap)
  unfolding pack_from
  pack_from_cases P segment rest current overlap tokens over within =
      elim (Bool-cases (would_overflow target overlap_len count_tokens current tokens segment)) [
        | inl e ↦ rw (pack_from, e) (over e)
        | inr e ↦ rw (pack_from, e) (within e)
      ]

  segments_of-pack_from :
      (segments current overlap : List TranscriptSegment) (tokens : ℕ)
      → segments_of (pack_from target overlap_len count_tokens segments current tokens overlap)
        ≡ current ++ segments
  segments_of-pack_from [] [] overlap tokens = unfold pack_from close in refl
  segments_of-pack_from [] (s ∷ current) overlap tokens = unfold pack_from close in refl
  segments_of-pack_from (s ∷ segments) current overlap tokens =
      pack_from_cases (λ l. segments_of l ≡ current ++ s ∷ segments) s segments current overlap
        tokens (λ e. ap (λ l. current ++ l) (segments_of-pack_from segments (s ∷ []) _ _))
        (λ e.
          segments_of-pack_from segments (current ++ s ∷ []) _ _
          ∙ append_assoc current (s ∷ []) segments)

  -- the first chunk begins with what the current one begins with
  head_of-pack_from :
      (closed segments current overlap : List TranscriptSegment) (tokens : ℕ)
      (s : TranscriptSegment)
      → target < total closed + count_tokens s
      → IsFull closed
          (pack_from target overlap_len count_tokens segments (s ∷ current) tokens overlap)
  head_of-pack_from closed [] current overlap tokens s h =
      unfold pack_from close in (s, current, refl, h)
  head_of-pack_from closed (x ∷ segments) current overlap tokens s h =
      pack_from_cases (IsFull closed) x segments (s ∷ current) overlap tokens
        (λ e. (s, current, refl, h))
        (λ e. head_of-pack_from closed segments (current ++ x ∷ []) overlap _ s h)

  total-append :
      (l : List TranscriptSegment) (s : TranscriptSegment)
      → total (l ++ s ∷ []) ≡ total l + count_tokens s
  total-append [] s = omega arith
  total-append (x ∷ l) s = omega (arith, total-append l s)

  overflow_nonempty :
      (current : List TranscriptSegment) (tokens : ℕ) (s : TranscriptSegment)
      → would_overflow target overlap_len count_tokens current tokens s ≡ true
      → (current ≢ []) × (target < tokens + count_tokens s)
  overflow_nonempty [] tokens s e = absurd (ground arith)
  overflow_nonempty (x ∷ current) tokens s e = (λ h. cc, ground arith)

  grown-Fits :
      (current : List TranscriptSegment) (tokens : ℕ) (s : TranscriptSegment)
      → tokens ≡ total current
      → would_overflow target overlap_len count_tokens current tokens s ≡ false
      → Fits (current ++ s ∷ [])
  grown-Fits [] tokens s t e = inr refl
  grown-Fits (x ∷ current) tokens s t e = inl (ground (arith, total-append (x ∷ current) s))

  pack_from-IsPacked :
      (segments current overlap : List TranscriptSegment) (tokens : ℕ)
      → tokens ≡ total current
      → (current ≡ []) ⊎ Fits current
      → IsPacked overlap (pack_from target overlap_len count_tokens segments current tokens overlap)
  pack_from-IsPacked [] [] overlap tokens t f = unfold pack_from close in tt
  pack_from-IsPacked [] (s ∷ current) overlap tokens t f =
      unfold pack_from close in (λ h. cc, refl, elim f [ inl h ↦ absurd cc | inr h ↦ h ], tt, tt)
  pack_from-IsPacked (s ∷ segments) current overlap tokens t f =
      pack_from_cases (IsPacked overlap) s segments current overlap tokens
        (λ e.
          let (some_held, over) = overflow_nonempty current tokens s e in
          (
            some_held,
            refl,
            elim f [ inl h ↦ absurd (some_held h) | inr h ↦ h ],
            head_of-pack_from current segments [] _ _ s (omega (arith, over, t)),
            pack_from-IsPacked segments (s ∷ []) _ _ (omega arith) (inr (inr refl)),
          ))
        (λ e.
          pack_from-IsPacked segments (current ++ s ∷ []) overlap _
            (omega (arith, t, total-append current s)) (inr (grown-Fits current tokens s t e)))

  -- Packing a transcript loses, repeats, splits and reorders no segment: joined in order, the
  -- chunks' own segments are the transcript's.
  pub segments_of-pack_segments :
      (segments : List TranscriptSegment)
      → segments_of (pack_segments target overlap_len count_tokens segments) ≡ segments
  unfolding pack_segments
  segments_of-pack_segments segments = segments_of-pack_from segments [] [] 0

  -- Each chunk of a packed transcript has segments, and they are within the target or just one; the
  -- next chunk starts with a segment that would have taken this one over the target; and its
  -- overlap is the end of this chunk's own segments, the first chunk's being empty.
  pub pack_segments-IsPacked :
      (segments : List TranscriptSegment)
      → IsPacked [] (pack_segments target overlap_len count_tokens segments)
  unfolding pack_segments
  pack_segments-IsPacked segments = pack_from-IsPacked segments [] [] 0 refl (inl refl)
