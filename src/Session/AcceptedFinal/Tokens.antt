-- ===== src/Session/AcceptedFinal/Tokens.antt =====
-- scrybe-core/src/session/accepted_final.rs: the normalized tokens of a final, and when those of one
-- final echo those of another.
use scrybe.Common.{
  ℕ, Bool, true, false, ◌&&◌, ◌||◌, Option, none, some, List, [], ◌∷◌, ◌==◌, if◌then◌else◌, min,
}
use scrybe.Common.Int.{ℤ, pos, ◌-ℤ◌, leb_ℤ}
use scrybe.Common.Words.{sat_add_i64, sat_sub_i64, wrap_i64}
use scrybe.Types.{TokenTiming, TranscriptChunk}
use scrybe.Text.{Text, trim, text_eq}

pub record DedupToken : Type 0 where
  pub normalized : Text
  pub aligned_ms : ℤ

-- `strip_prefix('▁').unwrap_or`
strip_marker : Text → Text
strip_marker [] = []
strip_marker (c ∷ s) = if c == 9601 then s else c ∷ s

-- the difference of two instants and its magnitude, as the build without overflow checks takes them
unfoldable pub skew : ℤ → ℤ → ℤ
skew a b = let d = wrap_i64 (a -ℤ b) in if leb_ℤ (pos 0) d then d else wrap_i64 (pos 0 -ℤ d)

-- an `i64` from a `u64`, or the greatest one
abbrev pub i64_of : ℕ → ℤ
i64_of n = pos (min n 9223372036854775807)

unfoldable pub token_aligned_ms : ℤ → ℕ → ℕ → ℤ
token_aligned_ms segment_aligned_ms transcript_start_ms token_ms =
    sat_add_i64 segment_aligned_ms (sat_sub_i64 (i64_of token_ms) (i64_of transcript_start_ms))

unfoldable pub tokens_match_within_window : List DedupToken → List DedupToken → ℤ → Bool
tokens_match_within_window [] [] window_ms = true
tokens_match_within_window (m ∷ ms) (s ∷ ss) window_ms =
    text_eq m.normalized s.normalized
    && leb_ℤ (skew m.aligned_ms s.aligned_ms) window_ms
    && tokens_match_within_window ms ss window_ms
tokens_match_within_window _ _ window_ms = false

-- does some remembered System final match the tokens
unfoldable pub is_echo : ℤ → List DedupToken → List (List DedupToken) → Bool
is_echo window_ms mic_tokens [] = false
is_echo window_ms mic_tokens (system_tokens ∷ rest) =
    tokens_match_within_window mic_tokens system_tokens window_ms
    || is_echo window_ms mic_tokens rest

module _ (to_lowercase : Text → Text) where
  unfoldable pub normalize_token : Text → Option Text
  unfolding trim strip_marker
  normalize_token token = elim (trim (strip_marker (trim token))) [
    | [] ↦ none
    | c ∷ s ↦ some (to_lowercase (c ∷ s))
  ]

  -- one token, if it normalizes to something, before the rest
  dedup_from : ℤ → ℕ → List TokenTiming → Option (List DedupToken)
  dedup_from segment_aligned_ms start_ms [] = some []
  dedup_from segment_aligned_ms start_ms (t ∷ ts) = elim (normalize_token t.token) [
    | none ↦ none
    | some normalized ↦ elim (dedup_from segment_aligned_ms start_ms ts) [
      | none ↦ none
      | some rest ↦ some (
          record {
            normalized = normalized;
            aligned_ms = token_aligned_ms segment_aligned_ms start_ms t.timestamp_ms;
          }
          ∷ rest)
    ]
  ]

  unfoldable pub dedup_tokens : TranscriptChunk → ℤ → Option (List DedupToken)
  unfolding dedup_from
  dedup_tokens transcript segment_aligned_ms = elim transcript.tokens [
    | [] ↦ none
    | t ∷ ts ↦ dedup_from segment_aligned_ms transcript.start_ms (t ∷ ts)
  ]
