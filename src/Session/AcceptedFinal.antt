-- ===== src/Session/AcceptedFinal.antt =====
-- scrybe-core/src/session/accepted_final.rs: the buffer that holds a final chunk until both sources
-- have passed it, and drops the echoes of one channel in the other. An `i64` is an integer whose
-- saturating operations write out their limits. Lower-casing needs the Unicode tables of the
-- standard library, so it is a parameter.
pub mod Tokens
pub mod Conservation
pub mod Release
pub mod Echo
pub mod Suppressed
mod Tests
use scrybe.Common.{
  ℕ, suc, ◌+◌, ◌/◌, ◌%◌, Bool, true, false, not, ◌&&◌, ◌||◌, Option, none, some, List, [], ◌∷◌,
  ◌++◌, leb, ◌==◌, if◌then◌else◌, is_some, length, take, drop, min,
}
use mathlib.Core.List.{reverse}
use scrybe.Common.Int.{ℤ, pos, negsuc, ◌-ℤ◌, leb_ℤ, min_ℤ, max_ℤ, pos_part, neg_part}
use scrybe.Common.Words.{u64_mod, sat_add_i64, sat_sub_i64, wrap_i64}
use scrybe.Common.Sorting.{sort_by}
use scrybe.Types.{FrameSource, mic, system, mixed, TokenTiming, TranscriptChunk}
use scrybe.Text.{Text, trim, text_eq}
use scrybe.Pipeline.Chunker.{ChunkBoundary}
use scrybe.Session.AcceptedFinal.Tokens.{DedupToken, i64_of, is_echo, dedup_tokens}

pub record SourceAnchors : Type 0 where
  pub mic_anchor : Option ℤ
  pub system_anchor : Option ℤ

unfoldable pub anchor_for : SourceAnchors → FrameSource → Option ℤ
anchor_for a system = a.system_anchor
anchor_for a mic = a.mic_anchor
anchor_for a mixed = a.mic_anchor

unfoldable pub both_known : SourceAnchors → Bool
both_known a = is_some a.mic_anchor && is_some a.system_anchor

pub record AcceptedFinal : Type 0 where
  pub transcript : TranscriptChunk
  pub source : FrameSource
  pub ended_on : ChunkBoundary
  pub wal_seq : Option ℕ

pub record Pending : Type 0 where
  pub final : AcceptedFinal
  pub aligned_ms : ℤ
  pub seq : ℕ

pub record Resolved : Type 0 where
  pub accepted : List AcceptedFinal
  pub suppressed : List AcceptedFinal

abbrev pub nothing_resolved : Resolved
nothing_resolved = record { accepted = []; suppressed = [] }

unfoldable pub single_accepted : AcceptedFinal → Resolved
single_accepted final = record { accepted = final ∷ []; suppressed = [] }

pub data ReleaseVerdict : Type 0 where
  accept suppress : AcceptedFinal → ReleaseVerdict

-- five seconds, in nanoseconds
abbrev pub unresolved_window : ℕ
unresolved_window = 5000000000

pub record AcceptedFinalBoundary : Type 0 where
  pub window : ℕ
  pub pending : List Pending
  pub mic_progress_ms : Option ℤ
  pub system_progress_ms : Option ℤ
  pub next_seq : ℕ
  pub system_history : List (List DedupToken)

abbrev pub new : AcceptedFinalBoundary
new = record {
  window = unresolved_window;
  pending = [];
  mic_progress_ms = none;
  system_progress_ms = none;
  next_seq = 0;
  system_history = [];
}

unfoldable pub window_to_i64 : ℕ → ℤ
window_to_i64 window = i64_of (window / 1000000)

-- the sort key `(aligned_ms, seq)`, compared lexicographically
unfoldable pub key_le : Pending → Pending → Bool
key_le p q =
    leb_ℤ p.aligned_ms q.aligned_ms && (not (leb_ℤ q.aligned_ms p.aligned_ms) || leb p.seq q.seq)

later_of : Option ℤ → ℤ → ℤ
later_of none candidate = candidate
later_of (some current) candidate = max_ℤ current candidate

unfoldable pub advance_progress : FrameSource → ℤ → AcceptedFinalBoundary → AcceptedFinalBoundary
unfolding later_of
advance_progress system candidate b = record b {
  system_progress_ms = some (later_of b.system_progress_ms candidate);
}
advance_progress _ candidate b = record b {
  mic_progress_ms = some (later_of b.mic_progress_ms candidate);
}

-- the end of the leading run that the test holds on: on a sorted buffer, `partition_point`
unfoldable pub partition_point : ℤ → List Pending → ℕ
partition_point watermark [] = 0
partition_point watermark (p ∷ ps) =
    if leb_ℤ p.aligned_ms watermark then suc (partition_point watermark ps) else 0

file_verdict : ReleaseVerdict → Resolved → Resolved
file_verdict (accept final) out = record out { accepted = final ∷ out.accepted }
file_verdict (suppress final) out = record out { suppressed = final ∷ out.suppressed }

remember : FrameSource → Option (List DedupToken) → AcceptedFinalBoundary → AcceptedFinalBoundary
remember system (some tokens) b = record b { system_history = b.system_history ++ tokens ∷ [] }
remember _ _ b = b

resolve_mic : AcceptedFinalBoundary → Pending → Option (List DedupToken) → ReleaseVerdict
unfolding is_echo
resolve_mic b p none = accept p.final
resolve_mic b p (some mic_tokens) =
    if is_echo (window_to_i64 b.window) mic_tokens b.system_history
    then suppress p.final
    else accept p.final

module _ (to_lowercase : Text → Text) where
  resolve_from : FrameSource → AcceptedFinalBoundary → Pending → ReleaseVerdict
  unfolding resolve_mic
  resolve_from mic b p = resolve_mic b p (dedup_tokens to_lowercase p.final.transcript p.aligned_ms)
  resolve_from _ b p = accept p.final

  unfoldable pub resolve_release : AcceptedFinalBoundary → Pending → ReleaseVerdict
  unfolding resolve_from
  resolve_release b p = resolve_from p.final.source b p

  -- the loop that files each verdict, in order
  unfoldable pub resolve_all : AcceptedFinalBoundary → List Pending → Resolved
  unfolding file_verdict
  resolve_all b [] = nothing_resolved
  resolve_all b (p ∷ ps) = file_verdict (resolve_release b p) (resolve_all b ps)

  -- the buffer is sorted, and its head up to the watermark is drained
  release_up_to : ℤ → AcceptedFinalBoundary → AcceptedFinalBoundary × Resolved
  release_up_to watermark b =
      let sorted = sort_by key_le b.pending in
      let split = partition_point watermark sorted in
      let b' = record b { pending = drop split sorted } in (b', resolve_all b' (take split sorted))

  release_between : Option ℤ → Option ℤ → AcceptedFinalBoundary → AcceptedFinalBoundary × Resolved
  unfolding release_up_to
  release_between (some mic_ms) (some system_ms) b =
      release_up_to (sat_sub_i64 (min_ℤ mic_ms system_ms) (window_to_i64 b.window)) b
  release_between _ _ b = (b, nothing_resolved)

  unfoldable pub release_resolved : AcceptedFinalBoundary → AcceptedFinalBoundary × Resolved
  unfolding release_between
  release_resolved b = release_between b.mic_progress_ms b.system_progress_ms b

  -- a final chunk with both of its instants known is buffered
  unfoldable pub enqueue : AcceptedFinal → ℤ → ℤ → AcceptedFinalBoundary → AcceptedFinalBoundary
  unfolding advance_progress remember
  enqueue final aligned_ms progress_ms b =
      let numbered = record b { next_seq = (b.next_seq + 1) % u64_mod } in
      let progressed = advance_progress final.source progress_ms numbered in
      let known =
        remember final.source (dedup_tokens to_lowercase final.transcript aligned_ms) progressed in
      record known {
        pending =
            known.pending
            ++ record { final = final; aligned_ms = aligned_ms; seq = b.next_seq } ∷ [];
      }

  unfoldable pub push :
      AcceptedFinal → Option ℤ → Option ℤ → AcceptedFinalBoundary → AcceptedFinalBoundary × Resolved
  unfolding single_accepted
  push final (some aligned_ms) (some progress_ms) b =
      release_resolved (enqueue final aligned_ms progress_ms b)
  push final _ _ b = (b, single_accepted final)

  unfoldable pub advance :
      FrameSource → Option ℤ → AcceptedFinalBoundary → AcceptedFinalBoundary × Resolved
  advance source none b = (b, nothing_resolved)
  advance source (some candidate_ms) b = release_resolved (advance_progress source candidate_ms b)

  unfoldable pub finish : AcceptedFinalBoundary → Resolved
  finish b = resolve_all (record b { pending = [] }) (sort_by key_le b.pending)
