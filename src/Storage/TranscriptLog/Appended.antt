-- ===== src/Storage/TranscriptLog/Appended.antt =====
-- What one more record makes of the verdicts of a log.
use scrybe.Common.{
  ℕ, ◌<◌, ◌≡◌, ◌≢◌, refl, inl, inr, true, ◌&&◌, none, some, List, [], ◌∷◌, ◌++◌, All, arith,
  Option-cases, ◌==◌, if◌then◌else◌,
}
use scrybe.Storage.TranscriptLog.{TranscriptPartialRecord}
use scrybe.Storage.TranscriptLog.Latest.{find_seq, find_flushed, or_else, verdict}
use scrybe.Storage.TranscriptLog.Report.{is_orphan, only}

pub find_seq-append :
    (s : ℕ) (rs : List TranscriptPartialRecord) (r : TranscriptPartialRecord)
    → find_seq s (rs ++ r ∷ []) ≡ or_else (find_seq s rs) (if r.seq == s then some r else none)
find_seq-append s [] r = ground arith
find_seq-append s (x ∷ rs) r = ground (arith, find_seq-append s rs r)

pub find_flushed-append :
    (s : ℕ) (rs : List TranscriptPartialRecord) (r : TranscriptPartialRecord)
    → find_flushed s (rs ++ r ∷ [])
      ≡ or_else (find_flushed s rs) (if r.seq == s && r.flushed_to_transcript then some r else none)
find_flushed-append s [] r = ground arith
find_flushed-append s (x ∷ rs) r = ground (arith, find_flushed-append s rs r)

pub verdict-append :
    (s : ℕ) (rs : List TranscriptPartialRecord) (r : TranscriptPartialRecord)
    → r.seq ≢ s
    → verdict s (rs ++ r ∷ []) ≡ verdict s rs
verdict-append s rs r h = ground (arith, find_seq-append s rs r, find_flushed-append s rs r)

pub fresh→none :
    (s : ℕ) (rs : List TranscriptPartialRecord)
    → All (λ r. r.seq < s) rs
    → (find_seq s rs ≡ none) × (find_flushed s rs ≡ none)
fresh→none s [] h = (refl, refl)
fresh→none s (r ∷ rs) h = ground (arith, fresh→none s rs h.1, h.0)

pub verdict_fresh :
    (rs : List TranscriptPartialRecord) (r : TranscriptPartialRecord)
    → All (λ x. x.seq < r.seq) rs
    → verdict r.seq (rs ++ r ∷ []) ≡ some r
verdict_fresh rs r h =
    ground
      (arith, fresh→none r.seq rs h, find_seq-append r.seq rs r, find_flushed-append r.seq rs r)

pub find_flushed→flushed :
    (s : ℕ) (rs : List TranscriptPartialRecord) (r : TranscriptPartialRecord)
    → find_flushed s rs ≡ some r
    → r.flushed_to_transcript ≡ true
find_flushed→flushed s [] r h = cc
find_flushed→flushed s (x ∷ rs) r h = ground (arith, find_flushed→flushed s rs r)

-- a first mark after a pending record is the verdict
pub verdict_marked :
    (rs : List TranscriptPartialRecord) (old r : TranscriptPartialRecord)
    → only is_orphan (verdict r.seq rs) ≡ some old
    → r.flushed_to_transcript ≡ true
    → verdict r.seq (rs ++ r ∷ []) ≡ some r
verdict_marked rs old r o f = elim (Option-cases (find_flushed r.seq rs)) [
  | inl n ↦ ground (arith, find_seq-append r.seq rs r, find_flushed-append r.seq rs r)
  | inr (x, e) ↦ ground (arith, find_flushed→flushed r.seq rs x e)
]
