-- ===== src/Storage/TranscriptLog/Latest.antt =====
-- The map of the recovery scan against a reading of the whole log, one sequence number at a time.
use scrybe.Common.{
  ℕ, ◌+◌, ◌<◌, ◌≡◌, refl, inl, inr, ◌&&◌, Option, none, some, List, [], ◌∷◌, All, All-mono, arith,
  ltb, ◌==◌, if◌then◌else◌, Bool-cases,
}
use scrybe.Storage.TranscriptLog.{TranscriptPartialRecord, supersede, enter}

-- the first record of a number, and the first flushed one
abbrev pub find_seq : ℕ → List TranscriptPartialRecord → Option TranscriptPartialRecord
find_seq s [] = none
find_seq s (r ∷ rs) = if r.seq == s then some r else find_seq s rs

abbrev pub find_flushed : ℕ → List TranscriptPartialRecord → Option TranscriptPartialRecord
find_flushed s [] = none
find_flushed s (r ∷ rs) =
    if r.seq == s && r.flushed_to_transcript then some r else find_flushed s rs

abbrev pub or_else :
    Option TranscriptPartialRecord → Option TranscriptPartialRecord → Option TranscriptPartialRecord
or_else none b = b
or_else (some a) b = some a

-- What the log says of a number: its first flushed record, or its first record if none is flushed.
abbrev pub verdict : ℕ → List TranscriptPartialRecord → Option TranscriptPartialRecord
verdict s rs = or_else (find_flushed s rs) (find_seq s rs)

abbrev pub enter_all :
    List TranscriptPartialRecord → List TranscriptPartialRecord → List TranscriptPartialRecord
enter_all [] m = m
enter_all (r ∷ rs) m = enter_all rs (enter r m)

abbrev pub Ascending : List TranscriptPartialRecord → Type 0
Ascending [] = Unit
Ascending (e ∷ m) = All (λ x. e.seq < x.seq) m × Ascending m

-- the three places that a record can take in front of a map
enter_cases :
    (P : List TranscriptPartialRecord → Type 0) (r e : TranscriptPartialRecord)
    (m : List TranscriptPartialRecord)
    → (r.seq ≡ e.seq → P (supersede r e ∷ m))
    → (r.seq < e.seq → P (r ∷ e ∷ m))
    → (e.seq < r.seq → P (e ∷ enter r m))
    → P (enter r (e ∷ m))
unfolding enter
enter_cases P r e m same before after = elim (Bool-cases (r.seq == e.seq)) [
  | inl q ↦ rw (q, enter) (same (ground arith))
  | inr q ↦ elim (Bool-cases (ltb r.seq e.seq)) [
    | inl l ↦ rw (q, l, enter) (before (ground arith))
    | inr l ↦ rw (q, l, enter) (after (ground arith))
  ]
]

supersede-seq : (r e : TranscriptPartialRecord) → r.seq ≡ e.seq → (supersede r e).seq ≡ e.seq
supersede-seq r e h = ground arith

enter-above :
    (n : ℕ) (r : TranscriptPartialRecord) (m : List TranscriptPartialRecord)
    → n < r.seq
    → All (λ x. n < x.seq) m
    → All (λ x. n < x.seq) (enter r m)
enter-above n r [] h a = unfold enter in (h, tt)
enter-above n r (e ∷ m) h a =
    enter_cases (All (λ x. n < x.seq)) r e m (λ q. (omega (arith, supersede-seq r e q, a.0), a.1))
      (λ q. (h, a)) (λ q. (a.0, enter-above n r m h a.1))

pub enter-Ascending :
    (r : TranscriptPartialRecord) (m : List TranscriptPartialRecord)
    → Ascending m
    → Ascending (enter r m)
enter-Ascending r [] a = unfold enter in (tt, tt)
enter-Ascending r (e ∷ m) a =
    enter_cases Ascending r e m
      (λ q. (
        All-mono (λ x. e.seq < x.seq) (λ x. (supersede r e).seq < x.seq)
            (λ x h. rw (supersede-seq r e q) h) m a.0,
        a.1,
      ))
      (λ q. ((q, All-mono (λ x. e.seq < x.seq) (λ x. r.seq < x.seq) (λ x h. omega arith) m a.0), a))
      (λ q. (enter-above e.seq r m q a.0, enter-Ascending r m a.1))

pub above-find_seq :
    (n s : ℕ) (m : List TranscriptPartialRecord)
    → s < n + 1
    → All (λ x. n < x.seq) m
    → find_seq s m ≡ none
above-find_seq n s [] h a = refl
above-find_seq n s (e ∷ m) h a = ground (arith, above-find_seq n s m h a.1, a.0)

superseded : TranscriptPartialRecord → Option TranscriptPartialRecord → TranscriptPartialRecord
superseded r none = r
superseded r (some e) = supersede r e

find_seq-enter :
    (s : ℕ) (r : TranscriptPartialRecord) (m : List TranscriptPartialRecord)
    → Ascending m
    → find_seq s (enter r m)
      ≡ (if r.seq == s then some (superseded r (find_seq s m)) else find_seq s m)
unfolding enter superseded
find_seq-enter s r [] a = ground arith
find_seq-enter s r (e ∷ m) a = ground (arith, find_seq-enter s r m a.1, above-find_seq e.seq s m)

pub enter_all-Ascending :
    (rs m : List TranscriptPartialRecord) → Ascending m → Ascending (enter_all rs m)
enter_all-Ascending [] m a = a
enter_all-Ascending (r ∷ rs) m a = enter_all-Ascending rs (enter r m) (enter-Ascending r m a)

-- the entry of a number after the rest of the log
settled :
    ℕ
    → List TranscriptPartialRecord
    → Option TranscriptPartialRecord
    → Option TranscriptPartialRecord
settled s rs none = verdict s rs
settled s rs (some e) =
    if e.flushed_to_transcript then some e else or_else (find_flushed s rs) (some e)

find_seq-enter_all :
    (s : ℕ) (rs m : List TranscriptPartialRecord)
    → Ascending m
    → find_seq s (enter_all rs m) ≡ settled s rs (find_seq s m)
unfolding settled superseded
find_seq-enter_all s [] m a = ground arith
find_seq-enter_all s (r ∷ rs) m a =
    ground
      (arith, find_seq-enter_all s rs (enter r m) (enter-Ascending r m a), find_seq-enter s r m a)

-- The map that the scan builds line by line holds, for every number, what the log says of it: the
-- first flushed record, whatever stands before and after it, or else the first record.
pub find_seq-enter_all-verdict :
    (s : ℕ) (rs : List TranscriptPartialRecord) → find_seq s (enter_all rs []) ≡ verdict s rs
unfolding settled
find_seq-enter_all-verdict s rs = find_seq-enter_all s rs [] tt
