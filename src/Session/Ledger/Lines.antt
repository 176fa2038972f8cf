-- ===== src/Session/Ledger/Lines.antt =====
-- What a line of the transcript, or of the log, that is cut off makes of the account.
use scrybe.Common.{
  ℕ, ◌+◌, ◌≤◌, ◌≡◌, refl, sym, ap, ◌∙◌, ◌⊎◌, inl, inr, true, false, List, [], ◌∷◌, ◌++◌, All-append,
  ◌||◌, take, drop, take-append-drop, arith, leb, Bool-cases,
}
use mathlib.Core.List.{append_assoc, append-nil}
use scrybe.Common.Words.{u64_max, sat_add_u64}
use scrybe.Text.{Text}
use scrybe.Notes.Transcript.{render_transcript_line}
use scrybe.Storage.TranscriptLog.{
  TranscriptPartialRecord, TranscriptPartialLog, JsonCodec, contents,
}
use scrybe.Storage.TranscriptLog.Report.{is_orphan, is_flushed}
use scrybe.Storage.TranscriptLog.File.{file_of}
use scrybe.Session.AcceptedFinal.{AcceptedFinal}
use scrybe.Session.Persist.{attributed}
use scrybe.Session.View.{View}
use scrybe.Session.Ledger.{
  Entry, entries, written, IsNumbered, IsLedger, IsPrefix, IsTorn, count_seq-append, takes_number,
}

pub IsPrefix-take : (n : ℕ) (t : Text) → IsPrefix (take n t) t
IsPrefix-take n t = (drop n t, take-append-drop n t)

-- a record that takes the next number
pub IsNumbered-append :
    (next : ℕ) (rs : List TranscriptPartialRecord) (r : TranscriptPartialRecord)
    → (u64_max ≤ next) ⊎ IsNumbered next rs
    → r.seq ≡ next
    → (is_orphan r || r.flushed_to_transcript) ≡ true
    → (u64_max ≤ sat_add_u64 next 1) ⊎ IsNumbered (sat_add_u64 next 1) (rs ++ r ∷ [])
IsNumbered-append next rs r (inl h) e m = inl (omega arith)
IsNumbered-append next rs r (inr h) e m = elim (Bool-cases (leb u64_max (next + 1))) [
  | inl high ↦ inl (ground arith)
  | inr low ↦ inr (record {
    once = λ q. ground (arith, count_seq-append q rs r, h.once q, h.fresh q);
    fresh = λ q le. ground (arith, count_seq-append q rs r, h.fresh q);
    marked = All-append _ rs (r ∷ []) h.marked (m, tt);
  })
]

-- a record that settles an earlier one takes no number
pub IsNumbered-settle :
    (next : ℕ) (rs : List TranscriptPartialRecord) (r : TranscriptPartialRecord)
    → (u64_max ≤ next) ⊎ IsNumbered next rs
    → takes_number r ≡ false
    → (is_orphan r || r.flushed_to_transcript) ≡ true
    → (u64_max ≤ next) ⊎ IsNumbered next (rs ++ r ∷ [])
IsNumbered-settle next rs r (inl h) e m = inl h
IsNumbered-settle next rs r (inr h) e m = inr (record {
  once = λ q. ground (arith, count_seq-append q rs r, h.once q);
  fresh = λ q le. ground (arith, count_seq-append q rs r, h.fresh q le);
  marked = All-append _ rs (r ∷ []) h.marked (m, tt);
})

abbrev with_transcript : Text → View → View
with_transcript more v = record v { transcript = v.transcript ++ more }

abbrev pub with_wal : TranscriptPartialLog → View → View
with_wal wal v = record v { wal = wal }

module _ (codec : JsonCodec) (header : Text) where
  abbrev Ledger : List AcceptedFinal → Text → View → Type 0
  Ledger = IsLedger codec header

  abbrev Torn : View → Type 0
  Torn = IsTorn codec header

  -- nothing was being written
  pub Ledger-Torn : {v : View} (hand : List AcceptedFinal) → Ledger hand [] v → Torn v
  Ledger-Torn hand l = record {
    records = l.records;
    hand = hand;
    torn_line = [];
    torn_record = [];
    whole = l.whole ∙ sym (append-nil (file_of codec l.records));
    unfinished = inl refl;
    settled = l.settled;
    lines = l.lines;
    ambiguous = inl refl;
  }

  lines-append :
      (v : View) (l : Text) (done : List Entry)
      → v.transcript ≡ header ++ (written done ++ [])
      → v.transcript ++ l ≡ header ++ (written done ++ l)
  lines-append v l done h =
      ap (λ t. t ++ l) (h ∙ ap (λ t. header ++ t) (append-nil (written done)))
      ∙ append_assoc header (written done) l

  -- the line of the final in hand, cut off
  pub line_cut :
      {v : View} (f : AcceptedFinal) (hand : List AcceptedFinal) (n : ℕ)
      → Ledger (f ∷ hand) [] v
      → Torn (with_transcript (take n (render_transcript_line (attributed f))) v)
  line_cut {v} f hand n l = record {
    records = l.records;
    hand = f ∷ hand;
    torn_line = take n (render_transcript_line (attributed f));
    torn_record = [];
    whole = l.whole ∙ sym (append-nil (file_of codec l.records));
    unfinished = inl refl;
    settled = l.settled;
    lines = lines-append v _ (entries is_flushed l.records) l.lines;
    ambiguous = inr (f, hand, refl, IsPrefix-take n _);
  }

  pub line_whole :
      {v : View} (f : AcceptedFinal) (hand : List AcceptedFinal)
      → Ledger (f ∷ hand) [] v
      → Ledger
          (f ∷ hand)
          (render_transcript_line (attributed f))
          (with_transcript (render_transcript_line (attributed f)) v)
  line_whole {v} f hand l = record {
    records = l.records;
    whole = l.whole;
    numbered = l.numbered;
    settled = l.settled;
    lines = lines-append v _ (entries is_flushed l.records) l.lines;
  }

  -- a record of the log, cut off
  pub record_cut :
      {v : View} (hand : List AcceptedFinal) (wal : TranscriptPartialLog)
      (r : TranscriptPartialRecord) (n : ℕ)
      → contents wal.file ≡ contents v.wal.file ++ take n (codec.to_string r ++ 10 ∷ [])
      → Ledger hand [] v
      → Torn (with_wal wal v)
  record_cut hand wal r n e l = record {
    records = l.records;
    hand = hand;
    torn_line = [];
    torn_record = take n (codec.to_string r ++ 10 ∷ []);
    whole = e ∙ ap (λ t. t ++ take n (codec.to_string r ++ 10 ∷ [])) l.whole;
    unfinished = inr (r, IsPrefix-take n _);
    settled = l.settled;
    lines = l.lines;
    ambiguous = inl refl;
  }

  -- the mark of the final in hand, cut off behind its line
  pub mark_cut :
      {v : View} (f : AcceptedFinal) (hand : List AcceptedFinal) (wal : TranscriptPartialLog)
      (r : TranscriptPartialRecord) (n : ℕ)
      → contents wal.file ≡ contents v.wal.file ++ take n (codec.to_string r ++ 10 ∷ [])
      → Ledger (f ∷ hand) (render_transcript_line (attributed f)) v
      → Torn (with_wal wal v)
  mark_cut f hand wal r n e l = record {
    records = l.records;
    hand = f ∷ hand;
    torn_line = render_transcript_line (attributed f);
    torn_record = take n (codec.to_string r ++ 10 ∷ []);
    whole = e ∙ ap (λ t. t ++ take n (codec.to_string r ++ 10 ∷ [])) l.whole;
    unfinished = inr (r, IsPrefix-take n _);
    settled = l.settled;
    lines = l.lines;
    ambiguous = inr (f, hand, refl, ([], append-nil _));
  }
