-- ===== src/Pipeline/Journal/ReadBack.antt =====
-- A run of the writer from its start to its end: what was committed is what was sent, and the merge
-- reads it back.
use scrybe.Common.{
  ℕ, suc, ◌+◌, ◌%◌, ◌<◌, ◌≡◌, refl, sym, ap, ◌∙◌, Option, none, some, List, [], ◌∷◌, ◌++◌, map,
  length, get_elem?, max, All, arith,
}
use mathlib.Core.Path.{subst}
use scrybe.Common.Words.{u32_mod, u64_mod}
use scrybe.Common.Action.{Outcome, Ensures-mono, Ensures-bind}
use scrybe.Types.{FrameSource}
use scrybe.Pipeline.Merge.{read_segments}
use scrybe.Pipeline.Merge.Segments.{concat, Holds, read_segments-Holds}
use scrybe.Pipeline.Journal.{
  JournalMsg, JournalSummary, Disk, Writer, idle, run_writer, rotate_at, samples_to_le_bytes,
}
use scrybe.Pipeline.Journal.Bytes.{Stores, append_nil}
use scrybe.Pipeline.Journal.Kept.{receive-Between}
use scrybe.Pipeline.Journal.Holding.{
  sent, sent_frames, Position, Between, Within, Lost, disk_operation-Within,
}
use scrybe.Pipeline.Journal.Closing.{Complete, close_last-Complete}

abbrev pub Fits : List ℕ → Type 0
Fits = All (λ w. w < 4294967296)

pub Fits-append : (l r : List ℕ) → Fits (l ++ r) → Fits l × Fits r
Fits-append [] r h = (tt, h)
Fits-append (x ∷ l) r h = let (hl, hr) = Fits-append l r h.1 in ((h.0, hl), hr)

Stores-Holds :
    (segments : List (List ℕ)) (segment : ℕ → Option (List ℕ)) (seq : ℕ)
    → ((i : ℕ) → segment (seq + i) ≡ get_elem? (map samples_to_le_bytes segments) i)
    → Fits (concat segments)
    → Holds segment seq segments
Stores-Holds [] segment seq h fit = ap segment (omega arith) ∙ h 0
Stores-Holds (samples ∷ rest) segment seq h fit =
    let (fits, fit') = Fits-append samples (concat rest) fit in
    (
      (
        samples_to_le_bytes samples,
        ap segment (omega arith) ∙ h 0,
        ([], sym (append_nil _), omega arith, fits),
      ),
      Stores-Holds rest segment (seq + 1) (λ i. ap segment (omega arith) ∙ h (suc i)) fit',
    )

-- the committed segments are read back
Stores-read_segments :
    (segments : List (List ℕ)) (segment : ℕ → Option (List ℕ)) (fuel : ℕ)
    → Stores segments segment
    → Fits (concat segments)
    → length segments < fuel
    → read_segments segment fuel ≡ some (concat segments)
Stores-read_segments segments segment fuel h fit enough =
    read_segments-Holds segment segments fuel
      (Stores-Holds segments segment 0 (λ i. ap segment (omega arith) ∙ h i) fit) enough

-- what a run that returned has committed, and what it says of it
pub record ReadsBack (disk : Disk) (channels : ℕ) (messages : List JournalMsg)
    (summary : JournalSummary) (s : Writer disk) : Type 0 where
  pub samples : read_segments s.segment (suc summary.segment_count) ≡ some (sent messages)
  pub frames : summary.frames_written ≡ sent_frames (max channels 1) messages % u64_mod

-- what a run that failed has committed: the first of the samples
pub record ReadsFirst (disk : Disk) (messages : List JournalMsg) (s : Writer disk) : Type 0 where
  pub committed : ℕ
  pub kept : List ℕ
  pub lost : List ℕ
  pub samples : read_segments s.segment (suc committed) ≡ some kept
  pub first : kept ++ lost ≡ sent messages

module _ (disk : Disk) (messages : List JournalMsg) where
  Lost-ReadsFirst :
      (s : Writer disk)
      → Fits (sent messages)
      → Lost disk (sent messages) s
      → ReadsFirst disk messages s
  Lost-ReadsFirst s fit (segments, lost, stored, joined) = record {
    committed = length segments;
    kept = concat segments;
    lost = lost;
    samples =
        Stores-read_segments segments s.segment (suc (length segments)) stored
          (Fits-append (concat segments) lost (subst Fits (sym joined) fit)).0 (omega arith);
    first = joined;
  }

  Complete-read_segments :
      (frames : ℕ) (s : Writer disk)
      → Fits (sent messages)
      → Complete disk (sent messages) frames s
      → read_segments s.segment (suc s.segment_count) ≡ some (sent messages)
  Complete-read_segments frames s fit c =
      Stores-read_segments c.segments s.segment (suc s.segment_count) c.stored
        (subst Fits (sym c.joined) fit) (omega (arith, c.count))
      ∙ ap some c.joined

  -- before the first message
  idle-Within :
      (world : disk.World)
      → suc (length messages) < u32_mod
      → Within disk (sent messages) none (sent messages) 0 (suc (length messages)) (idle disk world)
  idle-Within world few = record {
    segments = [];
    open_samples = [];
    holding = record {
      stored = λ i. refl;
      numbered = refl;
      room = omega (arith, few);
      joined = refl;
      counted = omega arith;
    };
    position = (refl, refl);
    vacant = refl;
  }

  Within-Between :
      (s : Writer disk)
      → Within disk (sent messages) none (sent messages) 0 (suc (length messages)) s
      → Between disk (sent messages) (sent messages) 0 (suc (length messages)) s
  Within-Between s k = record {
    segments = k.segments;
    open_samples = k.open_samples;
    holding = k.holding;
    position =
        subst
          (λ w. Position disk (sent messages) (length k.segments) k.open_samples w s.segment_count)
          (sym k.vacant) k.position;
  }

-- A run of the writer over fewer than 2 ^ 32 - 1 messages that returns has committed segments from
-- which the merge reads, with one step more than the summary's count of segments, all the samples
-- that were sent before the end, in order; the summary's frames are those of the messages, modulo
-- 2 ^ 64. From the segments that a run has committed which fails, the merge reads the first of the
-- samples that were sent.
pub run_writer-ReadsBack :
    (disk : Disk) (source : FrameSource) (sample_rate channels : ℕ) (messages : List JournalMsg)
    (world : disk.World)
    → suc (length messages) < u32_mod
    → Fits (sent messages)
    → Outcome
        (ReadsFirst disk messages)
        (ReadsBack disk channels messages)
        (run_writer disk source sample_rate channels messages (idle disk world))
unfolding run_writer
run_writer-ReadsBack disk source sample_rate channels messages world few fit =
    (Ensures-mono (λ s. Lost-ReadsFirst disk messages s fit) (λ _ s k. k)
        (Ensures-bind _ _
          (Ensures-mono (λ s k. k) (λ _. Within-Between disk messages)
            (disk_operation-Within disk (sent messages) none (sent messages) 0
              (suc (length messages))))
          λ _.
            Ensures-bind _ _
              (receive-Between disk (sent messages) messages (max channels 1)
                (rotate_at sample_rate channels) 0)
              λ _.
                Ensures-bind
                  {Q = λ left s.
                    Between disk (sent messages) [] (0 + sent_frames (max channels 1) messages) 1 s
                    × (s.writer ≡ left)}
                  _ _ (record { at = λ s k. (k, refl) })
                  λ left.
                    Ensures-bind _ _
                      (close_last-Complete disk (sent messages) left
                        (0 + sent_frames (max channels 1) messages))
                      λ _. record {
                        at = λ s c. record {
                          samples = Complete-read_segments disk messages _ s fit c;
                          frames = c.counted ∙ ap (λ n. n % u64_mod) (omega arith);
                        };
                      })).at
      (idle disk world) (idle-Within disk messages world few)
