-- ===== src/Pipeline/Journal/Closing.antt =====
-- The last segment is closed: every sample is committed.
use scrybe.Common.{ℕ, ◌%◌, ◌≡◌, refl, sym, ap, ◌∙◌, Option, none, some, List, [], ◌++◌, length}
use mathlib.Core.Path.{subst}
use scrybe.Common.Words.{u64_mod}
use scrybe.Common.Action.{Ensures, Ensures-mono, Ensures-bind, Ensures-pure}
use scrybe.Pipeline.Merge.Segments.{concat}
use scrybe.Pipeline.Journal.{Disk, Writer, close_last}
use scrybe.Pipeline.Journal.Bytes.{Stores, append_nil}
use scrybe.Pipeline.Journal.Holding.{Position, Between, Within, Lost, close_segment-Closed}

module _ (disk : Disk) (total : List ℕ) where
  -- every sample is committed, and the writer's counters say how many
  pub record Complete (frames : ℕ) (s : Writer disk) : Type 0 where
    pub segments : List (List ℕ)
    pub stored : Stores segments s.segment
    pub joined : concat segments ≡ total
    pub count : s.segment_count ≡ length segments
    pub counted : s.frames_written ≡ frames % u64_mod

  pub close_last-Complete :
      (left : Option (List ℕ)) (frames : ℕ)
      → Ensures
          (Lost disk total)
          (λ _. Complete frames)
          (λ s. Between disk total [] frames 1 s × (s.writer ≡ left))
          (close_last disk left)
  unfolding close_last
  close_last-Complete none frames = Ensures-pure tt λ s k.
      let position : Position disk total (length k.0.segments) k.0.open_samples none
          s.segment_count =
        subst (λ w. Position disk total (length k.0.segments) k.0.open_samples w s.segment_count)
          k.1 k.0.position in
      record {
        segments = k.0.segments;
        stored = k.0.holding.stored;
        joined =
            sym (append_nil (concat k.0.segments))
            ∙ ap (λ l. concat k.0.segments ++ (l ++ [])) (sym position.0)
            ∙ k.0.holding.joined;
        count = position.1;
        counted = k.0.holding.counted;
      }
  close_last-Complete (some bytes) frames =
      Ensures-bind {Q = λ _. Within disk total (some bytes) [] frames 1} _ _
        (record {
          at = λ s k. record {
            segments = k.0.segments;
            open_samples = k.0.open_samples;
            holding = k.0.holding;
            position =
                subst
                  (λ w.
                    Position disk total (length k.0.segments) k.0.open_samples w s.segment_count)
                  k.1 k.0.position;
            vacant = refl;
          };
        })
        λ _.
          Ensures-mono (λ s lost. lost)
            (λ _ t c. record {
              segments = c.segments;
              stored = c.holding.stored;
              joined = sym (append_nil (concat c.segments)) ∙ c.holding.joined;
              count = c.count;
              counted = c.holding.counted;
            })
            (close_segment-Closed disk total bytes [] frames 0)
