-- ===== src/Pipeline/Journal/Kept.antt =====
-- What the writer keeps from message to message: the committed segments and the open one hold the
-- samples that were sent so far, and after a failure the committed ones hold the first of them.
use scrybe.Common.{
  ℕ, suc, ◌+◌, ◌/◌, ◌%◌, ◌≤◌, ◌≡◌, refl, sym, ap, ◌∙◌, some, List, [], ◌∷◌, ◌++◌, length, arith,
}
use mathlib.Core.Path.{subst}
use native.Mathlib.Nat.{zero-div}
use scrybe.Common.Words.{u64_mod}
use scrybe.Common.Action.{Outcome-mono, Ensures, Ensures-bind, Ensures-pure, Ensures-if}
use scrybe.Pipeline.Journal.{
  JournalMsg, frame, finish, Disk, Writer, keep_open, rotate, write_frame, receive,
  samples_to_le_bytes,
}
use scrybe.Pipeline.Journal.Holding.{
  sent, sent_frames, Position, Between, Within, Lost, disk_operation-Within, open_or_next-Within,
  written-Within, close_segment-Closed,
}

module _ (disk : Disk) (total : List ℕ) where
  rotate-Between :
      (bytes ahead : List ℕ) (frames later : ℕ)
      → Ensures
          (Lost disk total)
          (λ _. Between disk total ahead frames later)
          (Within disk total (some bytes) ahead frames (suc later))
          (rotate disk bytes)
  unfolding rotate
  rotate-Between bytes ahead frames later =
      Ensures-bind _ _ (close_segment-Closed disk total bytes ahead frames later) λ _. record {
        at = λ s k. record {
          segments = k.segments;
          open_samples = [];
          holding = record {
            stored = k.holding.stored;
            numbered = omega (arith, k.holding.numbered, k.holding.room);
            room = k.holding.room;
            joined = k.holding.joined;
            counted = k.holding.counted;
          };
          position =
              subst (λ w. Position disk total (length k.segments) [] w s.segment_count)
                (sym k.vacant) (refl, k.count);
        };
      }

  keep_open-Between :
      (bytes ahead : List ℕ) (frames later : ℕ)
      → Ensures
          (Lost disk total)
          (λ _. Between disk total ahead frames later)
          (Within disk total (some bytes) ahead frames (suc later))
          (keep_open disk bytes)
  unfolding keep_open
  keep_open-Between bytes ahead frames later = record {
    at = λ s k. record {
      segments = k.segments;
      open_samples = k.open_samples;
      holding = record {
        stored = k.holding.stored;
        numbered = k.holding.numbered;
        room = omega (arith, k.holding.room);
        joined = k.holding.joined;
        counted = k.holding.counted;
      };
      position = k.position;
    };
  }

  -- a count of frames that is the same number, and fewer messages to come
  weaken :
      (ahead : List ℕ) (frames frames' later later' : ℕ) (s : Writer disk)
      → frames ≡ frames'
      → later' ≤ later
      → Between disk total ahead frames later s
      → Between disk total ahead frames' later' s
  weaken ahead frames frames' later later' s e le k = record {
    segments = k.segments;
    open_samples = k.open_samples;
    holding = record {
      stored = k.holding.stored;
      numbered = k.holding.numbered;
      room = omega (arith, k.holding.room, le);
      joined = k.holding.joined;
      counted = k.holding.counted ∙ ap (λ n. n % u64_mod) e;
    };
    position = k.position;
  }

  write_frame-Between :
      (samples ahead : List ℕ) (divisor rotate_at frames later : ℕ)
      → Ensures
          (Lost disk total)
          (λ _. Between disk total ahead (frames + length samples / divisor) later)
          (Between disk total (samples ++ ahead) frames (suc later))
          (write_frame disk divisor rotate_at samples)
  unfolding write_frame
  write_frame-Between [] ahead divisor rotate_at frames later =
      Ensures-pure tt λ s.
        weaken ahead frames _ (suc later) later s (omega (arith, zero-div divisor)) (omega arith)
  write_frame-Between (w ∷ ws) ahead divisor rotate_at frames later =
      let samples = w ∷ ws in
      Ensures-bind
        {Q = λ current s.
          Between disk total (samples ++ ahead) frames (suc later) s × (s.writer ≡ current)}
        _ _ (record { at = λ s k. (k, refl) })
        λ current.
          Ensures-bind {Q = λ _. Within disk total current (samples ++ ahead) frames (suc later)} _
            _
            (record {
              at = λ s k. record {
                segments = k.0.segments;
                open_samples = k.0.open_samples;
                holding = k.0.holding;
                position =
                    subst
                      (λ w.
                        Position disk total (length k.0.segments) k.0.open_samples w
                          s.segment_count)
                      k.1 k.0.position;
                vacant = refl;
              };
            })
            λ _.
              Ensures-bind _ _
                (open_or_next-Within disk total current (samples ++ ahead) frames later)
                λ opened.
                  Ensures-bind _ _
                    (disk_operation-Within disk total (some opened) (samples ++ ahead) frames
                      (suc later))
                    λ _.
                      Ensures-bind _ _
                        (written-Within disk total opened samples ahead divisor frames later)
                        λ _.
                          Ensures-bind
                            {Q = λ _.
                              Within disk total (some (opened ++ samples_to_le_bytes samples)) ahead
                                (frames + length samples / divisor) (suc later)}
                            _ _ (record { at = λ s k. k })
                            λ due.
                              Ensures-if due _ _
                                (λ _.
                                  rotate-Between (opened ++ samples_to_le_bytes samples) ahead
                                    (frames + length samples / divisor) later)
                                (λ _.
                                  keep_open-Between (opened ++ samples_to_le_bytes samples) ahead
                                    (frames + length samples / divisor) later)

  -- the loop counts on from the frames before it
  pub receive-Between :
      (messages : List JournalMsg) (divisor rotate_at frames : ℕ)
      → Ensures
          (Lost disk total)
          (λ _. Between disk total [] (frames + sent_frames divisor messages) 1)
          (Between disk total (sent messages) frames (suc (length messages)))
          (receive disk divisor rotate_at messages)
  unfolding receive
  receive-Between [] divisor rotate_at frames =
      Ensures-pure tt λ s. weaken [] frames _ 1 1 s (omega arith) (omega arith)
  receive-Between (finish ∷ rest) divisor rotate_at frames =
      Ensures-pure tt
        λ s. weaken [] frames _ (suc (suc (length rest))) 1 s (omega arith) (omega arith)
  receive-Between (frame samples ∷ rest) divisor rotate_at frames =
      Ensures-bind _ _
        (write_frame-Between samples (sent rest) divisor rotate_at frames (suc (length rest)))
        λ _. record {
          at = λ s k.
              Outcome-mono (Lost disk total)
                (λ _ t. weaken [] _ _ 1 1 t (omega arith) (omega arith)) _
                ((receive-Between rest divisor rotate_at (frames + length samples / divisor)).at s
                  k);
        }
