-- ===== src/Pipeline/Journal/Holding.antt =====
-- What the writer holds between messages, and what closing a segment makes of it.
use scrybe.Common.{
  ℕ, suc, ◌+◌, ◌/◌, ◌%◌, ◌<◌, ◌≡◌, sym, ap, ◌∙◌, Bool, true, false, Option, none, some, List, [],
  ◌∷◌, ◌++◌, length, length-append, arith, if◌then◌else◌,
}
use mathlib.Core.List.{append_assoc}
use scrybe.Common.Words.{u32_mod, u64_mod}
use scrybe.Common.Action.{Outcome, Ensures, Ensures-bind, Ensures-pure, pure, raise, modify}
use scrybe.Errors.{io, CoreError, storage}
use scrybe.Pipeline.Merge.Segments.{concat}
use scrybe.Pipeline.Journal.Bytes.{
  Stores, concat-append_one, put_segment-Stores, samples_to_le_bytes-append,
}
use scrybe.Pipeline.Journal.{
  JournalMsg, frame, finish, Disk, Writer, disk_operation, put_segment, open_or_next, close_segment,
  samples_to_le_bytes,
}

-- the samples that are sent before the end
abbrev pub sent : List JournalMsg → List ℕ
sent [] = []
sent (finish ∷ rest) = []
sent (frame samples ∷ rest) = samples ++ sent rest

-- the frames of the messages, each counted by itself
abbrev pub sent_frames : ℕ → List JournalMsg → ℕ
sent_frames divisor [] = 0
sent_frames divisor (finish ∷ rest) = 0
sent_frames divisor (frame samples ∷ rest) = length samples / divisor + sent_frames divisor rest

-- the committed segments hold the first of the samples
abbrev pub StoresFirst : List ℕ → (ℕ → Option (List ℕ)) → Type 0
StoresFirst total segment =
    (segments : List (List ℕ)) × (lost : List ℕ) × Stores segments segment
    × (concat segments ++ lost ≡ total)

module _ (disk : Disk) (total : List ℕ) where
  -- the samples in the committed segments, in the open one, and those still to come are all of them
  pub record Holding (segments : List (List ℕ)) (open_samples ahead : List ℕ) (frames later : ℕ)
      (segment : ℕ → Option (List ℕ)) (seq frames_written : ℕ) : Type 0 where
    pub stored : Stores segments segment
    pub numbered : seq ≡ length segments
    pub room : length segments + later < u32_mod
    pub joined : concat segments ++ (open_samples ++ ahead) ≡ total
    pub counted : frames_written ≡ frames % u64_mod

  -- the variables `writer` and `segment_count` for so many committed segments
  abbrev pub Position : ℕ → List ℕ → Option (List ℕ) → ℕ → Type 0
  Position committed open_samples none count = (open_samples ≡ []) × (count ≡ committed)
  Position committed open_samples (some bytes) count =
      (bytes ≡ samples_to_le_bytes open_samples) × (count ≡ committed + 1)

  -- between two messages
  pub record Between (ahead : List ℕ) (frames later : ℕ) (s : Writer disk) : Type 0 where
    pub segments : List (List ℕ)
    pub open_samples : List ℕ
    pub holding : Holding segments open_samples ahead frames later s.segment s.seq s.frames_written
    pub position : Position (length segments) open_samples s.writer s.segment_count

  -- within a message, whose variable `w` is this
  pub record Within (current : Option (List ℕ)) (ahead : List ℕ) (frames later : ℕ)
      (s : Writer disk) : Type 0 where
    pub segments : List (List ℕ)
    pub open_samples : List ℕ
    pub holding : Holding segments open_samples ahead frames later s.segment s.seq s.frames_written
    pub position : Position (length segments) open_samples current s.segment_count
    pub vacant : s.writer ≡ none

  -- a segment was committed, and the next number is not taken yet
  pub record Closed (ahead : List ℕ) (frames later : ℕ) (s : Writer disk) : Type 0 where
    pub segments : List (List ℕ)
    pub holding : Holding segments [] ahead frames later s.segment (s.seq + 1) s.frames_written
    pub count : s.segment_count ≡ length segments
    pub vacant : s.writer ≡ none

  abbrev pub Lost : Writer disk → Type 0
  Lost s = StoresFirst total s.segment

  Within-Lost :
      (current : Option (List ℕ)) (ahead : List ℕ) (frames later : ℕ) (s : Writer disk)
      → Within current ahead frames later s
      → Lost s
  Within-Lost current ahead frames later s k =
      (k.segments, k.open_samples ++ ahead, k.holding.stored, k.holding.joined)

  attempted :
      (current : Option (List ℕ)) (ahead : List ℕ) (frames later : ℕ) (world : disk.World)
      (done : Bool) (s : Writer disk)
      → Within current ahead frames later s
      → Outcome Lost
          (λ _. Within current ahead frames later)
          ((if done then pure tt else raise (storage io)) (record s { world = world }))
  attempted current ahead frames later world true s k = record {
    segments = k.segments;
    open_samples = k.open_samples;
    holding = k.holding;
    position = k.position;
    vacant = k.vacant;
  }
  attempted current ahead frames later world false s k = Within-Lost current ahead frames later s k

  pub disk_operation-Within :
      (current : Option (List ℕ)) (ahead : List ℕ) (frames later : ℕ)
      → Ensures Lost
          (λ _. Within current ahead frames later)
          (Within current ahead frames later)
          (disk_operation disk)
  unfolding disk_operation
  disk_operation-Within current ahead frames later = record {
    at = λ s.
        attempted current ahead frames later (disk.attempt s.world).0 (disk.attempt s.world).1 s;
  }

  pub open_or_next-Within :
      (current : Option (List ℕ)) (ahead : List ℕ) (frames later : ℕ)
      → Ensures Lost
          (λ bytes. Within (some bytes) ahead frames (suc later))
          (Within current ahead frames (suc later))
          (open_or_next disk current)
  unfolding open_or_next samples_to_le_bytes
  open_or_next-Within (some bytes) ahead frames later = Ensures-pure bytes (λ s k. k)
  open_or_next-Within none ahead frames later =
      Ensures-bind _ _ (disk_operation-Within none ahead frames (suc later)) λ _.
        Ensures-bind {Q = λ _. Within (some []) ahead frames (suc later)} _ _
          (record {
            at = λ s k. record {
              segments = k.segments;
              open_samples = k.open_samples;
              holding = k.holding;
              position = (
                ap samples_to_le_bytes (sym k.position.0),
                omega (arith, k.position.1, k.holding.room),
              );
              vacant = k.vacant;
            };
          })
          λ _. Ensures-pure [] (λ s k. k)

  pub written-Within :
      (bytes samples ahead : List ℕ) (divisor frames later : ℕ)
      → Ensures {E = CoreError} Lost
          (λ _.
            Within
              (some (bytes ++ samples_to_le_bytes samples))
              ahead
              (frames + length samples / divisor)
              (suc later))
          (Within (some bytes) (samples ++ ahead) frames (suc later))
          (modify λ s. record s {
            segment_samples = (s.segment_samples + length samples) % u64_mod;
            frames_written = (s.frames_written + length samples / divisor) % u64_mod;
          })
  written-Within bytes samples ahead divisor frames later = record {
    at = λ s k. record {
      segments = k.segments;
      open_samples = k.open_samples ++ samples;
      holding = record {
        stored = k.holding.stored;
        numbered = k.holding.numbered;
        room = k.holding.room;
        joined =
            ap (λ l. concat k.segments ++ l) (append_assoc k.open_samples samples ahead)
            ∙ k.holding.joined;
        counted = omega (arith, k.holding.counted);
      };
      position = (
        ap (λ b. b ++ samples_to_le_bytes samples) k.position.0
            ∙ sym (samples_to_le_bytes-append k.open_samples samples),
        k.position.1,
      );
      vacant = k.vacant;
    };
  }

  pub close_segment-Closed :
      (bytes ahead : List ℕ) (frames later : ℕ)
      → Ensures Lost
          (λ _. Closed ahead frames later)
          (Within (some bytes) ahead frames (suc later))
          (close_segment disk bytes)
  unfolding close_segment
  close_segment-Closed bytes ahead frames later =
      Ensures-bind _ _ (disk_operation-Within (some bytes) ahead frames (suc later)) λ _. record {
        at = λ s k. record {
          segments = k.segments ++ k.open_samples ∷ [];
          holding = record {
            stored = λ i.
                ap (λ b. put_segment s.seq b s.segment i) k.position.0
                ∙ put_segment-Stores k.segments k.open_samples s.segment s.seq k.holding.numbered
                    k.holding.stored i;
            numbered =
                omega (arith, k.holding.numbered, length-append k.segments (k.open_samples ∷ []));
            room = omega (arith, k.holding.room, length-append k.segments (k.open_samples ∷ []));
            joined =
                ap (λ l. l ++ ahead) (concat-append_one k.segments k.open_samples)
                ∙ append_assoc (concat k.segments) k.open_samples ahead
                ∙ k.holding.joined;
            counted = k.holding.counted;
          };
          count = omega (arith, k.position.1, length-append k.segments (k.open_samples ∷ []));
          vacant = k.vacant;
        };
      }
