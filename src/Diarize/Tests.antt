-- ===== src/Diarize/Tests.antt =====
-- The diarizer's theorems at a call of two chunks.
use scrybe.Common.{ℕ, none, [], ◌∷◌, ◌++◌, map, All}
use mathlib.Core.List.{Perm}
use scrybe.Types.{mic, system, me, them, TranscriptChunk}
use scrybe.Diarize.{attribute, diarize}
use scrybe.Diarize.Channels.{IsLabelled, IsTimeline, diarize-IsTimeline}

abbrev said : ℕ → TranscriptChunk
said start = record {
  text = 104 ∷ 105 ∷ [];
  source = mic;
  start_ms = start;
  duration_ms = 900;
  language = none;
  tokens = [];
}

diarize-IsTimeline_example :
    Perm (diarize (said 100 ∷ said 500 ∷ []) (said 100 ∷ [])) (
      map (attribute mic me) (said 100 ∷ said 500 ∷ [])
      ++ map (attribute system them) (said 100 ∷ []))
    × IsTimeline (diarize (said 100 ∷ said 500 ∷ []) (said 100 ∷ []))
    × All IsLabelled (diarize (said 100 ∷ said 500 ∷ []) (said 100 ∷ []))
diarize-IsTimeline_example = diarize-IsTimeline (said 100 ∷ said 500 ∷ []) (said 100 ∷ [])
