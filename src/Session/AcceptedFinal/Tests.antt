-- ===== src/Session/AcceptedFinal/Tests.antt =====
-- The boundary's theorems at concrete finals.
use scrybe.Common.{none, some, List, [], ◌∷◌}
use mathlib.Core.List.{Perm}
use scrybe.Common.Int.{pos}
use scrybe.Types.{mic, system}
use scrybe.Session.AcceptedFinal.{AcceptedFinalBoundary, Pending, new}
use scrybe.Session.AcceptedFinal.Conservation.{
  Input, pushes, advances, pushed, session_outputs, session_outputs-perm_pushed,
}
use scrybe.Session.Samples.{as_is, said}

abbrev call : List Input
call =
    pushes (said system) (some (pos 100)) (some (pos 1000))
    ∷ pushes (said mic) (some (pos 150)) (some (pos 1050))
    ∷ advances mic (some (pos 9000))
    ∷ pushes (said mic) none none
    ∷ []

session_outputs-perm_pushed_example : Perm (session_outputs as_is new call) (pushed call)
session_outputs-perm_pushed_example = session_outputs-perm_pushed as_is call

-- both sources have passed 9000 ms
abbrev holding : AcceptedFinalBoundary
holding = record new {
  pending = record { final = said mic; aligned_ms = pos 150; seq = 0 } ∷ [];
  mic_progress_ms = some (pos 9000);
  system_progress_ms = some (pos 9500);
}

abbrev waiting : AcceptedFinalBoundary
waiting = record holding { system_progress_ms = none }

abbrev spoken_again : Pending
spoken_again = record { final = said mic; aligned_ms = pos 150; seq = 1 }
