-- ===== src/Session/AcceptedFinal/Echo.antt =====
-- Which finals are suppressed as echoes.
use scrybe.Common.{◌≡◌, ◌⊎◌, some, List, [], ◌∷◌}
use scrybe.Common.Int.{ℤ, ◌≤ℤ◌}
use scrybe.Types.{mic}
use scrybe.Text.{Text}
use scrybe.Session.AcceptedFinal.{Pending, AcceptedFinalBoundary, window_to_i64}
use scrybe.Session.AcceptedFinal.Tokens.{DedupToken, skew, dedup_tokens}

-- Two token lists say the same, position for position, at instants within the window.
abbrev pub Echoes : ℤ → List DedupToken → List DedupToken → Type 0
Echoes window_ms [] [] = Unit
Echoes window_ms (m ∷ ms) (s ∷ ss) =
    (m.normalized ≡ s.normalized)
    × (skew m.aligned_ms s.aligned_ms ≤ℤ window_ms)
    × Echoes window_ms ms ss
Echoes window_ms _ _ = ⊥

-- Some remembered token list is echoed.
abbrev pub EchoesOne : ℤ → List DedupToken → List (List DedupToken) → Type 0
EchoesOne w ms [] = ⊥
EchoesOne w ms (ss ∷ history) = Echoes w ms ss ⊎ EchoesOne w ms history

module _ (to_lowercase : Text → Text) (b : AcceptedFinalBoundary) (p : Pending) where
  -- what the module's documentation calls an echo
  abbrev pub IsEcho : Type 0
  IsEcho =
      (p.final.source ≡ mic)
      × ((tokens : List DedupToken) × (dedup_tokens to_lowercase p.final.transcript p.aligned_ms
            ≡ some tokens)
          × EchoesOne (window_to_i64 b.window) tokens b.system_history)
