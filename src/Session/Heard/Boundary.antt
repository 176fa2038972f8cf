-- ===== src/Session/Heard/Boundary.antt =====
-- The boundary on both paths: what it releases is accepted or suppressed, and what it takes is heard.
use scrybe.Common.{[], ◌∷◌, ◌++◌, map, ℕ}
use mathlib.Core.Path.{subst}
use mathlib.Core.List.{Perm, append-nil, perm_middle, perm_append_singleton}
use mathlib.Core.List.Perm
use scrybe.Common.Action.{Ensures}
use scrybe.Text.{Text}
use scrybe.Session.AcceptedFinal.{AcceptedFinal}
use scrybe.Session.AcceptedFinal.Conservation.{finals, push-perm}
use scrybe.Session.AcceptedFinal.Suppressed.{push-AreMine}
use scrybe.Session.State.{Env}
use scrybe.Session.Streaming.{push_boundary}
use scrybe.Session.Heard.{Said, said, IsHeard, transcript_of}
use scrybe.Session.Heard.Release.{Hears, Stopped, boundary-Hears}

module _ (env : Env) (header : Text) where
  -- a new text is to do, and its final in hand
  new-Hears :
      (f : AcceptedFinal) (v : Said)
      → IsHeard header [] [] v
      → IsHeard header (f ∷ []) (transcript_of f ∷ []) v
  new-Hears f v h = record {
    accepted = h.accepted;
    suppressed = h.suppressed;
    lines = h.lines;
    hooks = h.hooks;
    observers = h.observers;
    echoes = h.echoes;
    heard =
        Perm.trans
          (Perm.map transcript_of (
            Perm.trans
              (Perm.append_left h.accepted (perm_middle h.suppressed (finals v.boundary.pending)))
              (perm_middle h.accepted (h.suppressed ++ finals v.boundary.pending))))
          (Perm.trans
            (Perm.cons (transcript_of f) (
              subst
                (Perm
                  (map transcript_of (h.accepted ++ (h.suppressed ++ finals v.boundary.pending))))
                (append-nil (v.mic_text_chunks ++ v.sys_text_chunks)) h.heard))
            (Perm.symm (perm_append_singleton _ _)));
  }

  pub push_boundary-Hears :
      (f : AcceptedFinal) (duration : ℕ)
      → Ensures
          (Stopped env header)
          (λ resolved. Hears env header resolved.accepted (transcript_of f ∷ []))
          (Hears env header [] [])
          (push_boundary env f duration)
  unfolding push_boundary
  push_boundary-Hears f duration = record {
    at = λ s h.
        boundary-Hears env header (f ∷ []) (transcript_of f ∷ []) (said env s) _ _
          (push-perm env.to_lowercase f _ _ s.boundary)
          (push-AreMine env.to_lowercase f _ _ s.boundary) (new-Hears f (said env s) h);
  }
