-- ===== src/Session/AcceptedFinal/Conservation.antt =====
-- No final chunk is lost or made up: what a session releases is what was pushed, each once.
use scrybe.Common.{
  ◌≡◌, refl, ap, ◌∙◌, Option, none, some, List, [], ◌∷◌, ◌++◌, map, take, drop, take-append-drop,
  inl, inr, ◌⊎◌, arith,
}
use mathlib.Core.Path.{subst}
use mathlib.Core.List.{
  Perm, perm_middle, append-nil, append_assoc, map-append, perm_append_comm, perm_append_singleton,
}
use mathlib.Core.List.Perm
use scrybe.Common.Int.{ℤ}
use scrybe.Common.Sorting.{sort_by, sort_by-perm}
use scrybe.Text.{Text}
use scrybe.Types.{FrameSource, mic, system, mixed}
use scrybe.Session.AcceptedFinal.{
  AcceptedFinal, Pending, Resolved, ReleaseVerdict, accept, suppress, AcceptedFinalBoundary, new,
  key_le, partition_point, file_verdict, resolve_release, resolve_all, release_up_to,
  release_between, release_resolved, remember, advance_progress, enqueue, push, advance, finish,
}
use scrybe.Session.AcceptedFinal.Tokens.{DedupToken, dedup_tokens}

abbrev pub final_of : Pending → AcceptedFinal
final_of p = p.final

abbrev pub finals : List Pending → List AcceptedFinal
finals = map final_of

abbrev pub outputs : Resolved → List AcceptedFinal
outputs r = r.accepted ++ r.suppressed

file_verdict-perm :
    (final : AcceptedFinal) (v : ReleaseVerdict) (r : Resolved)
    → (v ≡ accept final) ⊎ (v ≡ suppress final)
    → Perm (outputs (file_verdict v r)) (final ∷ outputs r)
unfolding file_verdict
file_verdict-perm final v r (inl e) = rw e Perm.rfl
file_verdict-perm final v r (inr e) = rw e (perm_middle r.accepted r.suppressed)

advance_progress-pending :
    (source : FrameSource) (candidate : ℤ) (b : AcceptedFinalBoundary)
    → (advance_progress source candidate b).pending ≡ b.pending
unfolding advance_progress
advance_progress-pending system candidate b = refl
advance_progress-pending _ candidate b = refl

remember-pending :
    (source : FrameSource) (tokens : Option (List DedupToken)) (b : AcceptedFinalBoundary)
    → (remember source tokens b).pending ≡ b.pending
unfolding remember
remember-pending system none b = refl
remember-pending system (some tokens) b = refl
remember-pending mic _ b = refl
remember-pending mixed _ b = refl

module _ (to_lowercase : Text → Text) where
  pub resolve_cases :
      (b : AcceptedFinalBoundary) (p : Pending)
      → (resolve_release to_lowercase b p ≡ accept p.final)
        ⊎ (resolve_release to_lowercase b p ≡ suppress p.final)
  unfolding resolve_release
  resolve_cases b p = ground arith

  pub resolve_all-perm :
      (b : AcceptedFinalBoundary) (ps : List Pending)
      → Perm (outputs (resolve_all to_lowercase b ps)) (finals ps)
  unfolding resolve_all
  resolve_all-perm b [] = Perm.rfl
  resolve_all-perm b (p ∷ ps) =
      Perm.trans
        (file_verdict-perm p.final (resolve_release to_lowercase b p)
          (resolve_all to_lowercase b ps) (resolve_cases b p))
        (Perm.cons p.final (resolve_all-perm b ps))

  release_up_to-perm :
      (watermark : ℤ) (b : AcceptedFinalBoundary)
      → let (b', out) = release_up_to to_lowercase watermark b in
        Perm (outputs out ++ finals b'.pending) (finals b.pending)
  unfolding release_up_to
  release_up_to-perm watermark b =
      let sorted = sort_by key_le b.pending in
      let split = partition_point watermark sorted in
      Perm.trans
        (Perm.append_right (finals (drop split sorted))
          (resolve_all-perm (record b { pending = drop split sorted }) (take split sorted)))
        (rw (← map-append, take-append-drop) (Perm.map final_of (sort_by-perm key_le b.pending)))

  release_resolved-perm :
      (b : AcceptedFinalBoundary)
      → let (b', out) = release_resolved to_lowercase b in
        Perm (outputs out ++ finals b'.pending) (finals b.pending)
  unfolding release_resolved
  release_resolved-perm b = between b.mic_progress_ms b.system_progress_ms
    where
      between :
          (m s : Option ℤ)
          → Perm
              (outputs (release_between to_lowercase m s b).1
                ++ finals (release_between to_lowercase m s b).0.pending)
              (finals b.pending)
      between none s = Perm.rfl
      between (some m) none = Perm.rfl
      between (some m) (some s) = release_up_to-perm _ b

  enqueue-pending :
      (final : AcceptedFinal) (aligned progress : ℤ) (b : AcceptedFinalBoundary)
      → (enqueue to_lowercase final aligned progress b).pending
        ≡ b.pending ++ record { final = final; aligned_ms = aligned; seq = b.next_seq } ∷ []
  unfolding enqueue
  enqueue-pending final aligned progress b =
      ap (λ ps. ps ++ record { final = final; aligned_ms = aligned; seq = b.next_seq } ∷ [])
        (remember-pending final.source (dedup_tokens to_lowercase final.transcript aligned) _
          ∙ advance_progress-pending final.source progress _)

  -- A pushed chunk is either among those that the push releases or still in the buffer, and nothing
  -- else changes hands.
  pub push-perm :
      (final : AcceptedFinal) (aligned progress : Option ℤ) (b : AcceptedFinalBoundary)
      → let (b', out) = push to_lowercase final aligned progress b in
        Perm (outputs out ++ finals b'.pending) (final ∷ finals b.pending)
  unfolding push
  push-perm final (some aligned) (some progress) b =
      Perm.trans (release_resolved-perm (enqueue to_lowercase final aligned progress b)) (
        rw (enqueue-pending final aligned progress b, map-append)
          (perm_append_singleton final (finals b.pending)))
  push-perm final (some aligned) none b = Perm.rfl
  push-perm final none progress b = Perm.rfl

  pub advance-perm :
      (source : FrameSource) (horizon : Option ℤ) (b : AcceptedFinalBoundary)
      → let (b', out) = advance to_lowercase source horizon b in
        Perm (outputs out ++ finals b'.pending) (finals b.pending)
  unfolding advance
  advance-perm source none b = Perm.rfl
  advance-perm source (some horizon) b =
      subst
        (λ ps.
          Perm
            (outputs (release_resolved to_lowercase (advance_progress source horizon b)).1
              ++ finals
                  (release_resolved to_lowercase (advance_progress source horizon b)).0.pending)
            (finals ps))
        (advance_progress-pending source horizon b)
        (release_resolved-perm (advance_progress source horizon b))

  pub finish-perm :
      (b : AcceptedFinalBoundary) → Perm (outputs (finish to_lowercase b)) (finals b.pending)
  unfolding finish
  finish-perm b =
      Perm.trans (resolve_all-perm (record b { pending = [] }) (sort_by key_le b.pending))
        (Perm.map final_of (sort_by-perm key_le b.pending))

-- what a step puts out goes before what the rest of the session puts out
perm_step :
    (out rest pushed held held' : List AcceptedFinal)
    → Perm rest (pushed ++ held')
    → Perm (out ++ held') held
    → Perm (out ++ rest) (pushed ++ held)
perm_step out rest pushed held held' r h =
    let swapped : Perm ((out ++ pushed) ++ held') ((pushed ++ out) ++ held') =
      Perm.append_right held' (perm_append_comm out pushed) in
    Perm.trans (Perm.append_left out r)
      (Perm.trans (rw append_assoc at (rw append_assoc at swapped)) (Perm.append_left pushed h))

-- What a session does with its boundary.
pub data Input : Type 0 where
  pushes : AcceptedFinal → Option ℤ → Option ℤ → Input
  advances : FrameSource → Option ℤ → Input

unfoldable pub pushed : List Input → List AcceptedFinal
pushed [] = []
pushed (pushes final _ _ ∷ rest) = final ∷ pushed rest
pushed (advances _ _ ∷ rest) = pushed rest

module _ (to_lowercase : Text → Text) where
  unfoldable pub respond : Input → AcceptedFinalBoundary → AcceptedFinalBoundary × Resolved
  respond (pushes final aligned progress) b = push to_lowercase final aligned progress b
  respond (advances source horizon) b = advance to_lowercase source horizon b

  -- everything that a session hands on, in order, until the boundary is finished
  unfoldable pub session_outputs : AcceptedFinalBoundary → List Input → List AcceptedFinal
  session_outputs b [] = outputs (finish to_lowercase b)
  session_outputs b (input ∷ inputs) =
      let (b', out) = respond input b in outputs out ++ session_outputs b' inputs

  session_outputs-perm :
      (b : AcceptedFinalBoundary) (inputs : List Input)
      → Perm (session_outputs b inputs) (pushed inputs ++ finals b.pending)
  unfolding session_outputs pushed respond
  session_outputs-perm b [] = finish-perm to_lowercase b
  session_outputs-perm b (pushes final aligned progress ∷ inputs) =
      let (b', out) = push to_lowercase final aligned progress b in
      Perm.trans
        (perm_step (outputs out) (session_outputs b' inputs) (pushed inputs)
          (final ∷ finals b.pending) (finals b'.pending) (session_outputs-perm b' inputs)
          (push-perm to_lowercase final aligned progress b))
        (perm_middle (pushed inputs) (finals b.pending))
  session_outputs-perm b (advances source horizon ∷ inputs) =
      let (b', out) = advance to_lowercase source horizon b in
      perm_step (outputs out) (session_outputs b' inputs) (pushed inputs) (finals b.pending)
        (finals b'.pending) (session_outputs-perm b' inputs)
        (advance-perm to_lowercase source horizon b)

  -- Every final that a session pushes is handed on exactly once, accepted or suppressed, by the
  -- time that the boundary is finished, whatever the instants and the order of the calls; and
  -- nothing else is.
  pub session_outputs-perm_pushed :
      (inputs : List Input) → Perm (session_outputs new inputs) (pushed inputs)
  session_outputs-perm_pushed inputs = rw append-nil at (session_outputs-perm new inputs)
