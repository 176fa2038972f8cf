-- ===== src/Session/Opening/Granted.antt =====
-- How a session begins whose disk takes what it writes.
use scrybe.Common.{ℕ, ◌≡◌, []}
use scrybe.Common.Action.{Ensures, Ensures-bind, Ensures-pure, Ensures-if}
use scrybe.Text.{Text}
use scrybe.Session.State.{Env}
use scrybe.Session.State.Returns.{Grants, Never, append_durable-Returns}
use scrybe.Session.Drive.Returns.{NoneHeld}
use scrybe.Session.Opening.{DriveInputs, announce, header_of, begin}
use scrybe.Session.Opening.Fresh.{begun-IsBegun}

-- a batch session is at its first frame, where the disk takes the header
pub begin-returns :
    (env : Env) (format : ℕ → Text) (inputs : DriveInputs env)
    → Grants env
    → Ensures
        (Never env)
        (λ _ s. (s.mic_chunker.pending ≡ []) × NoneHeld env s.system_chunker)
        (λ _. Unit)
        (begin env format inputs)
unfolding begin announce
begin-returns env format inputs grants =
    Ensures-bind {Q = λ _ _. Unit} _ _
      (Ensures-bind {Q = λ _ _. Unit} _ _ (record { at = λ s k. k })
        λ _.
          Ensures-bind {Q = λ _ _. Unit} _ _
            (append_durable-Returns env (λ _. Unit) grants (header_of env format inputs))
            λ _.
              Ensures-bind {Q = λ _ _. Unit} _ _ (record { at = λ s k. k })
                λ _. record { at = λ s k. k })
      λ _.
        Ensures-bind {Q = λ _ s. (s.mic_chunker.pending ≡ []) × NoneHeld env s.system_chunker} _ _
          (record { at = λ s k. let b = begun-IsBegun env inputs s in (b.mine, b.theirs) })
          λ _.
            Ensures-if env.streams _ _ (λ e. absurd (cc grants.batch))
              (λ _. Ensures-pure tt (λ s k. k))
