-- ===== src/Session/Drive/Quiet.antt =====
-- The chunkers leave the transcript, the log and the boundary alone.
use scrybe.Common.{refl, Option, none, some}
use scrybe.Types.{AudioFrame, FrameSource, mic, system, mixed}
use scrybe.Pipeline.Chunker
use scrybe.Session.State.{Env}
use scrybe.Session.View.{Leaves, leaves_rules}
use scrybe.Session.Drive.{
  push_chunker, push_mic, push_system, finish_chunkers, finish_mic, finish_system,
}

module _ (env : Env) where
  push_mic-Leaves : (frame : AudioFrame) → Leaves (push_mic env frame)
  unfolding push_mic
  push_mic-Leaves frame = record { same = λ s. refl }

  push_system-Leaves :
      (frame : AudioFrame) (o : Option (Chunker.Chunker env.listening))
      → Leaves (push_system env frame o)
  unfolding push_system
  push_system-Leaves frame none = record { same = λ s. refl }
  push_system-Leaves frame (some c) = record { same = λ s. refl }

  pub push_chunker-Leaves :
      (frame : AudioFrame) (source : FrameSource) → Leaves (push_chunker env frame source)
  unfolding push_chunker
  push_chunker-Leaves frame system = search (leaves_rules, push_system-Leaves)
  push_chunker-Leaves frame mic = push_mic-Leaves frame
  push_chunker-Leaves frame mixed = push_mic-Leaves frame

  finish_system-Leaves : (o : Option (Chunker.Chunker env.listening)) → Leaves (finish_system env o)
  unfolding finish_system
  finish_system-Leaves none = record { same = λ s. refl }
  finish_system-Leaves (some c) = record { same = λ s. refl }

  finish_mic-Leaves : Leaves (finish_mic env)
  unfolding finish_mic
  finish_mic-Leaves = record { same = λ s. refl }

  pub finish_chunkers-Leaves : Leaves (finish_chunkers env)
  unfolding finish_chunkers
  finish_chunkers-Leaves = search (leaves_rules, finish_mic-Leaves, finish_system-Leaves)
