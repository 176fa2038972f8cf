-- ===== src/Recording/Contract.antt =====
-- scrybe-application/src/recording/contract.rs: the states, failures, stop requests, snapshots and
-- events that every surface shares. A summary is a text that the code only carries.
use Prim.Native.String.{String}
use scrybe.Common.{ℕ, Bool, true, false, not, ◌&&◌, Option, ◌==◌}

pub data RecordingState : Type 0 where
  idle preparing recording saving completed failed : RecordingState

-- the discriminant, which `PartialEq` compares
abbrev pub tag : RecordingState → ℕ
tag idle = 0
tag preparing = 1
tag recording = 2
tag saving = 3
tag completed = 4
tag failed = 5

abbrev pub same_state : RecordingState → RecordingState → Bool
same_state a b = tag a == tag b

abbrev pub accepts_start : RecordingState → Bool
accepts_start idle = true
accepts_start _ = false

abbrev pub accepts_stop : RecordingState → Bool
accepts_stop preparing = true
accepts_stop recording = true
accepts_stop _ = false

abbrev pub is_terminal : RecordingState → Bool
is_terminal completed = true
is_terminal failed = true
is_terminal _ = false

abbrev pub permits_retention : RecordingState → Bool
permits_retention idle = true
permits_retention completed = true
permits_retention failed = true
permits_retention _ = false

pub data RecordingFailureKind : Type 0 where
  preflight capture finalization : RecordingFailureKind

pub record RecordingFailure : Type 0 where
  pub kind : RecordingFailureKind
  pub summary : String

pub data StopSource : Type 0 where
  tray floating_window hotkey signal surface_failure window termination : StopSource

pub data StopAcceptance : Type 0 where
  accepted already_stopping not_recording : StopAcceptance

abbrev pub schema_version : ℕ
schema_version = 1

pub record RecordingSnapshot : Type 0 where
  pub schema_version : ℕ
  pub state : RecordingState
  pub elapsed_ms : ℕ
  pub stop_requested : Bool
  pub stop_source : Option StopSource
  pub failure : Option RecordingFailure

unfoldable pub stop_enabled : RecordingSnapshot → Bool
stop_enabled snapshot = accepts_stop snapshot.state && not snapshot.stop_requested

pub record RecordingEvent : Type 0 where
  pub schema_version : ℕ
  pub sequence : ℕ
  pub from : RecordingState
  pub to : RecordingState
  pub elapsed_ms : ℕ
  pub stop_source : Option StopSource
  pub failure : Option RecordingFailure
