-- ===== src/Sessions/Scan.antt =====
-- scrybe-application/src/sessions/scan.rs: what a folder is, from the files in it. The two TOML files
-- are seen by whether they exist and whether they parse; what else `meta.toml` says is not used here.
use scrybe.Common.{Bool, true, false, ◌&&◌, ◌||◌, Option, none, some, if◌then◌else◌}

pub data SessionState : Type 0 where
  complete unfinished repairable failed : SessionState

abbrev pub is_complete : SessionState → Bool
is_complete complete = true
is_complete _ = false

pub record ArtifactAvailability : Type 0 where
  pub notes : Bool
  pub transcript : Bool
  pub audio : Bool
  pub playback : Bool
  pub metadata : Bool

pub record SessionEligibility : Type 0 where
  pub repair : Bool
  pub regenerate_notes : Bool

-- a file that a scan reads: there, and of the form that it should have
pub record TomlFile : Type 0 where
  pub exists : Bool
  pub parses : Bool

pub record FolderView : Type 0 where
  pub notes : Bool
  pub transcript : Bool
  pub audio : Bool
  pub playback : Bool
  pub journal : Bool
  pub meta : TomlFile
  pub manifest : TomlFile

pub record ScannedSession : Type 0 where
  pub state : SessionState
  pub artifacts : ArtifactAvailability

-- the state and whether the metadata was read
abbrev state_of : FolderView → Option (SessionState × Bool)
state_of view =
    if view.meta.exists
    then (if view.meta.parses then some (complete, true) else some (failed, false))
    else if view.audio
    then some (repairable, false)
    else if view.journal
    then (if view.manifest.exists
        then (if view.manifest.parses then some (repairable, false) else some (failed, false))
        else some (unfinished, false))
    else if view.notes || view.transcript
    then some (unfinished, false)
    else none

abbrev scanned : FolderView → Option (SessionState × Bool) → Option ScannedSession
scanned view none = none
scanned view (some (state, metadata)) = some (record {
  state = state;
  artifacts = record {
    notes = view.notes;
    transcript = view.transcript;
    audio = view.audio;
    playback = view.playback && is_complete state;
    metadata = metadata;
  };
})

-- none is `Classified::NotASession`
unfoldable pub classify : FolderView → Option ScannedSession
classify view = scanned view (state_of view)

abbrev pub is_repairable : SessionState → Bool
is_repairable repairable = true
is_repairable _ = false

unfoldable pub eligibility : ScannedSession → SessionEligibility
eligibility session = record {
  repair = is_repairable session.state;
  regenerate_notes = session.artifacts.transcript && is_complete session.state;
}
