-- ===== src/Session/Opening/Fresh.antt =====
-- What a session has done by its first frame.
use scrybe.Common.{
  ℕ, ◌≡◌, refl, sym, ap, ◌∙◌, true, false, Option, none, some, List, [], ◌++◌, ◌∷◌, take,
  Option-cases, Bool-cases, inl, inr,
}
use mathlib.Core.Path.{subst}
use mathlib.Core.Option
use mathlib.Core.List.{append-nil}
use scrybe.Common.Action.{modify, pure, ◌>>=◌, Ensures, Ensures-bind, Ensures-pure, Ensures-if}
use scrybe.Text.{Text}
use scrybe.Errors.{CoreError}
use scrybe.Types.{AttributedChunk, FrameSource, system}
use scrybe.Pipeline.Chunker
use scrybe.Pipeline.Chunker.{ChunkerConfig}
use scrybe.Storage.TranscriptLog.{open_log}
use scrybe.Session.AcceptedFinal
use scrybe.Session.State.{
  Env, SessionState, append_durable, Notice, tell, progress, hook, recording, session_start,
  consent_recorded,
}
use scrybe.Session.Heard.{told, hook_text, progress_text, told-append}
use scrybe.Session.Ledger.{IsPrefix}
use scrybe.Session.Ledger.Lines.{IsPrefix-take}
use scrybe.Session.Drive.Returns.{NoneHeld}
use scrybe.Session.Drive.Crash.{IsFresh}
use scrybe.Session.Opening.{DriveInputs, announce, begun, open_wal, header_of, begin}

-- the folder is new, and no one was told of a text
pub record IsNew (env : Env) (s : SessionState env) : Type 0 where
  pub empty : s.transcript ≡ []
  pub no_log : s.live.wal.file ≡ none
  pub no_hooks : told hook_text s.notices ≡ []
  pub no_observers : told progress_text s.notices ≡ []

-- a session that has failed before its first frame: some of the header, and no log
pub record IsUnopened (env : Env) (header : Text) (s : SessionState env) : Type 0 where
  pub cut : IsPrefix s.transcript header
  pub no_log : s.live.wal.file ≡ none

pub record IsHeaded (env : Env) (header : Text) (s : SessionState env) : Type 0 where
  pub headed : s.transcript ≡ header
  pub no_log : s.live.wal.file ≡ none
  pub no_hooks : told hook_text s.notices ≡ []
  pub no_observers : told progress_text s.notices ≡ []

-- the session's own values are as they begin
pub record IsBegun (env : Env) (s : SessionState env) : Type 0 where
  pub no_finals : s.boundary ≡ AcceptedFinal.new
  pub no_texts : s.mic_text_chunks ++ s.sys_text_chunks ≡ []
  pub mine : s.mic_chunker.pending ≡ []
  pub theirs : NoneHeld env s.system_chunker

pub record IsOpened (env : Env) (header : Text) (s : SessionState env) : Type 0 where
  pub headed : IsHeaded env header s
  pub own : IsBegun env s
  pub log : env.streams ≡ true → s.live.wal ≡ open_log env.codec none

pub IsOpened-IsFresh :
    (env : Env) (header : Text) (s : SessionState env)
    → env.streams ≡ true
    → IsOpened env header s
    → IsFresh env header s
IsOpened-IsFresh env header s streams o = record {
  header_only = o.headed.headed;
  no_log = o.log streams;
  no_finals = o.own.no_finals;
}

silent :
    (read : Notice → List AttributedChunk) (ns : List Notice) (notice : Notice)
    → told read ns ≡ []
    → read notice ≡ []
    → told read (ns ++ notice ∷ []) ≡ []
silent read ns notice h e = rw (told-append read ns (notice ∷ []), h, e) refl

module _ (env : Env) (header : Text) where
  append-IsHeaded :
      Ensures
        (IsUnopened env header)
        (λ _. IsHeaded env header)
        (IsNew env)
        (append_durable env header)
  unfolding append_durable
  append-IsHeaded = record {
    at = λ s n. elim (Option-cases (env.write_fault s.world).1) [
      | inl e ↦ rw e (record {
        headed = ap (λ t. t ++ header) n.empty;
        no_log = n.no_log;
        no_hooks = n.no_hooks;
        no_observers = n.no_observers;
      })
      | inr (k, e) ↦ rw e (record {
        cut =
            subst (λ t. IsPrefix (t ++ take k header) header) (sym n.empty)
              (IsPrefix-take k header);
        no_log = n.no_log;
      })
    ];
  }

  -- a notice that has no text
  tell-IsNew :
      (notice : Notice)
      → hook_text notice ≡ []
      → progress_text notice ≡ []
      → Ensures (IsUnopened env header) (λ _. IsNew env) (IsNew env) (tell env notice)
  tell-IsNew notice h p = record {
    at = λ s n. record {
      empty = n.empty;
      no_log = n.no_log;
      no_hooks = silent hook_text s.notices notice n.no_hooks h;
      no_observers = silent progress_text s.notices notice n.no_observers p;
    };
  }

  tell-IsHeaded :
      (notice : Notice)
      → hook_text notice ≡ []
      → progress_text notice ≡ []
      → Ensures
          (IsUnopened env header)
          (λ _. IsHeaded env header)
          (IsHeaded env header)
          (tell env notice)
  tell-IsHeaded notice h p = record {
    at = λ s n. record {
      headed = n.headed;
      no_log = n.no_log;
      no_hooks = silent hook_text s.notices notice n.no_hooks h;
      no_observers = silent progress_text s.notices notice n.no_observers p;
    };
  }

  announce-IsHeaded :
      Ensures (IsUnopened env header) (λ _. IsHeaded env header) (IsNew env) (announce env header)
  unfolding announce
  announce-IsHeaded = Ensures-bind _ _ (tell-IsNew (progress recording) refl refl) λ _.
      Ensures-bind _ _ append-IsHeaded λ _.
        Ensures-bind _ _ (tell-IsHeaded (hook session_start) refl refl)
          λ _. tell-IsHeaded (hook consent_recorded) refl refl

-- a chunker that has just been made, or none
NoneHeld-new :
    (env : Env) (config : ChunkerConfig) (source : FrameSource) (vad : Option env.listening.Vad)
    → NoneHeld env
        (Option.map (λ (v : env.listening.Vad). Chunker.new env.listening config v source) vad)
NoneHeld-new env config source none = tt
NoneHeld-new env config source (some vad) = refl

pub begun-IsBegun :
    (env : Env) (inputs : DriveInputs env) (s : SessionState env) → IsBegun env (begun env inputs s)
unfolding begun
begun-IsBegun env inputs s = record {
  no_finals = refl;
  no_texts = refl;
  mine = refl;
  theirs = NoneHeld-new env inputs.chunker_config system inputs.system_vad;
}

module _ (env : Env) (header : Text) where
  abbrev IsReady : SessionState env → Type 0
  IsReady s = IsHeaded env header s × IsBegun env s

  begun-IsReady :
      (inputs : DriveInputs env)
      → Ensures {E = CoreError}
          (IsUnopened env header)
          (λ _. IsReady)
          (IsHeaded env header)
          (modify (begun env inputs))
  unfolding begun
  begun-IsReady inputs = record {
    at = λ s h. (
      record {
        headed = h.headed;
        no_log = h.no_log;
        no_hooks = h.no_hooks;
        no_observers = h.no_observers;
      },
      begun-IsBegun env inputs s,
    );
  }

  open_wal-IsOpened :
      Ensures (IsUnopened env header) (λ _. IsOpened env header) IsReady (open_wal env)
  unfolding open_wal ◌>>=◌ open_log
  open_wal-IsOpened = record {
    at = λ s (h, b). elim (Bool-cases (env.read_fails s.world).1) [
      | inl e ↦ rw e (record { cut = ([], append-nil _ ∙ h.headed); no_log = h.no_log })
      | inr e ↦ rw e (record {
        headed = record {
          headed = h.headed;
          no_log = ap (λ f. (open_log env.codec f).file) h.no_log;
          no_hooks = h.no_hooks;
          no_observers = h.no_observers;
        };
        own = record {
          no_finals = b.no_finals;
          no_texts = b.no_texts;
          mine = b.mine;
          theirs = b.theirs;
        };
        log = λ _. ap (open_log env.codec) h.no_log;
      })
    ];
  }

  without_log-IsOpened :
      env.streams ≡ false
      → Ensures {E = CoreError} (IsUnopened env header) (λ _. IsOpened env header) IsReady (pure tt)
  without_log-IsOpened batch =
      Ensures-pure tt (λ s (h, b). record { headed = h; own = b; log = λ e. absurd (cc) })

-- a session in a new folder, at its first frame
pub begin-IsOpened :
    (env : Env) (format : ℕ → Text) (inputs : DriveInputs env)
    → let header = header_of env format inputs in
      Ensures
        (IsUnopened env header)
        (λ _. IsOpened env header)
        (IsNew env)
        (begin env format inputs)
unfolding begin
begin-IsOpened env format inputs =
    let header = header_of env format inputs in
    Ensures-bind _ _ (announce-IsHeaded env header) λ _.
      Ensures-bind _ _ (begun-IsReady env header inputs) λ _.
        Ensures-if env.streams _ _ (λ _. open_wal-IsOpened env header)
          (without_log-IsOpened env header)
