-- ===== src/Session/Drive/Heard.antt =====
-- A whole session, on either path: what it heard is on the transcript or suppressed, and all of it
-- is with the diarizer.
use scrybe.Common.{ℕ, ◌≡◌, refl, sym, ◌∙◌, List, [], ◌++◌, map}
use mathlib.Core.Path.{subst}
use mathlib.Core.List.{Perm, append-nil}
use mathlib.Core.List.Perm
use scrybe.Common.Action.{
  Result, Keeps, Keeps-if, Keeps-bind, Keeps-pure, Outcome, Ensures, Ensures-bind, Ensures-pure,
  Ensures-Keeps, Ensures-for_each,
}
use scrybe.Errors.{CaptureError}
use scrybe.Text.{Text}
use scrybe.Types.{AudioFrame, mic, system}
use scrybe.Session.AcceptedFinal
use scrybe.Session.AcceptedFinal.{AcceptedFinal, Resolved}
use scrybe.Session.AcceptedFinal.Conservation.{finish-perm, finals}
use scrybe.Session.AcceptedFinal.Suppressed.{finish-AreMine}
use scrybe.Session.State.{Env, SessionState, finalizing_transcript, report_progress}
use scrybe.Session.Persist.Quiet.{release_streaming_resolved-Keeps, release_ready-Keeps}
use scrybe.Session.Streaming.Heard.{flush_source-said}
use scrybe.Session.Drive.{release, process, flush_sources, finish_boundary, wind_up, run_capture}
use scrybe.Session.Drive.Quiet.{finish_chunkers-Leaves}
use scrybe.Session.Heard.{
  said, Leaves-said, transcript_of, told, hook_text, progress_text, told-append,
}
use scrybe.Session.Heard.Release.{Hears, Stopped, boundary-Hears}
use scrybe.Session.Drive.Hearing.{
  IsWritten, Hearing, quiet, release-Hears, process-Hears, capture-Hears,
}

module _ (env : Env) (header : Text) where
  flush_sources-said : Keeps (said env) (flush_sources env)
  unfolding flush_sources
  flush_sources-said =
      Keeps-bind _ _ (flush_source-said env mic) (λ _. flush_source-said env system)

  -- the count of the tail tells no one of a final
  tell_tail : (n : ℕ) → Hearing env header (report_progress env (finalizing_transcript n))
  tell_tail n = record {
    at = λ s h. record {
      accepted = h.accepted;
      suppressed = h.suppressed;
      lines = h.lines;
      hooks = told-append hook_text s.notices _ ∙ append-nil _ ∙ h.hooks;
      observers = told-append progress_text s.notices _ ∙ append-nil _ ∙ h.observers;
      echoes = h.echoes;
      heard = h.heard;
    };
  }

  abbrev Over : List AcceptedFinal → SessionState env → Type 0
  Over hand s = Hears env header hand [] s × (s.boundary.pending ≡ [])

  finish_boundary-Over :
      Ensures
        (Stopped env header)
        (λ resolved. Over resolved.accepted)
        (Hears env header [] [])
        (finish_boundary env)
  unfolding finish_boundary
  finish_boundary-Over = record {
    at = λ s h. (
      boundary-Hears env header [] [] (said env s) _ _
          (subst (λ l. Perm l (finals s.boundary.pending)) (sym (append-nil _))
            (finish-perm env.to_lowercase s.boundary))
          (finish-AreMine env.to_lowercase s.boundary) h,
      refl,
    );
  }

  release-Over :
      (resolved : Resolved)
      → Ensures (Stopped env header) (λ _. Over []) (Over resolved.accepted) (release env resolved)
  unfolding release
  release-Over resolved =
      Ensures-Keeps _ (λ seen. seen.0.pending ≡ [])
        (Keeps-if env.streams _ _ (release_streaming_resolved-Keeps env resolved)
          (release_ready-Keeps env resolved.accepted))
        (release-Hears env header resolved)

  wind_up-Over : Ensures (Stopped env header) (λ _. Over []) (Hears env header [] []) (wind_up env)
  unfolding wind_up
  wind_up-Over =
      Ensures-bind _ _
        (quiet env header _ (Keeps-if env.streams _ _ flush_sources-said (Keeps-pure tt)))
        λ _.
          Ensures-bind _ _ (quiet env header _ (Leaves-said _ (finish_chunkers-Leaves env))) λ tail.
            Ensures-bind _ _ (tell_tail _) λ _.
              Ensures-bind _ _
                (Ensures-for_each (λ _. Hears env header [] []) (process env)
                  (λ x xs. process-Hears env header x) tail)
                λ _. Ensures-bind _ _ finish_boundary-Over release-Over

  Over-IsWritten : (s : SessionState env) → Over [] s → IsWritten env header s
  Over-IsWritten s (h, e) = record {
    accepted = h.accepted;
    suppressed = h.suppressed;
    lines = h.lines;
    hooks = h.hooks;
    observers = h.observers;
    echoes = h.echoes;
    heard =
        subst (Perm (map transcript_of (h.accepted ++ h.suppressed)))
          (append-nil (s.mic_text_chunks ++ s.sys_text_chunks))
          (subst
            (λ l.
              Perm (map transcript_of (h.accepted ++ l))
                ((s.mic_text_chunks ++ s.sys_text_chunks) ++ []))
            (append-nil h.suppressed)
            (subst
              (λ ps.
                Perm (map transcript_of (h.accepted ++ (h.suppressed ++ finals ps)))
                  ((s.mic_text_chunks ++ s.sys_text_chunks) ++ []))
              e h.heard));
  }

-- a session that starts with only its header on transcript.md, and that has heard no text yet
pub run_capture-IsWritten :
    (env : Env) (header : Text) (stream : List (Result CaptureError AudioFrame))
    (s : SessionState env)
    → s.transcript ≡ header
    → told hook_text s.notices ≡ []
    → told progress_text s.notices ≡ []
    → s.boundary ≡ AcceptedFinal.new
    → s.mic_text_chunks ++ s.sys_text_chunks ≡ []
    → Outcome (Stopped env header) (λ _. IsWritten env header) (run_capture env stream s)
unfolding run_capture
run_capture-IsWritten env header stream s t h o b x =
    let run : Ensures (Stopped env header) (λ _. IsWritten env header) (Hears env header [] [])
        (run_capture env stream) =
      Ensures-bind _ _ (capture-Hears env header stream) λ terminal.
        Ensures-bind _ _ (wind_up-Over env header)
          λ _. Ensures-pure _ (Over-IsWritten env header) in
    run.at s (record {
      accepted = [];
      suppressed = [];
      lines = t ∙ sym (append-nil header);
      hooks = h;
      observers = o;
      echoes = tt;
      heard =
          subst (λ l. Perm (map transcript_of (finals s.boundary.pending)) (l ++ [])) (sym x)
            (subst (λ c. Perm (map transcript_of (finals c.pending)) []) (sym b) Perm.rfl);
    })
