-- ===== src/Session/Drive/Fed.antt =====
-- The journals are given the frames of the stream, up to its first error.
use scrybe.Common.{◌≡◌, refl, sym, ap, inl, inr, none, some, List, [], ◌∷◌, ◌++◌}
use scrybe.Common.Action.{
  Result, ok, err, Outcome, Ensures, Ensures-bind, Ensures-pure, Ensures-mono, Keeps-if, Keeps-pure,
  Keeps-for_each,
}
use mathlib.Core.Path.{subst}
use mathlib.Core.List.{append-nil}
use scrybe.Errors.{CaptureError, CoreError}
use scrybe.Types.{AudioFrame}
use scrybe.Session.State.{Env, Session, SessionState}
use scrybe.Session.Fed.{Given, fed, Unfed}
use scrybe.Session.Journals.Fed.{give, AtMost, Before, After, Unfed-After, journal_push-gives}
use scrybe.Session.Streaming.Unfed.{push_frame-Unfed}
use scrybe.Session.Drive.{is_empty, take_frame, capture, wind_up, run_capture}
use scrybe.Session.Drive.Unfed.{
  release-Unfed, advance_boundary-Unfed, process-Unfed, push_chunker-Unfed, wind_up-Unfed,
}

-- the frames that come before the first error
abbrev pub captured : List (Result CaptureError AudioFrame) → List AudioFrame
captured [] = []
captured (err e ∷ rest) = []
captured (ok frame ∷ rest) = frame ∷ captured rest

abbrev pub give_all : List AudioFrame → Given → Given
give_all [] g = g
give_all (frame ∷ frames) g = give_all frames (give frame.source frame.samples g)

module _ (env : Env) where
  -- the first of the frames were given
  pub record GaveSome (g : Given) (frames : List AudioFrame) (s : SessionState env) : Type 0 where
    pub done : List AudioFrame
    pub rest : List AudioFrame
    pub whole : done ++ rest ≡ frames
    pub gave : fed env s ≡ give_all done g

  take_frame-gives :
      (g : Given) (frame : AudioFrame)
      → Ensures
          (AtMost env g frame)
          (λ _. After env g frame)
          (Before env g frame)
          (take_frame env frame)
  unfolding take_frame
  take_frame-gives g frame = Ensures-bind _ _ (journal_push-gives env g frame) λ _.
      Ensures-bind _ _ (Unfed-After env g frame _ (advance_boundary-Unfed env frame.source))
        λ progressed.
          Ensures-bind _ _
            (Unfed-After env g frame _
              (Keeps-if (is_empty progressed) _ _ (Keeps-pure tt) (release-Unfed env progressed)))
            λ _.
              Ensures-bind _ _
                (Unfed-After env g frame _
                  (Keeps-if env.streams _ _ (push_frame-Unfed env frame) (Keeps-pure tt)))
                λ _.
                  Ensures-bind _ _
                    (Unfed-After env g frame _ (push_chunker-Unfed env frame frame.source))
                    λ chunks.
                      Unfed-After env g frame _ (Keeps-for_each chunks _ (process-Unfed env))

  AtMost-GaveSome :
      (g : Given) (frame : AudioFrame) (frames : List AudioFrame) (s : SessionState env)
      → AtMost env g frame s
      → GaveSome g (frame ∷ frames) s
  AtMost-GaveSome g frame frames s (inl e) = record {
    done = [];
    rest = frame ∷ frames;
    whole = refl;
    gave = e;
  }
  AtMost-GaveSome g frame frames s (inr e) = record {
    done = frame ∷ [];
    rest = frames;
    whole = refl;
    gave = e;
  }

  one_more :
      (g : Given) (frame : AudioFrame) (frames : List AudioFrame) (s : SessionState env)
      → GaveSome (give frame.source frame.samples g) frames s
      → GaveSome g (frame ∷ frames) s
  one_more g frame frames s h = record {
    done = frame ∷ h.done;
    rest = h.rest;
    whole = ap (λ l. frame ∷ l) h.whole;
    gave = h.gave;
  }

  capture-gives :
      (stream : List (Result CaptureError AudioFrame)) (g : Given)
      → Ensures
          (GaveSome g (captured stream))
          (λ _ s. fed env s ≡ give_all (captured stream) g)
          (λ s. fed env s ≡ g)
          (capture env stream)
  unfolding capture
  capture-gives [] g = Ensures-pure none (λ s e. e)
  capture-gives (err e ∷ rest) g = Ensures-pure (some e) (λ s e. e)
  capture-gives (ok frame ∷ rest) g =
      Ensures-bind _ _
        (Ensures-mono (AtMost-GaveSome g frame (captured rest)) (λ _ s e. e)
          (take_frame-gives g frame))
        λ _.
          Ensures-mono (one_more g frame (captured rest)) (λ _ s e. e)
            (capture-gives rest (give frame.source frame.samples g))

  pub fed-stays :
      {A : Type 0} (K : Given → Type 0) (m : Session env A)
      → Unfed m
      → Ensures (λ s. K (fed env s)) (λ _ s. K (fed env s)) (λ s. K (fed env s)) m
  fed-stays K m k = record { at = λ s h. go (m s) (subst K (sym (k.same s)) h) }
    where
      go :
          {A : Type 0} (r : Result CoreError A × SessionState env)
          → K (fed env r.1)
          → Outcome (λ s. K (fed env s)) (λ _ s. K (fed env s)) r
      go (ok a, s) h = h
      go (err _, s) h = h

  pub all_given :
      (g : Given) (frames : List AudioFrame) (s : SessionState env)
      → fed env s ≡ give_all frames g
      → GaveSome g frames s
  all_given g frames s e = record { done = frames; rest = []; whole = append-nil frames; gave = e }

  pub run_capture-gives :
      (stream : List (Result CaptureError AudioFrame)) (g : Given)
      → Ensures
          (GaveSome g (captured stream))
          (λ _ s. fed env s ≡ give_all (captured stream) g)
          (λ s. fed env s ≡ g)
          (run_capture env stream)
  unfolding run_capture
  run_capture-gives stream g = Ensures-bind _ _ (capture-gives stream g) λ terminal.
      Ensures-bind _ _
        (Ensures-mono (all_given g (captured stream)) (λ _ s e. e)
          (fed-stays (λ x. x ≡ give_all (captured stream) g) (wind_up env) (wind_up-Unfed env)))
        λ _. Ensures-pure terminal (λ s e. e)
