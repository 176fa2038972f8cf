-- ===== src/Session/Drive/Returns.antt =====
-- A session in batch mode returns: what the outside grants and frames of one format for each channel
-- leave nothing that ends it early.
use scrybe.Common.{
  ◌≡◌, refl, sym, ap, ◌∷◌, Option, none, some, List, [], ◌++◌, All, All-append, if◌then◌else◌,
}
use mathlib.Core.Path.{subst}
use scrybe.Common.Action.{
  Action, Result, ok, err, Outcome, Ensures, Ensures-bind, Ensures-pure, pure,
}
use scrybe.Errors.{CaptureError, CoreError}
use scrybe.Types.{AudioFrame, FrameSource, mic, system, mixed}
use scrybe.Pipeline.Chunker
use scrybe.Pipeline.Chunker.{EmittedChunk}
use scrybe.Pipeline.Chunker.Pending.{finish-Keeps}
use scrybe.Session.State.{Env, SessionState}
use scrybe.Session.State.Returns.{Grants, Never, Returns}
use scrybe.Session.Batch.Returns.{Format, IsFormed}
use scrybe.Session.Drive.{
  finish_system, finish_mic, finish_chunkers, flush_sources, finish_boundary, wind_up, take_frame,
  capture, run_capture,
}
use scrybe.Session.Drive.Going.{
  Formed, HoldsSystem, IsWellFormed, Pending, IsPending, Going, release-Going, AllOne,
  emitted-AllOne, Emitting, processing, capture-Going,
}

module _ (env : Env) (grants : Grants env) (format : FrameSource → Format)
    (as_mic : format mixed ≡ format mic) where
  finish_mic-Emitting : (Emitting env grants format as_mic) (finish_mic env)
  unfolding finish_mic
  finish_mic-Emitting = record {
    at = λ s k.
        let (h, e) = finish-Keeps env.listening (Formed env format mic) s.mic_chunker k.mine in
        (record { mine = h; theirs = k.theirs }, (emitted-AllOne env grants format as_mic) mic _ e);
  }

  finish_system-Emitting :
      (o : Option (Chunker.Chunker env.listening))
      → Ensures
          (Never env)
          (λ chunks s.
            IsPending env grants format as_mic s × (AllOne env grants format as_mic) chunks)
          (λ s. IsPending env grants format as_mic s × (s.system_chunker ≡ o))
          (finish_system env o)
  unfolding finish_system
  finish_system-Emitting none = record { at = λ s k. (k.0, tt) }
  finish_system-Emitting (some c) = record {
    at = λ s k.
        let (h, e) =
          finish-Keeps env.listening (Formed env format system) c
            (subst (HoldsSystem env format) k.1 k.0.theirs) in
        (
          record { mine = k.0.mine; theirs = h },
          (emitted-AllOne env grants format as_mic) system _ e,
        );
  }

  theirs-Emitting :
      (mine : List EmittedChunk) (o : Option (Chunker.Chunker env.listening))
      → Ensures
          (Never env)
          (λ chunks s.
            (IsPending env grants format as_mic s × (AllOne env grants format as_mic) chunks)
            × (AllOne env grants format as_mic) mine)
          (λ s.
            (IsPending env grants format as_mic s × (AllOne env grants format as_mic) mine)
            × (s.system_chunker ≡ o))
          (finish_system env o)
  theirs-Emitting mine o = record {
    at = λ s k.
        both mine k.0.1 (finish_system env o s) ((finish_system-Emitting o).at s (k.0.0, k.1));
  }
    where
      both :
          (mine : List EmittedChunk)
          → AllOne env grants format as_mic mine
          → (r : Result CoreError (List EmittedChunk) × SessionState env)
          → Outcome
              (Never env)
              (λ chunks s.
                IsPending env grants format as_mic s × (AllOne env grants format as_mic) chunks)
              r
          → Outcome
              (Never env)
              (λ chunks s.
                (IsPending env grants format as_mic s × (AllOne env grants format as_mic) chunks)
                × (AllOne env grants format as_mic) mine)
              r
      both mine a (ok chunks, s) k = (k, a)
      both mine a (err e, s) k = k

  finish_chunkers-Emitting : (Emitting env grants format as_mic) (finish_chunkers env)
  unfolding finish_chunkers
  finish_chunkers-Emitting = Ensures-bind _ _ finish_mic-Emitting λ mine.
      Ensures-bind
        {Q = λ o s.
          (IsPending env grants format as_mic s × (AllOne env grants format as_mic) mine)
          × (s.system_chunker ≡ o)}
        _ _ (record { at = λ s k. (k, refl) })
        λ o. Ensures-bind _ _ (theirs-Emitting mine o) λ theirs.
          Ensures-pure (mine ++ theirs) (λ s k. (k.0.0, All-append _ mine theirs k.1 k.0.1))

  wind_up-Going : (Going env grants format as_mic) (wind_up env)
  unfolding wind_up finish_boundary
  wind_up-Going =
      Ensures-bind {Q = λ _. IsPending env grants format as_mic} _ _
        (subst (λ b. Going env grants format as_mic (if b then flush_sources env else pure tt))
          (sym grants.batch) (Ensures-pure tt (λ s k. k)))
        λ _. Ensures-bind _ _ finish_chunkers-Emitting λ tail.
          Ensures-bind
            {Q = λ _ s.
              IsPending env grants format as_mic s × (AllOne env grants format as_mic) tail}
            _ _ (record { at = λ s k. k })
            λ _. Ensures-bind _ _ (processing env grants format as_mic tail) λ _.
              Ensures-bind {Q = λ _. IsPending env grants format as_mic} _ _
                (record { at = λ s k. k })
                λ remaining. release-Going env grants format as_mic remaining

  run_capture-Going :
      (stream : List (Result CaptureError AudioFrame))
      → All (IsWellFormed env format) stream
      → Returns env (Pending env grants format as_mic) (run_capture env stream)
  unfolding run_capture
  run_capture-Going stream h =
      Ensures-bind _ _ (capture-Going env grants format as_mic stream h)
        λ terminal. Ensures-bind _ _ wind_up-Going λ _. Ensures-pure terminal (λ s k. k)

-- a chunker that holds no frame, or none
abbrev pub NoneHeld : (env : Env) → Option (Chunker.Chunker env.listening) → Type 0
NoneHeld env none = Unit
NoneHeld env (some c) = c.pending ≡ []

NoneHeld-HoldsSystem :
    (env : Env) (format : FrameSource → Format) (o : Option (Chunker.Chunker env.listening))
    → NoneHeld env o
    → HoldsSystem env format o
NoneHeld-HoldsSystem env format none h = tt
NoneHeld-HoldsSystem env format (some c) h = subst (All (IsFormed (format system))) (sym h) tt

-- a fact that does not speak of the state stays
unchanged :
    {S A E : Type 0} {F : Type 0} (m : Action S E A) → Ensures (λ _. Unit) (λ _ _. F) (λ _. F) m
unchanged {S} {A} {E} {F} m = record { at = λ s f. go (m s) f }
  where
    go : (r : Result E A × S) → F → Outcome (λ _. Unit) (λ _ _. F) r
    go (ok a, s) f = f
    go (err e, s) f = tt

never_fails :
    {S A E : Type 0} (Q T : A → S → Type 0) (r : Result E A × S)
    → Outcome (λ s. ⊥) Q r
    → Outcome (λ s. Unit) T r
    → Outcome (λ s. ⊥) T r
never_fails Q T (ok a, s) k t = t
never_fails Q T (err e, s) k t = k

pub returned :
    {S A E : Type 0} (x : A) (r : Result E A × S) → Outcome (λ s. ⊥) (λ a _. a ≡ x) r → r.0 ≡ ok x
returned x (ok a, s) k = ap ok k
returned x (err e, s) k = absurd k

-- what the stream ends with before its list does
abbrev pub first_error : List (Result CaptureError AudioFrame) → Option CaptureError
first_error [] = none
first_error (err e ∷ rest) = some e
first_error (ok _ ∷ rest) = first_error rest

capture-first_error :
    (env : Env) (stream : List (Result CaptureError AudioFrame))
    → Ensures (λ _. Unit) (λ a _. a ≡ first_error stream) (λ _. Unit) (capture env stream)
unfolding capture
capture-first_error env [] = Ensures-pure none (λ s k. refl)
capture-first_error env (err e ∷ rest) = Ensures-pure (some e) (λ s k. refl)
capture-first_error env (ok frame ∷ rest) =
    Ensures-bind _ _ (unchanged (take_frame env frame)) (λ _. capture-first_error env rest)

run_capture-first_error :
    (env : Env) (stream : List (Result CaptureError AudioFrame))
    → Ensures (λ _. Unit) (λ a _. a ≡ first_error stream) (λ _. Unit) (run_capture env stream)
unfolding run_capture
run_capture-first_error env stream = Ensures-bind _ _ (capture-first_error env stream) λ terminal.
    Ensures-bind {Q = λ _ _. terminal ≡ first_error stream} _ _ (unchanged (wind_up env))
      λ _. Ensures-pure terminal (λ s k. k)

-- a session whose chunkers hold no frame yet
pub run_capture-returns :
    (env : Env) (format : FrameSource → Format) (stream : List (Result CaptureError AudioFrame))
    (grants : Grants env) (as_mic : format mixed ≡ format mic)
    → All (IsWellFormed env format) stream
    → Ensures
        (Never env)
        (λ a _. a ≡ first_error stream)
        (λ s. (s.mic_chunker.pending ≡ []) × NoneHeld env s.system_chunker)
        (run_capture env stream)
run_capture-returns env format stream grants as_mic h = record {
  at = λ s (mine, theirs).
      never_fails _ _ (run_capture env stream s)
        ((run_capture-Going env grants format as_mic stream h).at s (record {
          mine = subst (All (IsFormed (format mic))) (sym mine) tt;
          theirs = NoneHeld-HoldsSystem env format _ theirs;
        }))
        ((run_capture-first_error env stream).at s tt);
}
