-- ===== src/Session/Journals/Fed.antt =====
-- A frame is given to the writer of its channel, whether or not the manifest is written.
use scrybe.Common.{
  ℕ, arith, ◌≡◌, refl, sym, ap, ◌∙◌, ◌⊎◌, inl, inr, Option, none, some, List, [], ◌∷◌, ◌++◌,
}
use scrybe.Common.Action.{
  Result, ok, err, Outcome, Ensures, Ensures-bind, Ensures-pure, Ensures-if, Ensures-raise,
  Keeps-bind, ◌>>=◌,
}
use scrybe.Types.{AudioFrame, FrameSource, mic, system, mixed}
use scrybe.Pipeline.Journal.{JournalManifest}
use scrybe.Session.State.{Env, Session, SessionState, SessionJournals, JournalSlot}
use scrybe.Errors.{CoreError}
use scrybe.Session.Fed.{Given, fed, given, given_by, ask-Unfed, Unfed, unfed_rules}
use scrybe.Session.Journals.{
  journal_push, push_slot, feed_slot, feed, spawned, slot_for, set_slot, write_partial_manifest,
  finish_partial_manifest_write, join, write_manifest,
}

-- one more frame
abbrev pub give : FrameSource → List ℕ → Given → Given
give system samples g = record g { theirs = g.theirs ++ samples ∷ [] }
give mic samples g = record g { mine = g.mine ++ samples ∷ [] }
give mixed samples g = record g { mine = g.mine ++ samples ∷ [] }

abbrev pub channel : FrameSource → Given → List (List ℕ)
channel system g = g.theirs
channel mic g = g.mine
channel mixed g = g.mine

channel-given_by :
    (source : FrameSource) (j : SessionJournals)
    → channel source (given_by j) ≡ given (slot_for source j)
channel-given_by system j = refl
channel-given_by mic j = refl
channel-given_by mixed j = refl

give-set_slot :
    (source : FrameSource) (frame : AudioFrame) (slot : JournalSlot) (j : SessionJournals)
    → channel source (given_by j) ≡ slot.writer
    → given_by (set_slot source (feed frame slot) j) ≡ give source frame.samples (given_by j)
unfolding feed
give-set_slot system frame slot j h = cc
give-set_slot mic frame slot j h = cc
give-set_slot mixed frame slot j h = cc

module _ (env : Env) where
  write_manifest-Unfed : (m : JournalManifest) → Unfed (write_manifest env m)
  unfolding write_manifest
  write_manifest-Unfed m = record { same = λ s. ground arith }

  join-Unfed : (m : Option JournalManifest) → Unfed (join env m)
  unfolding join
  join-Unfed none = search unfed_rules
  join-Unfed (some m) = Keeps-bind _ _ (record { same = λ s. refl }) (λ _. write_manifest-Unfed m)

  write_partial_manifest-Unfed : Unfed (write_partial_manifest env)
  unfolding write_partial_manifest finish_partial_manifest_write
  write_partial_manifest-Unfed =
      Keeps-bind _ _ (search (unfed_rules, join-Unfed)) (λ _. record { same = λ s. refl })

module _ (env : Env) (g : Given) (frame : AudioFrame) where
  abbrev pub Before : SessionState env → Type 0
  Before s = fed env s ≡ g

  abbrev pub After : SessionState env → Type 0
  After s = fed env s ≡ give frame.source frame.samples g

  -- the frame was given, or not
  abbrev pub AtMost : SessionState env → Type 0
  AtMost s = Before s ⊎ After s

  feed_slot-gives :
      (slot : JournalSlot)
      → channel frame.source g ≡ slot.writer
      → Ensures AtMost (λ _. After) Before (feed_slot env frame slot)
  unfolding feed_slot
  feed_slot-gives slot h = record {
    at = λ s e.
        give-set_slot frame.source frame slot s.journals (ap (channel frame.source) e ∙ h)
        ∙ ap (give frame.source frame.samples) e;
  }

  pub Unfed-After : {A : Type 0} (m : Session env A) → Unfed m → Ensures AtMost (λ _. After) After m
  Unfed-After m k = record { at = λ s e. go (m s) (k.same s ∙ e) }
    where
      go :
          {A : Type 0} (r : Result CoreError A × SessionState env)
          → After r.1
          → Outcome AtMost (λ _. After) r
      go (ok a, s) e = e
      go (err _, s) e = inr e

  Unfed-Before : {A : Type 0} (m : Session env A) → Unfed m → Ensures AtMost (λ _. Before) Before m
  Unfed-Before m k = record { at = λ s e. go (m s) (k.same s ∙ e) }
    where
      go :
          {A : Type 0} (r : Result CoreError A × SessionState env)
          → Before r.1
          → Outcome AtMost (λ _. Before) r
      go (ok a, s) e = e
      go (err _, s) e = inl e

  push_slot-gives :
      (o : Option JournalSlot)
      → channel frame.source g ≡ given o
      → Ensures AtMost (λ _. After) Before (push_slot env frame o)
  unfolding push_slot
  push_slot-gives (some slot) h = feed_slot-gives slot h
  push_slot-gives none h = Ensures-bind _ _ (Unfed-Before _ (ask-Unfed env.spawns)) λ started.
      Ensures-bind _ _
        (Ensures-if started _ _ (λ _. Ensures-pure tt (λ s e. e))
          (λ _. Ensures-raise _ (λ s e. inl e)))
        λ _. Ensures-bind _ _ (Unfed-Before _ (ask-Unfed env.now_ms)) λ epoch_ms.
          Ensures-bind _ _ (feed_slot-gives (spawned epoch_ms frame) (unfold spawned in h))
            λ _. Unfed-After _ (write_partial_manifest-Unfed env)

  pub journal_push-gives : Ensures AtMost (λ _. After) Before (journal_push env frame)
  unfolding journal_push ◌>>=◌
  journal_push-gives = record {
    at = λ s e.
        (push_slot-gives (slot_for frame.source s.journals)
            (ap (channel frame.source) (sym e) ∙ channel-given_by frame.source s.journals)).at
          s e;
  }
