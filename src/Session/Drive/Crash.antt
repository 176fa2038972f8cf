-- ===== src/Session/Drive/Crash.antt =====
-- A fresh streaming session, wherever it stops: what its disk says, and what a crash recovers.
use scrybe.Common.{
  ℕ, ◌≤◌, ◌≡◌, refl, sym, ap, ◌∙◌, ◌⊎◌, inl, inr, true, none, List, [], map, is_some, leb, lt-or-ge,
  arith,
}
use mathlib.Core.Path.{subst}
use mathlib.Core.List.{Perm, append-nil}
use mathlib.Core.List.Perm
use scrybe.Common.Action.{Result, Outcome, Outcome-mono}
use scrybe.Common.Counting.{count_if}
use scrybe.Common.Words.{u64_max}
use scrybe.Errors.{CaptureError}
use scrybe.Text.{Text}
use scrybe.Types.{AudioFrame}
use scrybe.Storage.TranscriptLog.{IsLineCodec, open_log, scan_recovery, contents}
use scrybe.Storage.TranscriptLog.Latest.{find_seq}
use scrybe.Session.AcceptedFinal
use scrybe.Session.AcceptedFinal.Conservation.{finals}
use scrybe.Session.State.{Env, SessionState}
use scrybe.Session.View.{view}
use scrybe.Session.Drive.{capture, run_capture}
use scrybe.Session.Drive.Account.{capture-Keeping, run_capture-Decided}
use scrybe.Session.Ledger.{IsLedger, IsTorn, IsSettled, entry_of}
use scrybe.Session.Ledger.Run.{Holding}
use scrybe.Session.Ledger.Recovery.{has_number, scan_recovery-undecided}

-- the state of a session whose transcript has only its header
pub record IsFresh (env : Env) (header : Text) (s : SessionState env) : Type 0 where
  pub header_only : s.transcript ≡ header
  pub no_log : s.live.wal ≡ open_log env.codec none
  pub no_finals : s.boundary ≡ AcceptedFinal.new

fresh-Holding :
    (env : Env) (c : IsLineCodec env.codec) (header : Text) (s : SessionState env)
    → IsFresh env header s
    → Holding env c header [] [] s
unfolding open_log
fresh-Holding env c header s f = record {
  records = [];
  whole = ap (λ log. contents log.file) f.no_log;
  numbered = inr (record { once = λ q. omega arith; fresh = λ q h. refl; marked = tt });
  settled = subst (λ b. Perm [] (map entry_of (finals b.pending))) (sym f.no_finals) Perm.rfl;
  lines = f.header_only ∙ sym (append-nil header);
}

-- the account of a session, from its first frame on
pub run_capture-accounts :
    (env : Env) (header : Text) (stream : List (Result CaptureError AudioFrame))
    (s : SessionState env)
    → IsLineCodec env.codec
    → env.streams ≡ true
    → IsFresh env header s
    → Outcome
        (λ t. IsTorn env.codec header (view env t))
        (λ _ t. IsSettled env.codec header (view env t))
        (run_capture env stream s)
run_capture-accounts env header stream s c streams f =
    (run_capture-Decided env c header streams stream).at s (fresh-Holding env c header s f)

-- what a crash recovers: an orphan under just the numbers of the finals that the boundary holds
abbrev pub Recovers : (env : Env) → Text → SessionState env → Type 0
Recovers env header s =
    IsLedger env.codec header [] [] (view env s)
    × ((q : ℕ)
        → (u64_max ≤ s.live.wal.next_seq)
          ⊎ (is_some (find_seq q (scan_recovery env.codec s.live.wal.file).orphans)
              ≡ leb 1 (count_if (has_number q) (map entry_of (finals s.boundary.pending)))))

Holding-Recovers :
    (env : Env) (c : IsLineCodec env.codec) (header : Text) (s : SessionState env)
    → Holding env c header [] [] s
    → Recovers env header s
Holding-Recovers env c header s h = (
  h,
  λ q. elim (lt-or-ge s.live.wal.next_seq u64_max) [
    | inl low ↦ inr (scan_recovery-undecided env.codec c header [] [] (view env s) q h low)
    | inr high ↦ inl high
  ],
)

-- the account between two frames
pub capture-Recovers :
    (env : Env) (header : Text) (stream : List (Result CaptureError AudioFrame))
    (s : SessionState env)
    → IsLineCodec env.codec
    → env.streams ≡ true
    → IsFresh env header s
    → Outcome
        (λ t. IsTorn env.codec header (view env t))
        (λ _. Recovers env header)
        (capture env stream s)
capture-Recovers env header stream s c streams f =
    Outcome-mono _ (λ _ t. Holding-Recovers env c header t) (capture env stream s)
      ((capture-Keeping env c header streams stream).at s (fresh-Holding env c header s f))
