-- ===== src/Health/StateMachine/AccountRuns.antt =====
-- The failures and the successes of one account, in a sequence.
use litellm_control_plane.Common.{
  ℕ, suc, String, Option, some, List, [], ◌∷◌, ◌≡◌, ◌≢◌, refl, ◌∙◌, ap,
}
use litellm_control_plane.Models.{Account}
use litellm_control_plane.World.{World, returned, Exec, pure, ◌>>=◌, ◌>>◌}
use litellm_control_plane.Health.StateMachine.{
  classify, handle_account_failure, handle_account_success,
}
use litellm_control_plane.Health.StateMachine.Signals.{
  reason_of, success_reason, Signal, failed, succeeded, signal_raw,
}
use litellm_control_plane.Health.StateMachine.Vocabulary.{account_of, FreshId}
use litellm_control_plane.Health.StateMachine.AccountSignals.{
  AccountSignal, failed_account, succeeded_in, handle_account_failure_lem,
  handle_account_success_lem,
}

unfoldable pub signal_account : String → Signal → Exec (Unit {0})
signal_account id (failed code message actor raw) = handle_account_failure id code message actor raw
signal_account id (succeeded actor) = handle_account_success id actor

unfoldable pub signal_all : String → List Signal → Exec (Unit {0})
unfolding pure ◌>>=◌
signal_all id [] = pure tt
signal_all id (s ∷ ss) = signal_account id s >> signal_all id ss

-- Each signal finds a new incident id.
abbrev pub FreshRun : String → List Signal → World → Type 0
FreshRun id [] w = Unit
FreshRun id (s ∷ ss) w = FreshId w × FreshRun id ss (signal_account id s w).1

unfoldable pub signalled : Signal → ℕ → Account → Account
unfolding failed_account succeeded_in
signalled (failed code message actor raw) now a = failed_account (classify code message) now a
signalled (succeeded actor) now a = succeeded_in a.status actor now a

-- The tables, applied in turn.
unfoldable pub account_after : String → List Signal → World → Account → Account
account_after id [] w a = a
account_after id (s ∷ ss) w a =
    account_after id ss (signal_account id s w).1 (signalled s (w.clock (suc w.readings)) a)

signal_reason : Signal → Account → Option String
signal_reason (failed code message actor raw) a =
    reason_of (classify code message) code (suc a.failure_count) message
signal_reason (succeeded actor) a = success_reason a.status

signal_account_lem :
    (id : String) (s : Signal) (w : World) (a : Account)
    → account_of id w.db ≡ some a
    → FreshId w
    → AccountSignal id
        (signal_reason s a)
        (signal_raw s)
        w
        a
        (signalled s (w.clock (suc w.readings)) a)
        (signal_account id s)
unfolding signalled signal_account signal_reason signal_raw
signal_account_lem id (failed code message actor raw) w a found fresh =
    handle_account_failure_lem id w a found code message actor raw fresh
signal_account_lem id (succeeded actor) w a found fresh =
    handle_account_success_lem id w a found actor fresh

-- What holds of the world after a run.
pub record AccountRun (id : String) (w : World) (a : Account) (m : Exec (Unit {0})) : Type 0 where
  pub returns : (m w).0 ≡ returned tt
  pub moved : account_of id (m w).1.db ≡ some a
  pub others : (j : String) → j ≢ id → account_of j (m w).1.db ≡ account_of j w.db
  pub endpoints_kept : (m w).1.endpoints ≡ w.endpoints

pub signal_all_lem :
    (id : String) (ss : List Signal) (w : World) (a : Account)
    → account_of id w.db ≡ some a
    → FreshRun id ss w
    → AccountRun id w (account_after id ss w a) (signal_all id ss)
unfolding signal_all account_after pure ◌>>=◌
signal_all_lem id [] w a found fresh = record {
  returns = refl;
  moved = found;
  others = λ j ne. refl;
  endpoints_kept = refl;
}
signal_all_lem id (s ∷ ss) w a found (fresh, later) =
    let one = signal_account_lem id s w a found fresh in
    let returned_tt : (signal_account id s w).0 ≡ returned tt = ap (λ p. p.0) one.returns in
    let next : World = (signal_account id s w).1 in
    let same : next ≡ one.after = ap (λ p. p.1) one.returns in
    let rest =
      signal_all_lem id ss next (signalled s (w.clock (suc w.readings)) a) (rw same one.step.moved)
        later in
    record {
      returns = rw returned_tt rest.returns;
      moved = rw returned_tt rest.moved;
      others = λ j ne. rw returned_tt (rest.others j ne ∙ (rw same (one.step.others j ne)));
      endpoints_kept = rw returned_tt (rest.endpoints_kept ∙ (rw same one.step.endpoints_kept));
    }
