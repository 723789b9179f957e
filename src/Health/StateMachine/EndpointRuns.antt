-- ===== src/Health/StateMachine/EndpointRuns.antt =====
-- The failures and the successes of one endpoint, in a sequence.
use litellm_control_plane.Common.{
  ℕ, suc, String, Option, some, List, [], ◌∷◌, ◌≡◌, ◌≢◌, refl, ◌∙◌, ap,
}
use litellm_control_plane.Models.{Endpoint}
use litellm_control_plane.World.{World, returned, Exec, pure, ◌>>=◌, ◌>>◌}
use litellm_control_plane.Health.StateMachine.{
  classify, handle_endpoint_failure, handle_endpoint_success,
}
use litellm_control_plane.Health.StateMachine.Signals.{
  reason_of, success_reason, Signal, failed, succeeded, signal_raw,
}
use litellm_control_plane.Health.StateMachine.Vocabulary.{endpoint_of, FreshId}
use litellm_control_plane.Health.StateMachine.EndpointSignals.{
  EndpointSignal, failed_endpoint, succeeded_in, handle_endpoint_failure_lem,
  handle_endpoint_success_lem,
}

unfoldable pub signal_endpoint : String → Signal → Exec (Unit {0})
signal_endpoint id (failed code message actor raw) =
    handle_endpoint_failure id code message actor raw
signal_endpoint id (succeeded actor) = handle_endpoint_success id actor

unfoldable pub signal_all : String → List Signal → Exec (Unit {0})
unfolding pure ◌>>=◌
signal_all id [] = pure tt
signal_all id (s ∷ ss) = signal_endpoint id s >> signal_all id ss

-- Each signal finds a new incident id.
abbrev pub FreshRun : String → List Signal → World → Type 0
FreshRun id [] w = Unit
FreshRun id (s ∷ ss) w = FreshId w × FreshRun id ss (signal_endpoint id s w).1

unfoldable pub signalled : Signal → ℕ → Endpoint → Endpoint
unfolding failed_endpoint succeeded_in
signalled (failed code message actor raw) now ep = failed_endpoint (classify code message) now ep
signalled (succeeded actor) now ep = succeeded_in ep.status actor now ep

-- The tables, applied in turn.
unfoldable pub endpoint_after : String → List Signal → World → Endpoint → Endpoint
endpoint_after id [] w ep = ep
endpoint_after id (s ∷ ss) w ep =
    endpoint_after id ss (signal_endpoint id s w).1 (signalled s (w.clock (suc w.readings)) ep)

signal_reason : Signal → Endpoint → Option String
signal_reason (failed code message actor raw) ep =
    reason_of (classify code message) code (suc ep.failure_count) message
signal_reason (succeeded actor) ep = success_reason ep.status

signal_endpoint_lem :
    (id : String) (s : Signal) (w : World) (ep : Endpoint)
    → endpoint_of id w.db ≡ some ep
    → FreshId w
    → EndpointSignal id
        (signal_reason s ep)
        (signal_raw s)
        w
        ep
        (signalled s (w.clock (suc w.readings)) ep)
        (signal_endpoint id s)
unfolding signalled signal_endpoint signal_reason signal_raw
signal_endpoint_lem id (failed code message actor raw) w ep found fresh =
    handle_endpoint_failure_lem id w ep found code message actor raw fresh
signal_endpoint_lem id (succeeded actor) w ep found fresh =
    handle_endpoint_success_lem id w ep found actor fresh

-- What holds of the world after a run.
pub record EndpointRun (id : String) (w : World) (ep : Endpoint) (m : Exec (Unit {0}))
    : Type 0 where
  pub returns : (m w).0 ≡ returned tt
  pub moved : endpoint_of id (m w).1.db ≡ some ep
  pub others : (j : String) → j ≢ id → endpoint_of j (m w).1.db ≡ endpoint_of j w.db
  pub accounts_kept : (m w).1.accounts ≡ w.accounts

pub signal_all_endpoint_lem :
    (id : String) (ss : List Signal) (w : World) (ep : Endpoint)
    → endpoint_of id w.db ≡ some ep
    → FreshRun id ss w
    → EndpointRun id w (endpoint_after id ss w ep) (signal_all id ss)
unfolding signal_all endpoint_after pure ◌>>=◌
signal_all_endpoint_lem id [] w ep found fresh = record {
  returns = refl;
  moved = found;
  others = λ j ne. refl;
  accounts_kept = refl;
}
signal_all_endpoint_lem id (s ∷ ss) w ep found (fresh, later) =
    let one = signal_endpoint_lem id s w ep found fresh in
    let returned_tt : (signal_endpoint id s w).0 ≡ returned tt = ap (λ p. p.0) one.returns in
    let next : World = (signal_endpoint id s w).1 in
    let same : next ≡ one.after = ap (λ p. p.1) one.returns in
    let rest =
      signal_all_endpoint_lem id ss next (signalled s (w.clock (suc w.readings)) ep)
        (rw same one.step.moved) later in
    record {
      returns = rw returned_tt rest.returns;
      moved = rw returned_tt rest.moved;
      others = λ j ne. rw returned_tt (rest.others j ne ∙ (rw same (one.step.others j ne)));
      accounts_kept = rw returned_tt (rest.accounts_kept ∙ (rw same one.step.accounts_kept));
    }
