-- ===== src/Health/StateMachine/AccountEdges.antt =====
-- Failures and successes move an account along the diagram of the states.
use litellm_control_plane.Common.{
  ℕ, suc, String, List, [], ◌∷◌, ◌≡◌, refl, ◌==◌, leb, ltb, Bool-cases, inl, inr, some,
}
use litellm_control_plane.Models.{Status, Account}
use litellm_control_plane.World.{World, returned}
use litellm_control_plane.Store.Accounts.{count_account_failure, clear_account_failures}
use litellm_control_plane.Health.StateMachine.{
  Failure, auth, rate_limit, other, classify, failure_threshold,
}
use litellm_control_plane.Health.StateMachine.Vocabulary.{account_of}
use litellm_control_plane.Health.StateMachine.Signals.{Signal, failed, succeeded}
use litellm_control_plane.Health.StateMachine.Edges.{Edge, Reaches, IsReserved, Reaches-IsReserved}
use litellm_control_plane.Health.StateMachine.AccountSteps.{to_account_state-status}
use litellm_control_plane.Health.StateMachine.AccountSignals.{failed_account, succeeded_in}
use litellm_control_plane.Health.StateMachine.AccountRuns.{
  signal_all, FreshRun, signalled, account_after, signal_all_lem,
}

failed-Edge : (f : Failure) (now : ℕ) (a : Account) → Edge a.status (failed_account f now a).status
unfolding failed_account
failed-Edge auth now a = Edge.auth_failed (to_account_state-status Status.disabled now a)
failed-Edge rate_limit now a = Edge.rate_limited (to_account_state-status Status.cooldown now a)
failed-Edge other now a = elim (Bool-cases (leb failure_threshold (suc a.failure_count))) [
  | inl high ↦
      rw high
        (Edge.worn_out (to_account_state-status Status.degraded now (count_account_failure a)))
  | inr low ↦ rw low (Edge.stays (unfold count_account_failure in refl))
]

succeeded-Edge :
    (s : Status) (actor : String) (now : ℕ) (a : Account)
    → a.status ≡ s
    → Edge a.status (succeeded_in s actor now a).status
unfolding succeeded_in
succeeded-Edge Status.probe actor now a h = elim (Bool-cases (actor == "probe")) [
  | inl probe ↦ rw probe (Edge.proven h (to_account_state-status Status.active now a))
  | inr straggler ↦ rw straggler (Edge.stays refl)
]
succeeded-Edge Status.degraded actor now a h =
    Edge.cured h (to_account_state-status Status.active now a)
succeeded-Edge Status.recovered actor now a h =
    Edge.settled h (to_account_state-status Status.active now a)
succeeded-Edge Status.active actor now a h = elim (Bool-cases (ltb 0 a.failure_count)) [
  | inl some_failures ↦ rw some_failures (Edge.stays (unfold clear_account_failures in refl))
  | inr no_failures ↦ rw no_failures (Edge.stays refl)
]
succeeded-Edge _ actor now a h = Edge.stays refl

signalled-Edge : (s : Signal) (now : ℕ) (a : Account) → Edge a.status (signalled s now a).status
unfolding signalled
signalled-Edge (failed code message actor raw) now a = failed-Edge (classify code message) now a
signalled-Edge (succeeded actor) now a = succeeded-Edge a.status actor now a refl

account_after-Reaches :
    (id : String) (ss : List Signal) (w : World) (a : Account)
    → Reaches a.status (account_after id ss w a).status
unfolding account_after
account_after-Reaches id [] w a = Reaches.done _ _ refl
account_after-Reaches id (s ∷ ss) w a =
    Reaches.step _ _ _ (signalled-Edge s (w.clock (suc w.readings)) a)
      (account_after-Reaches id ss _ _)

-- Any sequence of failures and successes, each with a new incident id: every handler returns, the
-- account goes along the edges of the diagram, and it is in `probe`, `recovered` or `inactive`
-- afterwards only if it was there before.
pub account_signals-Reaches :
    (id : String) (ss : List Signal) (w : World) (a : Account)
    → account_of id w.db ≡ some a
    → FreshRun id ss w
    → ((signal_all id ss w).0 ≡ returned tt)
      × (a' : Account) × (account_of id (signal_all id ss w).1.db ≡ some a')
      × Reaches a.status a'.status
      × (IsReserved a'.status → a'.status ≡ a.status)
account_signals-Reaches id ss w a found fresh =
    let run = signal_all_lem id ss w a found fresh in
    let path = account_after-Reaches id ss w a in
    (run.returns, account_after id ss w a, run.moved, path, Reaches-IsReserved _ _ path)
