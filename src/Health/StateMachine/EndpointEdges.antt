-- ===== src/Health/StateMachine/EndpointEdges.antt =====
-- Failures and successes move an endpoint along the diagram of the states.
use litellm_control_plane.Common.{
  ℕ, suc, String, List, [], ◌∷◌, ◌≡◌, refl, ◌==◌, leb, ltb, Bool-cases, inl, inr, some,
}
use litellm_control_plane.Models.{Status, Endpoint}
use litellm_control_plane.World.{World, returned}
use litellm_control_plane.Store.Endpoints.{count_endpoint_failure, clear_endpoint_failures}
use litellm_control_plane.Health.StateMachine.{
  Failure, auth, rate_limit, other, classify, failure_threshold,
}
use litellm_control_plane.Health.StateMachine.Vocabulary.{endpoint_of}
use litellm_control_plane.Health.StateMachine.Signals.{Signal, failed, succeeded}
use litellm_control_plane.Health.StateMachine.Edges.{Edge, Reaches, IsReserved, Reaches-IsReserved}
use litellm_control_plane.Health.StateMachine.EndpointSteps.{to_endpoint_state-status}
use litellm_control_plane.Health.StateMachine.EndpointSignals.{failed_endpoint, succeeded_in}
use litellm_control_plane.Health.StateMachine.EndpointRuns.{
  signal_all, FreshRun, signalled, endpoint_after, signal_all_endpoint_lem,
}

failed-Edge :
    (f : Failure) (now : ℕ) (ep : Endpoint) → Edge ep.status (failed_endpoint f now ep).status
unfolding failed_endpoint
failed-Edge auth now ep = Edge.auth_failed (to_endpoint_state-status Status.disabled now ep)
failed-Edge rate_limit now ep = Edge.rate_limited (to_endpoint_state-status Status.cooldown now ep)
failed-Edge other now ep = elim (Bool-cases (leb failure_threshold (suc ep.failure_count))) [
  | inl high ↦
      rw high
        (Edge.worn_out (to_endpoint_state-status Status.degraded now (count_endpoint_failure ep)))
  | inr low ↦ rw low (Edge.stays (unfold count_endpoint_failure in refl))
]

succeeded-Edge :
    (s : Status) (actor : String) (now : ℕ) (ep : Endpoint)
    → ep.status ≡ s
    → Edge ep.status (succeeded_in s actor now ep).status
unfolding succeeded_in
succeeded-Edge Status.probe actor now ep h = elim (Bool-cases (actor == "probe")) [
  | inl probe ↦ rw probe (Edge.proven h (to_endpoint_state-status Status.active now ep))
  | inr straggler ↦ rw straggler (Edge.stays refl)
]
succeeded-Edge Status.degraded actor now ep h =
    Edge.cured h (to_endpoint_state-status Status.active now ep)
succeeded-Edge Status.recovered actor now ep h =
    Edge.settled h (to_endpoint_state-status Status.active now ep)
succeeded-Edge Status.active actor now ep h = elim (Bool-cases (ltb 0 ep.failure_count)) [
  | inl some_failures ↦ rw some_failures (Edge.stays (unfold clear_endpoint_failures in refl))
  | inr no_failures ↦ rw no_failures (Edge.stays refl)
]
succeeded-Edge _ actor now ep h = Edge.stays refl

signalled-Edge : (s : Signal) (now : ℕ) (ep : Endpoint) → Edge ep.status (signalled s now ep).status
unfolding signalled
signalled-Edge (failed code message actor raw) now ep = failed-Edge (classify code message) now ep
signalled-Edge (succeeded actor) now ep = succeeded-Edge ep.status actor now ep refl

endpoint_after-Reaches :
    (id : String) (ss : List Signal) (w : World) (ep : Endpoint)
    → Reaches ep.status (endpoint_after id ss w ep).status
unfolding endpoint_after
endpoint_after-Reaches id [] w ep = Reaches.done _ _ refl
endpoint_after-Reaches id (s ∷ ss) w ep =
    Reaches.step _ _ _ (signalled-Edge s (w.clock (suc w.readings)) ep)
      (endpoint_after-Reaches id ss _ _)

-- Any sequence of failures and successes, each with a new incident id: every handler returns, the
-- endpoint goes along the edges of the diagram, and it is in `probe`, `recovered` or `inactive`
-- afterwards only if it was there before.
pub endpoint_signals-Reaches :
    (id : String) (ss : List Signal) (w : World) (ep : Endpoint)
    → endpoint_of id w.db ≡ some ep
    → FreshRun id ss w
    → ((signal_all id ss w).0 ≡ returned tt)
      × (ep' : Endpoint) × (endpoint_of id (signal_all id ss w).1.db ≡ some ep')
      × Reaches ep.status ep'.status
      × (IsReserved ep'.status → ep'.status ≡ ep.status)
endpoint_signals-Reaches id ss w ep found fresh =
    let run = signal_all_endpoint_lem id ss w ep found fresh in
    let path = endpoint_after-Reaches id ss w ep in
    (run.returns, endpoint_after id ss w ep, run.moved, path, Reaches-IsReserved _ _ path)
