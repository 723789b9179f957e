-- ===== src/Health/Probe/Success.antt =====
-- What a probe that passes does to an endpoint.
use litellm_control_plane.Common.{ℕ, suc, String, true, none, some, ◌≡◌, refl, ap}
use litellm_control_plane.Models.{Status, Endpoint}
use litellm_control_plane.World.{World, returned, ◌>>=◌}
use litellm_control_plane.Store.Endpoints.{write_endpoint_status}
use litellm_control_plane.Health.StateMachine.{transition_endpoint_state}
use litellm_control_plane.Health.StateMachine.Vocabulary.{endpoint_of, FreshId, moved_endpoint}
use litellm_control_plane.Health.StateMachine.EndpointSteps.{
  to_endpoint_state, to_endpoint_state-status, transition_endpoint-step,
}
use litellm_control_plane.Health.StateMachine.EndpointSignals.{
  succeeded_in, handle_endpoint_success_lem, signal_returns, signal_moves,
}
use litellm_control_plane.Health.Probe.{Upstream, pass_probe}

-- An endpoint in full service again.
pub record InService (ep : Endpoint) : Type 0 where
  pub active : ep.status ≡ Status.active
  pub warm : ep.cooldown_until ≡ none
  pub no_failures : ep.failure_count ≡ 0

success-InService :
    (actor : String) (now : ℕ) (ep : Endpoint)
    → ep.status ≡ Status.recovered
    → InService (succeeded_in ep.status actor now ep)
unfolding succeeded_in to_endpoint_state moved_endpoint write_endpoint_status
success-InService actor now ep h = rw h (record { active = refl; warm = refl; no_failures = refl })

-- A probe that passes, of an endpoint that is there, in whatever state, where both transitions find
-- a new incident id: it answers `true`, and the endpoint is active, without a cooldown and without
-- failures.
pub pass_probe-InService :
    (upstream : Upstream) (id reason actor : String) (w : World) (ep : Endpoint)
    → endpoint_of id w.db ≡ some ep
    → FreshId w
    → FreshId (transition_endpoint_state id Status.recovered actor (some reason) none w).1
    → ((pass_probe upstream id reason actor w).0 ≡ returned true)
      × (ep' : Endpoint) × (endpoint_of id (pass_probe upstream id reason actor w).1.db ≡ some ep')
      × InService ep'
unfolding pass_probe ◌>>=◌
pass_probe-InService upstream id reason actor w ep found fresh later =
    let now : ℕ = w.clock (suc w.readings) in
    let (after, (eq, step)) =
      transition_endpoint-step id w ep found Status.recovered actor (some reason) none fresh in
    let mid : World =
      (transition_endpoint_state id Status.recovered actor (some reason) none w).1 in
    let same : mid ≡ after = ap (λ p. p.1) eq in
    let back = to_endpoint_state Status.recovered now ep in
    let s = handle_endpoint_success_lem id mid back (rw same step.moved) actor later in
    let done : (transition_endpoint_state id Status.recovered actor (some reason) none w).0
        ≡ returned (some back) =
      ap (λ p. p.0) eq in
    rw done (
      rw (signal_returns s) (
        refl,
        _,
        signal_moves s,
        success-InService actor (mid.clock (suc mid.readings)) back
            (to_endpoint_state-status Status.recovered now ep),
      ))
