-- ===== src/Tests/Endpoints.antt =====
-- The statements on endpoints, at one endpoint.
use litellm_control_plane.Common.{ℕ, none, some, [], ◌∷◌, ◌≡◌, refl, inl, any}
use litellm_control_plane.Common.Text.{contains, contains_lower}
use litellm_control_plane.Table.{by, first, has, update}
use litellm_control_plane.Models.{Status, Endpoint}
use litellm_control_plane.World.{returned, ◌>>=◌, modify, statement, utc_now, uuid_hex8}
use litellm_control_plane.Audit.{log_audit, insert_audit}
use litellm_control_plane.Store.Statements.{insert_incident}
use litellm_control_plane.Store.Incidents.{create_incident}
use litellm_control_plane.Store.Endpoints.{
  get_endpoint, update_endpoints, increment_endpoint_failure, count_endpoint_failure,
  update_endpoint_status, write_endpoint_status,
}
use litellm_control_plane.Health.StateMachine.{
  other, classify, is_auth_error, is_rate_limit, transition_endpoint_state, handle_endpoint_failure,
  handle_endpoint_success, fail_endpoint, degrade_endpoint, write_endpoint_state, succeed_endpoint,
}
use litellm_control_plane.Health.StateMachine.Vocabulary.{endpoint_of, FreshId}
use litellm_control_plane.Health.StateMachine.Signals.{Signal, kind, failed, successes, reason_of}
use litellm_control_plane.Health.StateMachine.EndpointSignals.{
  EndpointSignal, failed_endpoint, handle_endpoint_failure_lem,
}
use litellm_control_plane.Health.StateMachine.EndpointRuns.{signal_endpoint, signal_all, FreshRun}
use litellm_control_plane.Health.StateMachine.EndpointThreshold.{endpoint_failures-degrade}
use litellm_control_plane.Health.StateMachine.EndpointCooldown.{
  CoolsDown, endpoint_rate_limit-CoolsDown, endpoint_success-keeps_excluded,
}
use litellm_control_plane.Health.StateMachine.Edges.{Reaches, IsReserved}
use litellm_control_plane.Health.StateMachine.EndpointEdges.{endpoint_signals-Reaches}
use litellm_control_plane.Tests.Fixtures.{endpoint_in, endpoint_world}

there :
    (status : Status) (n : ℕ)
    → endpoint_of "e1" (endpoint_world status n).db ≡ some (endpoint_in status n)
unfolding first by
there status n = refl

new_id : (status : Status) (n : ℕ) → FreshId (endpoint_world status n)
unfolding has any
new_id status n = refl

endpoint_failure_example :
    EndpointSignal "e1"
      (reason_of (classify 500 "boom") 500 3 "boom")
      none
      (endpoint_world Status.active 2)
      (endpoint_in Status.active 2)
      (failed_endpoint (classify 500 "boom") 1 (endpoint_in Status.active 2))
      (handle_endpoint_failure "e1" 500 "boom" "proxy" none)
endpoint_failure_example =
    handle_endpoint_failure_lem "e1" (endpoint_world Status.active 2) (endpoint_in Status.active 2)
      (there Status.active 2) 500 "boom" "proxy" none (new_id Status.active 2)

abbrev boom : Signal
boom = failed 500 "boom" "proxy" none

boom-kind : kind boom ≡ some other
unfolding kind classify is_auth_error is_rate_limit contains contains_lower
boom-kind = refl

booms-FreshRun : FreshRun "e1" (boom ∷ boom ∷ boom ∷ []) (endpoint_world Status.active 0)
unfolding has any first update by signal_endpoint handle_endpoint_failure classify is_auth_error
    is_rate_limit contains contains_lower fail_endpoint degrade_endpoint increment_endpoint_failure
    count_endpoint_failure update_endpoints modify get_endpoint ◌>>=◌ transition_endpoint_state
    create_incident insert_incident statement utc_now uuid_hex8 write_endpoint_state
    update_endpoint_status write_endpoint_status log_audit insert_audit handle_endpoint_success
    succeed_endpoint
booms-FreshRun = (refl, (refl, (refl, tt)))

endpoint_threshold_example :
    let m = signal_all "e1" (boom ∷ boom ∷ boom ∷ []) (endpoint_world Status.active 0) in
    (m.0 ≡ returned tt)
    × (e' : Endpoint) × (endpoint_of "e1" m.1.db ≡ some e')
    × (e'.failure_count ≡ 3)
    × (e'.status ≡ Status.degraded)
endpoint_threshold_example =
    endpoint_failures-degrade "e1" (boom ∷ boom ∷ boom ∷ []) (endpoint_world Status.active 0)
      (endpoint_in Status.active 0) (there Status.active 0) refl refl
      (boom-kind, (boom-kind, (boom-kind, tt))) booms-FreshRun

endpoint_rate_limit_example :
    let m = handle_endpoint_failure "e1" 429 "slow" "proxy" none (endpoint_world Status.active 1) in
    (m.0 ≡ returned tt)
    × (e' : Endpoint) × (endpoint_of "e1" m.1.db ≡ some e')
    × CoolsDown 1 (endpoint_in Status.active 1) e'
unfolding is_auth_error is_rate_limit contains_lower contains
endpoint_rate_limit_example =
    endpoint_rate_limit-CoolsDown "e1" (endpoint_world Status.active 1)
      (endpoint_in Status.active 1) 429 "slow" "proxy" none (there Status.active 1)
      (new_id Status.active 1) refl refl

endpoint_excluded_example :
    signal_all "e1" (successes ("proxy" ∷ "probe" ∷ [])) (endpoint_world Status.cooldown 0)
    ≡ (returned tt, endpoint_world Status.cooldown 0)
endpoint_excluded_example =
    endpoint_success-keeps_excluded "e1" ("proxy" ∷ "probe" ∷ []) (endpoint_world Status.cooldown 0)
      (endpoint_in Status.cooldown 0) (there Status.cooldown 0) (inl refl)

endpoint_run_example :
    let m = signal_all "e1" (boom ∷ boom ∷ boom ∷ []) (endpoint_world Status.active 0) in
    (m.0 ≡ returned tt)
    × (e' : Endpoint) × (endpoint_of "e1" m.1.db ≡ some e')
    × Reaches Status.active e'.status
    × (IsReserved e'.status → e'.status ≡ Status.active)
endpoint_run_example =
    endpoint_signals-Reaches "e1" (boom ∷ boom ∷ boom ∷ []) (endpoint_world Status.active 0)
      (endpoint_in Status.active 0) (there Status.active 0) booms-FreshRun
