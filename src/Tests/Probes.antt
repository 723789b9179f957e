-- ===== src/Tests/Probes.antt =====
-- The statements on probes and configurations, at an endpoint in cooldown and an answering
-- provider.
use litellm_control_plane.Common.{true, false, none, some, List, ◌≡◌, refl, any, not}
use litellm_control_plane.Common.Text.{contains, contains_lower, decimal, has_prefix}
use litellm_control_plane.Table.{by, first, has, update}
use litellm_control_plane.Models.{Status, Override, Endpoint}
use litellm_control_plane.World.{World, returned, ◌>>=◌, modify, statement, utc_now, uuid_hex8}
use litellm_control_plane.Audit.{log_audit, insert_audit}
use litellm_control_plane.Store.Statements.{insert_incident}
use litellm_control_plane.Store.Incidents.{create_incident}
use litellm_control_plane.Store.Endpoints.{
  get_endpoint, update_endpoints, update_endpoint_status, write_endpoint_status,
}
use litellm_control_plane.Policy.{is_routable}
use litellm_control_plane.Health.StateMachine.{
  classify, is_auth_error, is_rate_limit, transition_endpoint_state, write_endpoint_state,
}
use litellm_control_plane.Health.StateMachine.Vocabulary.{endpoint_of, FreshId}
use litellm_control_plane.Health.Probe.{Upstream, key, response, probe_endpoint, pass_probe}
use litellm_control_plane.Health.Probe.Outcomes.{failed_probe-routable}
use litellm_control_plane.Health.Probe.Success.{InService, pass_probe-InService}
use litellm_control_plane.Config.Generator.{Secrets, is_excluded}
use litellm_control_plane.Config.Generator.Filter.{is_excluded-eq-not-is_routable}
use litellm_control_plane.Tests.Fixtures.{chat_model, account_in, endpoint_in, endpoint_world}

-- A key that works, and a provider that answers 500.
abbrev pub upstream_500 : Upstream
upstream_500 = record {
  resolve = λ w ref. key "sk-1";
  post = λ w r. response 500 "oops";
  error_text = λ e. "error";
}

abbrev cold : World
cold = endpoint_world Status.cooldown 0

failed_probe_example :
    let m = probe_endpoint upstream_500 "e1" "reconcile-worker" cold in
    (m.0 ≡ returned false)
    × (ep' : Endpoint) × (endpoint_of "e1" m.1.db ≡ some ep')
    × (ep'.status ≡ Status.probe)
    × (ep'.failure_count ≡ 1)
    × (is_routable Override.unset ep'.status Status.active ≡ true)
unfolding first by has any classify is_auth_error is_rate_limit contains contains_lower decimal
    has_prefix
failed_probe_example =
    failed_probe-routable upstream_500 "e1" "reconcile-worker" cold (endpoint_in Status.cooldown 0)
      (account_in Status.active 0) chat_model "sk-1" 500 "oops" refl refl refl refl refl refl refl
      refl (λ w r. refl) refl refl

later_id :
    FreshId
      (transition_endpoint_state "e1" Status.recovered "reconcile-worker" (some "ok") none cold).1
unfolding first by has any update transition_endpoint_state write_endpoint_state get_endpoint
    update_endpoints update_endpoint_status write_endpoint_status create_incident insert_incident
    statement modify utc_now uuid_hex8 log_audit insert_audit ◌>>=◌
later_id = refl

pass_probe_example :
    ((pass_probe upstream_500 "e1" "ok" "reconcile-worker" cold).0 ≡ returned true)
    × (ep' : Endpoint) × (endpoint_of "e1"
          (pass_probe upstream_500 "e1" "ok" "reconcile-worker" cold).1.db
        ≡ some ep')
    × InService ep'
unfolding first by has any
pass_probe_example =
    pass_probe-InService upstream_500 "e1" "ok" "reconcile-worker" cold
      (endpoint_in Status.cooldown 0) refl refl later_id

excluded_filter_example :
    is_excluded Override.force_active Status.degraded Status.cooldown
    ≡ not (is_routable Override.force_active Status.degraded Status.cooldown)
excluded_filter_example =
    is_excluded-eq-not-is_routable Override.force_active Status.degraded Status.cooldown

abbrev some_secrets : Secrets
some_secrets = record { resolve = λ w ref. some "sk-1"; api_base = λ w r t ref. none }
