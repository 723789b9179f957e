-- ===== src/Api/Operations.antt =====
-- The routes of health, events, the timeline and rollouts of src/api/routes.py.
use litellm_control_plane.Common.{ℕ, String, true, Option, none, some, List}
use litellm_control_plane.Models.{Account, Endpoint, Incident, AuditEntry, Rollout, DriftReport}
use litellm_control_plane.World.{
  Exec, Error, http_error, raise, ◌>>=◌, ◌>>◌, except_any, or_else, pure,
}
use litellm_control_plane.Store.Accounts.{get_account}
use litellm_control_plane.Store.Endpoints.{get_endpoint}
use litellm_control_plane.Store.Nodes.{get_node}
use litellm_control_plane.Store.Incidents.{list_incidents, list_audit_logs}
use litellm_control_plane.Store.Timeline.{Event, get_unified_timeline}
use litellm_control_plane.Store.Rollouts.{get_rollout, list_rollouts}
use litellm_control_plane.Health.Manager.{Summary, get_health_summary, get_incidents_list}
use litellm_control_plane.Events.Payload.{Fields}
use litellm_control_plane.Events.{Python, ingest_event_callback}
use litellm_control_plane.Orchestrator.{Site}
use litellm_control_plane.Orchestrator.Deploy.{deploy_config}
use litellm_control_plane.Orchestrator.Drift.{detect_drift}
use litellm_control_plane.Api.{found_or_404}

unfoldable pub list_audit_logs_route : ℕ → Exec (List AuditEntry)
list_audit_logs_route limit = list_audit_logs limit

unfoldable pub ingest_event_callback_route : Python → List Fields → Exec ℕ
ingest_event_callback_route python payload = ingest_event_callback python true payload

unfoldable pub health_summary_route : Exec Summary
health_summary_route = get_health_summary

unfoldable pub health_incidents_route :
    ℕ → (target_type target_id state_to : Option String) → Exec (List Incident)
health_incidents_route limit target_type target_id state_to =
    get_incidents_list limit target_type target_id state_to

unfoldable pub unified_timeline_route : ℕ → Exec (List Event)
unified_timeline_route limit = get_unified_timeline limit

unfoldable pub health_account_detail_route : String → Exec (Account × List Incident)
health_account_detail_route id = do
  found ← get_account id
  acc ← found_or_404 "Account not found" found
  incidents ← list_incidents 20 (some "account") (some id) none
  pure (acc, incidents)

unfoldable pub health_endpoint_detail_route : String → Exec (Endpoint × List Incident)
health_endpoint_detail_route id = do
  found ← get_endpoint id
  ep ← found_or_404 "Endpoint not found" found
  incidents ← list_incidents 20 (some "endpoint") (some id) none
  pure (ep, incidents)

-- `except Exception as e: raise HTTPException(400, detail=str(e))`; the text of the exception is not
-- kept.
abbrev pub failed_request : {A : Type 0} → Error → Exec A
failed_request e = raise (http_error 400 "The text of the exception")

unfoldable pub deploy_config_route :
    Site → (node_id config_filepath : String) → (timeout_sec : ℕ) → Exec Rollout
deploy_config_route site node_id config_filepath timeout_sec =
    except_any
      (do
        res ← deploy_config site node_id config_filepath timeout_sec
        rollout ← get_rollout res.rollout_id
        or_else rollout
            (raise (http_error 500 "Rollout record not found after successful deployment")) pure)
      failed_request

unfoldable pub list_rollout_history_route : String → Exec (List Rollout)
list_rollout_history_route node_id = do
  node ← get_node node_id
  found_or_404 "Node not found" node
  list_rollouts (some node_id)

unfoldable pub detect_drift_route : Site → (node_id config_filepath : String) → Exec DriftReport
detect_drift_route site node_id config_filepath =
    except_any (detect_drift site node_id config_filepath) failed_request
