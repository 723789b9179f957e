-- ===== src/Store/Timeline.antt =====
-- `get_unified_timeline` of src/registry/store.py.
use litellm_control_plane.Common.{ℕ, String, Option, none, List, ◌++◌, map}
use litellm_control_plane.Common.Text.{concat, decimal}
use litellm_control_plane.Table.Sort.{newest}
use litellm_control_plane.Models.{Status, RolloutStatus, Rollout, Incident, AuditEntry, Changes}
use litellm_control_plane.World.{Exec, pure, gets, ◌>>=◌}
use litellm_control_plane.Store.Incidents.{list_incidents, list_audit_logs}

pub data Details : Type 0 where
  audit : Changes → Option String → Details
  incident : (state_from state_to : Status) → (reason raw_response : Option String) → Details
  rollout : String → RolloutStatus → Option String → Details

pub record Event : Type 0 where
  pub event_type : String
  pub id : String
  pub timestamp : ℕ
  pub actor : String
  pub action : String
  pub target_type : String
  pub target_id : String
  pub details : Details

unfoldable pub audit_event : AuditEntry → Event
audit_event log = record {
  event_type = "audit";
  id = decimal log.id;
  timestamp = log.timestamp;
  actor = log.actor;
  action = log.action;
  target_type = log.target_type;
  target_id = log.target_id;
  details = Details.audit log.changes log.reason;
}

unfoldable pub incident_event : Incident → Event
incident_event inc = record {
  event_type = "incident";
  id = inc.id;
  timestamp = inc.timestamp;
  actor = "system";
  action = "state_transition";
  target_type = inc.target_type;
  target_id = inc.target_id;
  details = Details.incident inc.state_from inc.state_to inc.reason inc.raw_response;
}

abbrev pub rollout_status_text : RolloutStatus → String
rollout_status_text RolloutStatus.pending = "pending"
rollout_status_text RolloutStatus.applying = "applying"
rollout_status_text RolloutStatus.success = "success"
rollout_status_text RolloutStatus.failed = "failed"
rollout_status_text RolloutStatus.rolled_back = "rolled_back"

unfoldable pub rollout_event : Rollout → Event
rollout_event r = record {
  event_type = "rollout";
  id = r.id;
  timestamp = r.timestamp;
  actor = "rollout-orchestrator";
  action = concat "deploy_" (rollout_status_text r.status);
  target_type = "node";
  target_id = r.node_id;
  details = Details.rollout r.config_version r.status r.error_message;
}

unfoldable pub get_unified_timeline : ℕ → Exec (List Event)
get_unified_timeline limit = do
  logs ← list_audit_logs limit
  incidents ← list_incidents limit none none none
  rollouts ← gets λ d. newest (λ r. r.timestamp) limit d.rollouts
  pure (
      newest (λ e. e.timestamp) limit
        ((map audit_event logs ++ map incident_event incidents) ++ map rollout_event rollouts))
