-- ===== src/Store/Keeps.antt =====
-- What an invariant of the database has to withstand: each statement that src/registry/store.py and
-- src/health/state_machine.py execute. An invariant with these laws is kept by every operation.
pub mod Audit
pub mod Topology
pub mod Health
pub mod Access
use litellm_control_plane.Common.{ℕ, String, Option}
use litellm_control_plane.Models.{
  ℤ, Status, Override, Node, NodeUpdate, Provider, ProviderUpdate, Model, ModelUpdate, Account,
  Endpoint, Consumer, ConsumerUpdate, ConsumerKey, KeyStatus, PolicyProfile, PolicyProfileUpdate,
  Rollout, RolloutStatus, Incident, AuditEntry,
}
use litellm_control_plane.World.{Db, modify}
use litellm_control_plane.World.Keeps.{Keeps}
use litellm_control_plane.Audit.{insert_audit}
use litellm_control_plane.Store.Statements.{
  insert_node, delete_node_row, insert_provider, delete_provider_row, insert_model,
  delete_model_row, insert_account, delete_account_row, insert_endpoint, delete_endpoint_row,
  insert_consumer, delete_consumer_row, insert_consumer_key, insert_policy_profile,
  delete_policy_profile_row, insert_incident, insert_rollout,
}
use litellm_control_plane.Store.Nodes.{update_nodes, set_node_fields}
use litellm_control_plane.Store.Providers.{update_providers, set_provider_fields}
use litellm_control_plane.Store.Models.{update_models, set_model_fields}
use litellm_control_plane.Store.Accounts.{
  update_accounts, with_account_status, in_account_cooldown, count_account_failure,
  clear_account_failures,
}
use litellm_control_plane.Store.Endpoints.{
  update_endpoints, with_routing, write_endpoint_status, in_endpoint_cooldown,
  count_endpoint_failure, clear_endpoint_failures,
}
use litellm_control_plane.Store.Consumers.{update_consumer_row}
use litellm_control_plane.Store.ConsumerKeys.{
  update_consumer_key_rows, with_key_status, with_virtual_key, delete_consumer_key_rows,
}
use litellm_control_plane.Store.PolicyProfiles.{update_policy_profiles, set_profile_fields}
use litellm_control_plane.Store.Rollouts.{update_rollouts, with_rollout_status}

pub record KeepsStatements (P : Db → Type 0) : Type 0 where
  pub audit : (entry : AuditEntry) → Keeps P (modify (insert_audit entry))
  pub insert_node_law : (x : Node) → Keeps P (insert_node x)
  pub insert_provider_law : (x : Provider) → Keeps P (insert_provider x)
  pub insert_model_law : (x : Model) → Keeps P (insert_model x)
  pub insert_account_law : (x : Account) → Keeps P (insert_account x)
  pub insert_endpoint_law : (x : Endpoint) → Keeps P (insert_endpoint x)
  pub insert_consumer_law : (x : Consumer) → Keeps P (insert_consumer x)
  pub insert_consumer_key_law : (x : ConsumerKey) → Keeps P (insert_consumer_key x)
  pub insert_policy_profile_law : (x : PolicyProfile) → Keeps P (insert_policy_profile x)
  pub insert_incident_law : (x : Incident) → Keeps P (insert_incident x)
  pub insert_rollout_law : (x : Rollout) → Keeps P (insert_rollout x)
  pub delete_node_row_law : (id : String) → Keeps P (delete_node_row id)
  pub delete_provider_row_law : (id : String) → Keeps P (delete_provider_row id)
  pub delete_model_row_law : (id : String) → Keeps P (delete_model_row id)
  pub delete_account_row_law : (id : String) → Keeps P (delete_account_row id)
  pub delete_endpoint_row_law : (id : String) → Keeps P (delete_endpoint_row id)
  pub delete_consumer_row_law : (id : String) → Keeps P (delete_consumer_row id)
  pub delete_policy_profile_row_law : (id : String) → Keeps P (delete_policy_profile_row id)
  pub write_node :
      (id : String) (fields : NodeUpdate) → Keeps P (update_nodes id (set_node_fields fields))
  pub write_provider :
      (id : String) (fields : ProviderUpdate)
      → Keeps P (update_providers id (set_provider_fields fields))
  pub write_model :
      (id : String) (fields : ModelUpdate) → Keeps P (update_models id (set_model_fields fields))
  pub write_account :
      (id : String) (status : Status) → Keeps P (update_accounts id (with_account_status status))
  pub cool_account :
      (id : String) (until : ℕ) → Keeps P (update_accounts id (in_account_cooldown until))
  pub count_account : (id : String) → Keeps P (update_accounts id count_account_failure)
  pub clear_account : (id : String) → Keeps P (update_accounts id clear_account_failures)
  pub route_endpoint :
      (id : String) (priority weight : ℤ)
      → Keeps P (update_endpoints id (with_routing priority weight))
  pub write_endpoint :
      (id : String) (status : Status) (override : Override)
      → Keeps P (update_endpoints id (write_endpoint_status status override))
  pub cool_endpoint :
      (id : String) (until : ℕ) → Keeps P (update_endpoints id (in_endpoint_cooldown until))
  pub count_endpoint : (id : String) → Keeps P (update_endpoints id count_endpoint_failure)
  pub clear_endpoint : (id : String) → Keeps P (update_endpoints id clear_endpoint_failures)
  pub write_consumer :
      (id : String) (fields : ConsumerUpdate) → Keeps P (update_consumer_row id fields)
  pub write_key_status :
      (consumer_id node_id : String) (status : KeyStatus)
      → Keeps P (update_consumer_key_rows consumer_id node_id (with_key_status status))
  pub write_virtual_key :
      (consumer_id node_id key : String) (status : KeyStatus)
      → Keeps P (update_consumer_key_rows consumer_id node_id (with_virtual_key key status))
  pub delete_keys :
      (consumer_id node_id : String) → Keeps P (delete_consumer_key_rows consumer_id node_id)
  pub write_profile :
      (id : String) (fields : PolicyProfileUpdate)
      → Keeps P (update_policy_profiles id (set_profile_fields fields))
  pub write_rollout :
      (id : String) (status : RolloutStatus) (error : Option String)
      → Keeps P (update_rollouts id (with_rollout_status status error))
