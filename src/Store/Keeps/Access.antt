-- ===== src/Store/Keeps/Access.antt =====
-- An invariant that every statement keeps is kept by every operation on consumers, keys, profiles,
-- incidents and rollouts of src/registry/store.py, whether it returns or raises.
use litellm_control_plane.Common.{String, Option}
use litellm_control_plane.Models.{
  Status, Consumer, ConsumerUpdate, ConsumerKey, KeyStatus, PolicyProfile, PolicyProfileUpdate,
  RolloutStatus,
}
use litellm_control_plane.World.{Db}
use litellm_control_plane.World.Keeps.{Keeps, keeps_rules}
use litellm_control_plane.Store.Keeps.{KeepsStatements}
use litellm_control_plane.Store.Keeps.Audit.{log_audit-Keeps}
use litellm_control_plane.Store.Consumers.{
  get_consumer, create_consumer, delete_consumer, update_consumer,
}
use litellm_control_plane.Store.ConsumerKeys.{
  get_consumer_key, create_consumer_key, update_consumer_key_status, update_consumer_key,
  delete_consumer_key,
}
use litellm_control_plane.Store.PolicyProfiles.{
  get_policy_profile, create_policy_profile, update_policy_profile, count_consumers_of,
  reject_if_referenced, delete_policy_profile,
}
use litellm_control_plane.Store.Incidents.{create_incident}
use litellm_control_plane.Store.Rollouts.{get_rollout, create_rollout, update_rollout_status}

module _ {P : Db → Type 0} (s : KeepsStatements P) where
  pub create_consumer-Keeps :
      (consumer : Consumer) (actor : String) (reason : Option String)
      → Keeps P (create_consumer consumer actor reason)
  unfolding create_consumer get_consumer
  create_consumer-Keeps consumer actor reason =
      search (keeps_rules, s.insert_consumer_law, log_audit-Keeps s) depth 20

  pub update_consumer-Keeps :
      (id : String) (fields : ConsumerUpdate) (actor : String) (reason : Option String)
      → Keeps P (update_consumer id fields actor reason)
  unfolding update_consumer get_consumer
  update_consumer-Keeps id fields actor reason =
      search (keeps_rules, s.write_consumer, log_audit-Keeps s) depth 20

  pub delete_consumer-Keeps :
      (id actor : String) (reason : Option String) → Keeps P (delete_consumer id actor reason)
  unfolding delete_consumer get_consumer
  delete_consumer-Keeps id actor reason =
      search (keeps_rules, s.delete_consumer_row_law, log_audit-Keeps s) depth 20

  pub create_policy_profile-Keeps :
      (profile : PolicyProfile) (actor : String) (reason : Option String)
      → Keeps P (create_policy_profile profile actor reason)
  unfolding create_policy_profile get_policy_profile
  create_policy_profile-Keeps profile actor reason =
      search (keeps_rules, s.insert_policy_profile_law, log_audit-Keeps s) depth 20

  pub update_policy_profile-Keeps :
      (id : String) (fields : PolicyProfileUpdate) (actor : String) (reason : Option String)
      → Keeps P (update_policy_profile id fields actor reason)
  unfolding update_policy_profile get_policy_profile
  update_policy_profile-Keeps id fields actor reason =
      search (keeps_rules, s.write_profile, log_audit-Keeps s) depth 20

  pub delete_policy_profile-Keeps :
      (id actor : String) (reason : Option String) → Keeps P (delete_policy_profile id actor reason)
  unfolding delete_policy_profile get_policy_profile count_consumers_of reject_if_referenced
  delete_policy_profile-Keeps id actor reason =
      search (keeps_rules, s.delete_policy_profile_row_law, log_audit-Keeps s) depth 20

  pub create_incident-Keeps :
      (target_type target_id : String) (from to : Status) (reason raw : Option String)
      → Keeps P (create_incident target_type target_id from to reason raw)
  unfolding create_incident
  create_incident-Keeps target_type target_id from to reason raw =
      search (keeps_rules, s.insert_incident_law) depth 20

  pub create_rollout-Keeps :
      (rollout_id node_id version : String) (status : RolloutStatus) (content : String)
      (error : Option String)
      → Keeps P (create_rollout rollout_id node_id version status content error)
  unfolding create_rollout get_rollout
  create_rollout-Keeps rollout_id node_id version status content error =
      search (keeps_rules, s.insert_rollout_law) depth 20

  pub update_rollout_status-Keeps :
      (rollout_id : String) (status : RolloutStatus) (error : Option String)
      → Keeps P (update_rollout_status rollout_id status error)
  unfolding update_rollout_status get_rollout
  update_rollout_status-Keeps rollout_id status error =
      search (keeps_rules, s.write_rollout) depth 20

  pub create_consumer_key-Keeps :
      (key : ConsumerKey) (actor : String) (reason : Option String)
      → Keeps P (create_consumer_key key actor reason)
  unfolding create_consumer_key get_consumer_key
  create_consumer_key-Keeps key actor reason =
      search (keeps_rules, s.insert_consumer_key_law, log_audit-Keeps s) depth 20

  pub update_consumer_key_status-Keeps :
      (consumer_id node_id : String) (status : KeyStatus) (actor : String) (reason : Option String)
      → Keeps P (update_consumer_key_status consumer_id node_id status actor reason)
  unfolding update_consumer_key_status get_consumer_key
  update_consumer_key_status-Keeps consumer_id node_id status actor reason =
      search (keeps_rules, s.write_key_status, log_audit-Keeps s) depth 20

  pub update_consumer_key-Keeps :
      (consumer_id node_id key : String) (status : KeyStatus) (actor : String)
      (reason : Option String)
      → Keeps P (update_consumer_key consumer_id node_id key status actor reason)
  unfolding update_consumer_key get_consumer_key
  update_consumer_key-Keeps consumer_id node_id key status actor reason =
      search (keeps_rules, s.write_virtual_key, log_audit-Keeps s) depth 20

  pub delete_consumer_key-Keeps :
      (consumer_id node_id actor : String) (reason : Option String)
      → Keeps P (delete_consumer_key consumer_id node_id actor reason)
  unfolding delete_consumer_key get_consumer_key
  delete_consumer_key-Keeps consumer_id node_id actor reason =
      search (keeps_rules, s.delete_keys, log_audit-Keeps s) depth 20
