-- ===== src/Store/Consistency/Writes.antt =====
-- The writes of `Store` keep the constraints: the rows that they write have the same keys.
use litellm_control_plane.Common.{ℕ, String, false, Option, none, some, List, ◌≡◌, refl}
use litellm_control_plane.Table.{by}
use litellm_control_plane.Table.References.{
  Distinct-update, Refers-update_parent, OptionRefers-update_child, HasOption,
}
use litellm_control_plane.Common.{ℕ, String, Option}
use litellm_control_plane.Models.{
  ℤ, Status, Override, NodeUpdate, ProviderUpdate, ModelUpdate, Account, Endpoint, Consumer,
  ConsumerUpdate, KeyStatus, PolicyProfile, PolicyProfileUpdate, RolloutStatus, AuditEntry,
}
use litellm_control_plane.World.{modify}
use litellm_control_plane.World.Keeps.{Keeps}
use litellm_control_plane.Audit.{insert_audit}
use litellm_control_plane.Store.Nodes.{update_nodes, set_node_fields}
use litellm_control_plane.Store.Providers.{update_providers, set_provider_fields}
use litellm_control_plane.Store.Models.{update_models, set_model_fields}
use litellm_control_plane.Store.Accounts.{
  update_accounts, with_account_status, in_account_cooldown, count_account_failure,
  clear_account_failures,
}
use litellm_control_plane.Store.Endpoints.{
  update_endpoints, with_routing, write_endpoint_status, in_endpoint_cooldown,
  count_endpoint_failure, clear_endpoint_failures,
}
use litellm_control_plane.Store.Consumers.{update_consumer_row}
use litellm_control_plane.Store.ConsumerKeys.{
  update_consumer_key_rows, with_key_status, with_virtual_key,
}
use litellm_control_plane.Store.PolicyProfiles.{update_policy_profiles, set_profile_fields}
use litellm_control_plane.Store.Rollouts.{update_rollouts, with_rollout_status}
use litellm_control_plane.World.Keeps.{Keeps-statement, Keeps-modify}
use litellm_control_plane.Store.Statements.{dangling}
use litellm_control_plane.Store.Consumers.{set_consumer_fields, given_or}
use litellm_control_plane.Store.Keeps.{KeepsStatements}
use litellm_control_plane.Store.Consistency.{IsConsistent}
use litellm_control_plane.Store.Consistency.Rows
use litellm_control_plane.Store.Consistency.Updates

write_node-Keeps :
    (id : String) (fields : NodeUpdate)
    → Keeps IsConsistent (update_nodes id (set_node_fields fields))
write_node-Keeps id fields =
    Updates.update_nodes-Keeps id (set_node_fields fields) (λ x. unfold set_node_fields in refl)

write_provider-Keeps :
    (id : String) (fields : ProviderUpdate)
    → Keeps IsConsistent (update_providers id (set_provider_fields fields))
write_provider-Keeps id fields =
    Updates.update_providers-Keeps id (set_provider_fields fields)
      (λ x. unfold set_provider_fields in refl)

write_model-Keeps :
    (id : String) (fields : ModelUpdate)
    → Keeps IsConsistent (update_models id (set_model_fields fields))
write_model-Keeps id fields =
    Updates.update_models-Keeps id (set_model_fields fields) (λ x. unfold set_model_fields in refl)

with_account_status-keys :
    (status : Status) (a : Account)
    → ((with_account_status status a).id ≡ a.id)
      × ((with_account_status status a).provider_id ≡ a.provider_id)
unfolding with_account_status
with_account_status-keys Status.active a = (refl, refl)
with_account_status-keys _ a = (refl, refl)

write_account-Keeps :
    (id : String) (status : Status)
    → Keeps IsConsistent (update_accounts id (with_account_status status))
write_account-Keeps id status =
    Updates.update_accounts-Keeps id (with_account_status status) (with_account_status-keys status)

cool_account-Keeps :
    (id : String) (until : ℕ) → Keeps IsConsistent (update_accounts id (in_account_cooldown until))
cool_account-Keeps id until =
    Updates.update_accounts-Keeps id (in_account_cooldown until)
      (λ x. unfold in_account_cooldown in (refl, refl))

count_account-Keeps : (id : String) → Keeps IsConsistent (update_accounts id count_account_failure)
count_account-Keeps id =
    Updates.update_accounts-Keeps id count_account_failure
      (λ x. unfold count_account_failure in (refl, refl))

write_endpoint_status-keys :
    (status : Status) (override : Override) (e : Endpoint)
    → ((write_endpoint_status status override e).id ≡ e.id)
      × ((write_endpoint_status status override e).node_id ≡ e.node_id)
      × ((write_endpoint_status status override e).account_id ≡ e.account_id)
      × ((write_endpoint_status status override e).model_id ≡ e.model_id)
unfolding write_endpoint_status
write_endpoint_status-keys Status.active override e = (refl, refl, refl, refl)
write_endpoint_status-keys _ override e = (refl, refl, refl, refl)

write_status-Keeps :
    (id : String) (status : Status) (override : Override)
    → Keeps IsConsistent (update_endpoints id (write_endpoint_status status override))
unfolding update_endpoints
write_status-Keeps id status override =
    Updates.update_endpoints-Keeps id (write_endpoint_status status override)
      (write_endpoint_status-keys status override)

cool_endpoint-Keeps :
    (id : String) (until : ℕ)
    → Keeps IsConsistent (update_endpoints id (in_endpoint_cooldown until))
cool_endpoint-Keeps id until =
    Updates.update_endpoints-Keeps id (in_endpoint_cooldown until)
      (λ x. unfold in_endpoint_cooldown in (refl, refl, refl, refl))

count_endpoint-Keeps :
    (id : String) → Keeps IsConsistent (update_endpoints id count_endpoint_failure)
count_endpoint-Keeps id =
    Updates.update_endpoints-Keeps id count_endpoint_failure
      (λ x. unfold count_endpoint_failure in (refl, refl, refl, refl))

-- The profile of an updated consumer is the given one, which is there, or its own.
set_consumer_fields-profile :
    (u : ConsumerUpdate) (c : Consumer) (profiles : List PolicyProfile)
    → dangling u.profile_id profiles ≡ false
    → HasOption (λ p. p.id) c.profile_id profiles
    → HasOption (λ p. p.id) (set_consumer_fields u c).profile_id profiles
unfolding set_consumer_fields
set_consumer_fields-profile u c profiles there own =
    choose u.profile_id (Rows.dangling-false u.profile_id profiles there)
  where
    choose :
        (k : Option String)
        → HasOption (λ p. p.id) k profiles
        → HasOption (λ p. p.id) (given_or k c.profile_id) profiles
    choose none h = own
    choose (some k) h = h

update_consumer_row-Keeps :
    (id : String) (fields : ConsumerUpdate) → Keeps IsConsistent (update_consumer_row id fields)
unfolding update_consumer_row
update_consumer_row-Keeps id fields = Keeps-statement _ _ λ d there h. assumption (
  Distinct-update (λ c. c.id) (by (λ c. c.id) id) (set_consumer_fields fields) d.consumers
      (λ c. unfold set_consumer_fields in refl) h.consumer_ids,
  Refers-update_parent (λ k. k.consumer_id) (λ c. c.id) (by (λ c. c.id) id)
      (set_consumer_fields fields) d.consumer_keys d.consumers
      (λ c. unfold set_consumer_fields in refl) h.key_consumers,
  OptionRefers-update_child (λ c. c.profile_id) (λ p. p.id) (by (λ c. c.id) id)
      (set_consumer_fields fields) d.consumers d.policy_profiles
      (λ c own. set_consumer_fields-profile fields c d.policy_profiles there own)
      h.consumer_profiles,
)

write_profile-Keeps :
    (id : String) (fields : PolicyProfileUpdate)
    → Keeps IsConsistent (update_policy_profiles id (set_profile_fields fields))
write_profile-Keeps id fields =
    Updates.update_policy_profiles-Keeps id (set_profile_fields fields)
      (λ x. unfold set_profile_fields in refl)

write_key_status-Keeps :
    (consumer_id node_id : String) (status : KeyStatus)
    → Keeps IsConsistent (update_consumer_key_rows consumer_id node_id (with_key_status status))
write_key_status-Keeps consumer_id node_id status =
    Updates.update_consumer_keys-Keeps consumer_id node_id (with_key_status status)
      (λ x. unfold with_key_status in (refl, refl))

write_virtual_key-Keeps :
    (consumer_id node_id key : String) (status : KeyStatus)
    → Keeps IsConsistent
        (update_consumer_key_rows consumer_id node_id (with_virtual_key key status))
write_virtual_key-Keeps consumer_id node_id key status =
    Updates.update_consumer_keys-Keeps consumer_id node_id (with_virtual_key key status)
      (λ x. unfold with_virtual_key in (refl, refl))

clear_account-Keeps : (id : String) → Keeps IsConsistent (update_accounts id clear_account_failures)
clear_account-Keeps id =
    Updates.update_accounts-Keeps id clear_account_failures
      (λ x. unfold clear_account_failures in (refl, refl))

clear_endpoint-Keeps :
    (id : String) → Keeps IsConsistent (update_endpoints id clear_endpoint_failures)
clear_endpoint-Keeps id =
    Updates.update_endpoints-Keeps id clear_endpoint_failures
      (λ x. unfold clear_endpoint_failures in (refl, refl, refl, refl))

route_endpoint-Keeps :
    (id : String) (priority weight : ℤ)
    → Keeps IsConsistent (update_endpoints id (with_routing priority weight))
route_endpoint-Keeps id priority weight =
    Updates.update_endpoints-Keeps id (with_routing priority weight)
      (λ x. unfold with_routing in (refl, refl, refl, refl))

write_rollout-Keeps :
    (id : String) (status : RolloutStatus) (error : Option String)
    → Keeps IsConsistent (update_rollouts id (with_rollout_status status error))
write_rollout-Keeps id status error =
    Updates.update_rollouts-Keeps id (with_rollout_status status error)
      (λ x. unfold with_rollout_status in (refl, refl))

insert_audit-Keeps : (entry : AuditEntry) → Keeps IsConsistent (modify (insert_audit entry))
unfolding insert_audit
insert_audit-Keeps entry = Keeps-modify _ λ d h. assumption h

-- Every statement keeps the constraints of the schema.
pub IsConsistent-statements : KeepsStatements IsConsistent
IsConsistent-statements = record {
  audit = insert_audit-Keeps;
  insert_node_law = Rows.insert_node-Keeps;
  insert_provider_law = Rows.insert_provider-Keeps;
  insert_model_law = Rows.insert_model-Keeps;
  insert_account_law = Rows.insert_account-Keeps;
  insert_endpoint_law = Rows.insert_endpoint-Keeps;
  insert_consumer_law = Rows.insert_consumer-Keeps;
  insert_consumer_key_law = Rows.insert_consumer_key-Keeps;
  insert_policy_profile_law = Rows.insert_policy_profile-Keeps;
  insert_incident_law = Rows.insert_incident-Keeps;
  insert_rollout_law = Rows.insert_rollout-Keeps;
  delete_node_row_law = Rows.delete_node_row-Keeps;
  delete_provider_row_law = Rows.delete_provider_row-Keeps;
  delete_model_row_law = Rows.delete_model_row-Keeps;
  delete_account_row_law = Rows.delete_account_row-Keeps;
  delete_endpoint_row_law = Rows.delete_endpoint_row-Keeps;
  delete_consumer_row_law = Rows.delete_consumer_row-Keeps;
  delete_policy_profile_row_law = Rows.delete_policy_profile_row-Keeps;
  write_node = write_node-Keeps;
  write_provider = write_provider-Keeps;
  write_model = write_model-Keeps;
  write_account = write_account-Keeps;
  cool_account = cool_account-Keeps;
  count_account = count_account-Keeps;
  clear_account = clear_account-Keeps;
  route_endpoint = route_endpoint-Keeps;
  write_endpoint = write_status-Keeps;
  cool_endpoint = cool_endpoint-Keeps;
  count_endpoint = count_endpoint-Keeps;
  clear_endpoint = clear_endpoint-Keeps;
  write_consumer = update_consumer_row-Keeps;
  write_key_status = write_key_status-Keeps;
  write_virtual_key = write_virtual_key-Keeps;
  delete_keys = Updates.delete_consumer_keys-Keeps;
  write_profile = write_profile-Keeps;
  write_rollout = write_rollout-Keeps;
}
