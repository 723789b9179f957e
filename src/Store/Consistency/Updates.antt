-- ===== src/Store/Consistency/Updates.antt =====
-- The updates of `Store` keep the constraints, since they leave the keys alone.
use litellm_control_plane.Common.{String, ◌≡◌}
use litellm_control_plane.Table.{by}
use litellm_control_plane.Table.References.{
  Distinct-update, Refers-update_child, Refers-update_parent, Refers-delete_child,
  OptionRefers-update_parent,
}
use litellm_control_plane.Models.{
  Node, Provider, Model, Account, Endpoint, ConsumerKey, PolicyProfile, Rollout,
}
use litellm_control_plane.World.Keeps.{Keeps, Keeps-modify}
use litellm_control_plane.Table.Pairs.{DistinctBy-update, DistinctBy-delete}
use litellm_control_plane.Store.Statements.{by_pair}
use litellm_control_plane.Store.ConsumerKeys.{update_consumer_key_rows, delete_consumer_key_rows}
use litellm_control_plane.Store.Nodes.{update_nodes}
use litellm_control_plane.Store.Providers.{update_providers}
use litellm_control_plane.Store.Models.{update_models}
use litellm_control_plane.Store.Accounts.{update_accounts}
use litellm_control_plane.Store.Endpoints.{update_endpoints}
use litellm_control_plane.Store.PolicyProfiles.{update_policy_profiles}
use litellm_control_plane.Store.Rollouts.{update_rollouts}
use litellm_control_plane.Store.Consistency.{IsConsistent}

-- An update of nodes that leaves their keys alone.
pub update_nodes-Keeps :
    (id : String) (f : Node → Node)
    → ((x : Node) → ((f x).id ≡ x.id))
    → Keeps IsConsistent (update_nodes id f)
unfolding update_nodes
update_nodes-Keeps id f keep = Keeps-modify _ λ d h. assumption (
  Distinct-update (λ x. x.id) (by (λ x. x.id) id) f d.nodes keep h.node_ids,
  Refers-update_parent (λ x. x.node_id) (λ x. x.id) (by (λ x. x.id) id) f d.endpoints d.nodes keep
      h.endpoint_nodes,
  Refers-update_parent (λ x. x.node_id) (λ x. x.id) (by (λ x. x.id) id) f d.consumer_keys d.nodes
      keep h.key_nodes,
  Refers-update_parent (λ x. x.node_id) (λ x. x.id) (by (λ x. x.id) id) f d.rollouts d.nodes keep
      h.rollout_nodes,
)

-- An update of providers that leaves their keys alone.
pub update_providers-Keeps :
    (id : String) (f : Provider → Provider)
    → ((x : Provider) → ((f x).id ≡ x.id))
    → Keeps IsConsistent (update_providers id f)
unfolding update_providers
update_providers-Keeps id f keep = Keeps-modify _ λ d h. assumption (
  Distinct-update (λ x. x.id) (by (λ x. x.id) id) f d.providers keep h.provider_ids,
  Refers-update_parent (λ x. x.provider_id) (λ x. x.id) (by (λ x. x.id) id) f d.accounts d.providers
      keep h.account_providers,
)

-- An update of models that leaves their keys alone.
pub update_models-Keeps :
    (id : String) (f : Model → Model)
    → ((x : Model) → ((f x).id ≡ x.id))
    → Keeps IsConsistent (update_models id f)
unfolding update_models
update_models-Keeps id f keep = Keeps-modify _ λ d h. assumption (
  Distinct-update (λ x. x.id) (by (λ x. x.id) id) f d.models keep h.model_ids,
  Refers-update_parent (λ x. x.model_id) (λ x. x.id) (by (λ x. x.id) id) f d.endpoints d.models keep
      h.endpoint_models,
)

-- An update of accounts that leaves their keys alone.
pub update_accounts-Keeps :
    (id : String) (f : Account → Account)
    → ((x : Account) → ((f x).id ≡ x.id) × ((f x).provider_id ≡ x.provider_id))
    → Keeps IsConsistent (update_accounts id f)
unfolding update_accounts
update_accounts-Keeps id f keep = Keeps-modify _ λ d h. assumption (
  Distinct-update (λ x. x.id) (by (λ x. x.id) id) f d.accounts (λ x. (keep x).0) h.account_ids,
  Refers-update_parent (λ x. x.account_id) (λ x. x.id) (by (λ x. x.id) id) f d.endpoints d.accounts
      (λ x. (keep x).0) h.endpoint_accounts,
  Refers-update_child (λ x. x.provider_id) (λ x. x.id) (by (λ x. x.id) id) f d.accounts d.providers
      (λ x. (keep x).1) h.account_providers,
)

-- An update of endpoints that leaves their keys alone.
pub update_endpoints-Keeps :
    (id : String) (f : Endpoint → Endpoint)
    → ((x : Endpoint)
        → ((f x).id ≡ x.id)
          × ((f x).node_id ≡ x.node_id)
          × ((f x).account_id ≡ x.account_id)
          × ((f x).model_id ≡ x.model_id))
    → Keeps IsConsistent (update_endpoints id f)
unfolding update_endpoints
update_endpoints-Keeps id f keep = Keeps-modify _ λ d h. assumption (
  Distinct-update (λ x. x.id) (by (λ x. x.id) id) f d.endpoints (λ x. (keep x).0) h.endpoint_ids,
  Refers-update_child (λ x. x.node_id) (λ x. x.id) (by (λ x. x.id) id) f d.endpoints d.nodes
      (λ x. (keep x).1) h.endpoint_nodes,
  Refers-update_child (λ x. x.account_id) (λ x. x.id) (by (λ x. x.id) id) f d.endpoints d.accounts
      (λ x. (keep x).2) h.endpoint_accounts,
  Refers-update_child (λ x. x.model_id) (λ x. x.id) (by (λ x. x.id) id) f d.endpoints d.models
      (λ x. (keep x).3) h.endpoint_models,
)

-- An update of policy profiles that leaves their keys alone.
pub update_policy_profiles-Keeps :
    (id : String) (f : PolicyProfile → PolicyProfile)
    → ((x : PolicyProfile) → ((f x).id ≡ x.id))
    → Keeps IsConsistent (update_policy_profiles id f)
unfolding update_policy_profiles
update_policy_profiles-Keeps id f keep = Keeps-modify _ λ d h. assumption (
  Distinct-update (λ x. x.id) (by (λ x. x.id) id) f d.policy_profiles keep h.profile_ids,
  OptionRefers-update_parent (λ x. x.profile_id) (λ x. x.id) (by (λ x. x.id) id) f d.consumers
      d.policy_profiles keep h.consumer_profiles,
)

-- An update of rollouts that leaves their keys alone.
pub update_rollouts-Keeps :
    (id : String) (f : Rollout → Rollout)
    → ((x : Rollout) → ((f x).id ≡ x.id) × ((f x).node_id ≡ x.node_id))
    → Keeps IsConsistent (update_rollouts id f)
unfolding update_rollouts
update_rollouts-Keeps id f keep = Keeps-modify _ λ d h. assumption (
  Distinct-update (λ x. x.id) (by (λ x. x.id) id) f d.rollouts (λ x. (keep x).0) h.rollout_ids,
  Refers-update_child (λ x. x.node_id) (λ x. x.id) (by (λ x. x.id) id) f d.rollouts d.nodes
      (λ x. (keep x).1) h.rollout_nodes,
)

-- An update of consumer keys that leaves their keys alone.
pub update_consumer_keys-Keeps :
    (consumer_id node_id : String) (f : ConsumerKey → ConsumerKey)
    → ((x : ConsumerKey) → ((f x).consumer_id ≡ x.consumer_id) × ((f x).node_id ≡ x.node_id))
    → Keeps IsConsistent (update_consumer_key_rows consumer_id node_id f)
unfolding update_consumer_key_rows
update_consumer_keys-Keeps consumer_id node_id f keep = Keeps-modify _ λ d h. assumption (
  DistinctBy-update (λ k. by_pair k.consumer_id k.node_id) (by_pair consumer_id node_id) f
      d.consumer_keys (λ a b. unfold by_pair in rw ((keep a).0, (keep a).1))
      (λ a b. unfold by_pair in rw ((keep b).0, (keep b).1)) h.key_pairs,
  Refers-update_child (λ x. x.consumer_id) (λ x. x.id) (by_pair consumer_id node_id) f
      d.consumer_keys d.consumers (λ x. (keep x).0) h.key_consumers,
  Refers-update_child (λ x. x.node_id) (λ x. x.id) (by_pair consumer_id node_id) f d.consumer_keys
      d.nodes (λ x. (keep x).1) h.key_nodes,
)

pub delete_consumer_keys-Keeps :
    (consumer_id node_id : String)
    → Keeps IsConsistent (delete_consumer_key_rows consumer_id node_id)
unfolding delete_consumer_key_rows
delete_consumer_keys-Keeps consumer_id node_id = Keeps-modify _ λ d h. assumption (
  DistinctBy-delete (λ k. by_pair k.consumer_id k.node_id) (by_pair consumer_id node_id)
      d.consumer_keys h.key_pairs,
  Refers-delete_child (λ x. x.consumer_id) (λ x. x.id) (by_pair consumer_id node_id) d.consumer_keys
      d.consumers h.key_consumers,
  Refers-delete_child (λ x. x.node_id) (λ x. x.id) (by_pair consumer_id node_id) d.consumer_keys
      d.nodes h.key_nodes,
)
