-- ===== src/Store/Consistency/Rows.antt =====
-- The statements of `Statements` keep the constraints.
use litellm_control_plane.Common.{
  String, Bool, true, false, Option, none, some, ◌≡◌, refl, List, any, eq_iff, not, arith,
}
use litellm_control_plane.Table.{by, by_option, has}
use litellm_control_plane.Table.Pairs.{DistinctBy-append, DistinctBy-delete}
use litellm_control_plane.Table.References.{
  Distinct-append, Distinct-update, Distinct-delete, Refers-append_child, Refers-append_parent,
  Refers-update_parent, Refers-delete_child, Refers-restrict, Refers-cascade,
  OptionRefers-append_child, OptionRefers-append_parent, OptionRefers-delete_child,
  OptionRefers-set_null, HasOption,
}
use litellm_control_plane.Models.{
  Node, Provider, Model, Account, Endpoint, Consumer, ConsumerKey, PolicyProfile, Rollout, Incident,
}
use litellm_control_plane.World.Keeps.{Keeps, Keeps-statement, Keeps-modify}
use litellm_control_plane.Store.Statements.{
  insert_node, delete_node_row, cascade_node, insert_provider, delete_provider_row, insert_model,
  delete_model_row, insert_account, delete_account_row, insert_endpoint, delete_endpoint_row,
  insert_consumer, dangling, delete_consumer_row, insert_policy_profile, delete_policy_profile_row,
  insert_incident, insert_rollout, by_pair, insert_consumer_key,
}
use litellm_control_plane.Store.Consistency.{IsConsistent}

not-false : (b : Bool) → not b ≡ false → b ≡ true
not-false b h = ground arith

pub dangling-false :
    (k : Option String) (profiles : List PolicyProfile)
    → dangling k profiles ≡ false
    → HasOption (λ p. p.id) k profiles
unfolding dangling
dangling-false none profiles h = tt
dangling-false (some k) profiles h = not-false _ h

pub insert_node-Keeps : (x : Node) → Keeps IsConsistent (insert_node x)
unfolding insert_node
insert_node-Keeps x = Keeps-statement _ _ λ d good h. assumption (
  Distinct-append (λ x. x.id) x d.nodes good h.node_ids,
  Refers-append_parent (λ x. x.node_id) (λ x. x.id) d.endpoints x d.nodes h.endpoint_nodes,
  Refers-append_parent (λ x. x.node_id) (λ x. x.id) d.consumer_keys x d.nodes h.key_nodes,
  Refers-append_parent (λ x. x.node_id) (λ x. x.id) d.rollouts x d.nodes h.rollout_nodes,
)

pub insert_provider-Keeps : (x : Provider) → Keeps IsConsistent (insert_provider x)
unfolding insert_provider
insert_provider-Keeps x = Keeps-statement _ _ λ d good h. assumption (
  Distinct-append (λ x. x.id) x d.providers good h.provider_ids,
  Refers-append_parent (λ x. x.provider_id) (λ x. x.id) d.accounts x d.providers
      h.account_providers,
)

pub insert_model-Keeps : (x : Model) → Keeps IsConsistent (insert_model x)
unfolding insert_model
insert_model-Keeps x = Keeps-statement _ _ λ d good h. assumption (
  Distinct-append (λ x. x.id) x d.models good h.model_ids,
  Refers-append_parent (λ x. x.model_id) (λ x. x.id) d.endpoints x d.models h.endpoint_models,
)

pub insert_account-Keeps : (x : Account) → Keeps IsConsistent (insert_account x)
unfolding insert_account
insert_account-Keeps x = Keeps-statement _ _ λ d good h.
    let free : has (λ x. x.id) x.id d.accounts ≡ false = ground arith in
    let parent : has (λ x. x.id) x.provider_id d.providers ≡ true = ground arith in
    assumption (
      Distinct-append (λ x. x.id) x d.accounts free h.account_ids,
      Refers-append_child (λ x. x.provider_id) (λ x. x.id) x d.accounts d.providers parent
          h.account_providers,
      Refers-append_parent (λ x. x.account_id) (λ x. x.id) d.endpoints x d.accounts
          h.endpoint_accounts,
    )

pub insert_endpoint-Keeps : (x : Endpoint) → Keeps IsConsistent (insert_endpoint x)
unfolding insert_endpoint
insert_endpoint-Keeps x = Keeps-statement _ _ λ d good h.
    let free : has (λ x. x.id) x.id d.endpoints ≡ false = ground arith in
    let on_node : has (λ x. x.id) x.node_id d.nodes ≡ true = ground arith in
    let of_account : has (λ x. x.id) x.account_id d.accounts ≡ true = ground arith in
    let of_model : has (λ x. x.id) x.model_id d.models ≡ true = ground arith in
    assumption (
      Distinct-append (λ x. x.id) x d.endpoints free h.endpoint_ids,
      Refers-append_child (λ x. x.node_id) (λ x. x.id) x d.endpoints d.nodes on_node
          h.endpoint_nodes,
      Refers-append_child (λ x. x.account_id) (λ x. x.id) x d.endpoints d.accounts of_account
          h.endpoint_accounts,
      Refers-append_child (λ x. x.model_id) (λ x. x.id) x d.endpoints d.models of_model
          h.endpoint_models,
    )

pub insert_consumer-Keeps : (x : Consumer) → Keeps IsConsistent (insert_consumer x)
unfolding insert_consumer
insert_consumer-Keeps x = Keeps-statement _ _ λ d good h.
    let free : has (λ x. x.id) x.id d.consumers ≡ false = ground arith in
    let parent : dangling x.profile_id d.policy_profiles ≡ false = ground arith in
    assumption (
      Distinct-append (λ x. x.id) x d.consumers free h.consumer_ids,
      OptionRefers-append_child (λ x. x.profile_id) (λ x. x.id) x d.consumers d.policy_profiles
          (dangling-false x.profile_id d.policy_profiles parent) h.consumer_profiles,
      Refers-append_parent (λ x. x.consumer_id) (λ x. x.id) d.consumer_keys x d.consumers
          h.key_consumers,
    )

pub insert_policy_profile-Keeps : (x : PolicyProfile) → Keeps IsConsistent (insert_policy_profile x)
unfolding insert_policy_profile
insert_policy_profile-Keeps x = Keeps-statement _ _ λ d good h. assumption (
  Distinct-append (λ x. x.id) x d.policy_profiles good h.profile_ids,
  OptionRefers-append_parent (λ x. x.profile_id) (λ x. x.id) d.consumers x d.policy_profiles
      h.consumer_profiles,
)

pub insert_incident-Keeps : (x : Incident) → Keeps IsConsistent (insert_incident x)
unfolding insert_incident
insert_incident-Keeps x =
    Keeps-statement _ _
      λ d good h. assumption (Distinct-append (λ x. x.id) x d.incidents good h.incident_ids)

pub insert_rollout-Keeps : (x : Rollout) → Keeps IsConsistent (insert_rollout x)
unfolding insert_rollout
insert_rollout-Keeps x = Keeps-statement _ _ λ d good h.
    let free : has (λ x. x.id) x.id d.rollouts ≡ false = ground arith in
    let parent : has (λ x. x.id) x.node_id d.nodes ≡ true = ground arith in
    assumption (
      Distinct-append (λ x. x.id) x d.rollouts free h.rollout_ids,
      Refers-append_child (λ x. x.node_id) (λ x. x.id) x d.rollouts d.nodes parent h.rollout_nodes,
    )

pub delete_provider_row-Keeps : (id : String) → Keeps IsConsistent (delete_provider_row id)
unfolding delete_provider_row
delete_provider_row-Keeps id = Keeps-statement _ _ λ d unused h. assumption (
  Distinct-delete (λ x. x.id) (by (λ x. x.id) id) d.providers h.provider_ids,
  Refers-restrict (λ x. x.provider_id) (λ x. x.id) id d.accounts d.providers unused
      h.account_providers,
)

pub delete_model_row-Keeps : (id : String) → Keeps IsConsistent (delete_model_row id)
unfolding delete_model_row
delete_model_row-Keeps id = Keeps-statement _ _ λ d unused h. assumption (
  Distinct-delete (λ x. x.id) (by (λ x. x.id) id) d.models h.model_ids,
  Refers-restrict (λ x. x.model_id) (λ x. x.id) id d.endpoints d.models unused h.endpoint_models,
)

pub delete_account_row-Keeps : (id : String) → Keeps IsConsistent (delete_account_row id)
unfolding delete_account_row
delete_account_row-Keeps id = Keeps-statement _ _ λ d unused h. assumption (
  Distinct-delete (λ x. x.id) (by (λ x. x.id) id) d.accounts h.account_ids,
  Refers-restrict (λ x. x.account_id) (λ x. x.id) id d.endpoints d.accounts unused
      h.endpoint_accounts,
  Refers-delete_child (λ x. x.provider_id) (λ x. x.id) (by (λ x. x.id) id) d.accounts d.providers
      h.account_providers,
)

pub delete_node_row-Keeps : (id : String) → Keeps IsConsistent (delete_node_row id)
unfolding delete_node_row cascade_node
delete_node_row-Keeps id = Keeps-modify _ λ d h. assumption (
  DistinctBy-delete (λ k. by_pair k.consumer_id k.node_id) (by (λ x. x.node_id) id) d.consumer_keys
      h.key_pairs,
  Distinct-delete (λ x. x.id) (by (λ x. x.id) id) d.nodes h.node_ids,
  Distinct-delete (λ x. x.id) (by (λ x. x.node_id) id) d.endpoints h.endpoint_ids,
  Distinct-delete (λ x. x.id) (by (λ x. x.node_id) id) d.rollouts h.rollout_ids,
  Refers-cascade (λ x. x.node_id) (λ x. x.id) id d.endpoints d.nodes h.endpoint_nodes,
  Refers-cascade (λ x. x.node_id) (λ x. x.id) id d.consumer_keys d.nodes h.key_nodes,
  Refers-cascade (λ x. x.node_id) (λ x. x.id) id d.rollouts d.nodes h.rollout_nodes,
  Refers-delete_child (λ x. x.account_id) (λ x. x.id) (by (λ x. x.node_id) id) d.endpoints
      d.accounts h.endpoint_accounts,
  Refers-delete_child (λ x. x.model_id) (λ x. x.id) (by (λ x. x.node_id) id) d.endpoints d.models
      h.endpoint_models,
  Refers-delete_child (λ x. x.consumer_id) (λ x. x.id) (by (λ x. x.node_id) id) d.consumer_keys
      d.consumers h.key_consumers,
)

pub delete_consumer_row-Keeps : (id : String) → Keeps IsConsistent (delete_consumer_row id)
unfolding delete_consumer_row
delete_consumer_row-Keeps id = Keeps-modify _ λ d h. assumption (
  DistinctBy-delete (λ k. by_pair k.consumer_id k.node_id) (by (λ x. x.consumer_id) id)
      d.consumer_keys h.key_pairs,
  Distinct-delete (λ x. x.id) (by (λ x. x.id) id) d.consumers h.consumer_ids,
  Refers-cascade (λ x. x.consumer_id) (λ x. x.id) id d.consumer_keys d.consumers h.key_consumers,
  OptionRefers-delete_child (λ x. x.profile_id) (λ x. x.id) (by (λ x. x.id) id) d.consumers
      d.policy_profiles h.consumer_profiles,
  Refers-delete_child (λ x. x.node_id) (λ x. x.id) (by (λ x. x.consumer_id) id) d.consumer_keys
      d.nodes h.key_nodes,
)

pub delete_endpoint_row-Keeps : (id : String) → Keeps IsConsistent (delete_endpoint_row id)
unfolding delete_endpoint_row
delete_endpoint_row-Keeps id = Keeps-modify _ λ d h. assumption (
  Distinct-delete (λ x. x.id) (by (λ x. x.id) id) d.endpoints h.endpoint_ids,
  Refers-delete_child (λ x. x.node_id) (λ x. x.id) (by (λ x. x.id) id) d.endpoints d.nodes
      h.endpoint_nodes,
  Refers-delete_child (λ x. x.account_id) (λ x. x.id) (by (λ x. x.id) id) d.endpoints d.accounts
      h.endpoint_accounts,
  Refers-delete_child (λ x. x.model_id) (λ x. x.id) (by (λ x. x.id) id) d.endpoints d.models
      h.endpoint_models,
)

pub delete_policy_profile_row-Keeps :
    (id : String) → Keeps IsConsistent (delete_policy_profile_row id)
unfolding delete_policy_profile_row
delete_policy_profile_row-Keeps id = Keeps-modify _ λ d h. assumption (
  Distinct-delete (λ x. x.id) (by (λ x. x.id) id) d.policy_profiles h.profile_ids,
  Distinct-update (λ x. x.id) (λ c. by_option c.profile_id id) (λ c. record c { profile_id = none })
      d.consumers (λ c. refl) h.consumer_ids,
  Refers-update_parent (λ x. x.consumer_id) (λ x. x.id) (λ c. by_option c.profile_id id)
      (λ c. record c { profile_id = none }) d.consumer_keys d.consumers (λ c. refl) h.key_consumers,
  OptionRefers-set_null (λ x. x.profile_id) (λ x. x.id) (λ c. record c { profile_id = none }) id
      d.consumers d.policy_profiles (λ c. refl) h.consumer_profiles,
)

by_pair_symm :
    (a b : ConsumerKey) → by_pair a.consumer_id a.node_id b ≡ by_pair b.consumer_id b.node_id a
unfolding by_pair
by_pair_symm a b = ground (
  arith,
  eq_iff a.consumer_id b.consumer_id,
  eq_iff b.consumer_id a.consumer_id,
  eq_iff a.node_id b.node_id,
  eq_iff b.node_id a.node_id,
)

pub insert_consumer_key-Keeps : (x : ConsumerKey) → Keeps IsConsistent (insert_consumer_key x)
unfolding insert_consumer_key
insert_consumer_key-Keeps x = Keeps-statement _ _ λ d good h.
    let free : any (by_pair x.consumer_id x.node_id) d.consumer_keys ≡ false = ground arith in
    let of_consumer : has (λ c. c.id) x.consumer_id d.consumers ≡ true = ground arith in
    let on_node : has (λ n. n.id) x.node_id d.nodes ≡ true = ground arith in
    assumption (
      DistinctBy-append (λ k. by_pair k.consumer_id k.node_id) x d.consumer_keys by_pair_symm free
          h.key_pairs,
      Refers-append_child (λ k. k.consumer_id) (λ c. c.id) x d.consumer_keys d.consumers of_consumer
          h.key_consumers,
      Refers-append_child (λ k. k.node_id) (λ n. n.id) x d.consumer_keys d.nodes on_node
          h.key_nodes,
    )
