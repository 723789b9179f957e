-- ===== src/KeyManager/Keeps.antt =====
-- An invariant that every statement keeps is kept by src/registry/key_manager.py, whatever the
-- proxies answer and whether it returns or raises.
use litellm_control_plane.Common.{String, List, [], ◌∷◌, Option, none, some}
use litellm_control_plane.Models.{JsonText, Node, Consumer, ConsumerKey}
use litellm_control_plane.World.{Db, World}
use litellm_control_plane.World.Keeps.{Keeps, Keeps-bind, keeps_rules}
use litellm_control_plane.Adapter.{
  Body, LiteLlmAdapter, KeyLimits, Answer, generate_key, update_key, delete_key, key_of, json_of,
  body_of, deleted, check_health,
}
use litellm_control_plane.Process.{Request}
use litellm_control_plane.Store.Keeps.{KeepsStatements}
use litellm_control_plane.Store.Keeps.Access.{
  create_consumer_key-Keeps, update_consumer_key-Keeps, update_consumer_key_status-Keeps,
  delete_consumer_key-Keeps,
}
use litellm_control_plane.Store.Nodes.{get_node, list_nodes}
use litellm_control_plane.Store.Consumers.{get_consumer}
use litellm_control_plane.Store.PolicyProfiles.{get_policy_profile}
use litellm_control_plane.Store.ConsumerKeys.{get_consumer_key, list_consumer_keys}
use litellm_control_plane.KeyManager.{
  Fleet, get_node_master_key, get_consumer_models_scope, offer_key, create_on, recover_on,
  update_on, sync_node, sync_nodes, sync_consumer_to_all_nodes, revoke_on, revoke, delete_keys_of,
  delete_consumer_from_all_nodes, sync_consumers, reconcile_all_keys,
}

module _ {P : Db → Type 0} where
  module _ (proxies : World → Request → Answer) (adapter : LiteLlmAdapter) where
    key_of-Keeps : (b : Body) → Keeps P (key_of b)
    key_of-Keeps Body.not_json = search (keeps_rules)
    key_of-Keeps (Body.json none) = search (keeps_rules)
    key_of-Keeps (Body.json (some key)) = search (keeps_rules)

    json_of-Keeps : (b : Body) → Keeps P (json_of b)
    json_of-Keeps Body.not_json = search (keeps_rules)
    json_of-Keeps (Body.json key) = search (keeps_rules)

    body_of-Keeps :
        (failure : String) (answer : Answer) → Keeps P (body_of proxies adapter failure answer)
    unfolding body_of
    body_of-Keeps failure Answer.broken = search (keeps_rules)
    body_of-Keeps failure (Answer.response status_code body) = search (keeps_rules)

    deleted-Keeps : (answer : Answer) → Keeps P (deleted proxies adapter answer)
    deleted-Keeps Answer.broken = search (keeps_rules)
    deleted-Keeps (Answer.response status_code body) = search (keeps_rules)

    pub generate_key-Keeps : (limits : KeyLimits) → Keeps P (generate_key proxies adapter limits)
    unfolding generate_key
    generate_key-Keeps limits = search (keeps_rules, key_of-Keeps, body_of-Keeps) depth 20

    pub update_key-Keeps :
        (key : String) (limits : KeyLimits) → Keeps P (update_key proxies adapter key limits)
    unfolding update_key
    update_key-Keeps key limits = search (keeps_rules, json_of-Keeps, body_of-Keeps) depth 20

    pub delete_key-Keeps : (key : String) → Keeps P (delete_key proxies adapter key)
    unfolding delete_key
    delete_key-Keeps key = search (keeps_rules, deleted-Keeps) depth 20

    pub check_health-Keeps : Keeps P (check_health proxies adapter)
    unfolding check_health
    check_health-Keeps = search (keeps_rules) depth 20

module _ {P : Db → Type 0} (s : KeepsStatements P) (fleet : Fleet) where
  create_on-Keeps :
      (adapter : LiteLlmAdapter) (limits : KeyLimits) (consumer : Consumer) (node : Node)
      → Keeps P (create_on fleet adapter limits consumer node)
  unfolding create_on offer_key
  create_on-Keeps adapter limits consumer node =
      search (keeps_rules, generate_key-Keeps, create_consumer_key-Keeps s) depth 20

  recover_on-Keeps :
      (adapter : LiteLlmAdapter) (limits : KeyLimits) (consumer : Consumer) (node : Node)
      → Keeps P (recover_on fleet adapter limits consumer node)
  unfolding recover_on
  recover_on-Keeps adapter limits consumer node =
      search (keeps_rules, generate_key-Keeps, update_consumer_key-Keeps s) depth 20

  update_on-Keeps :
      (adapter : LiteLlmAdapter) (limits : KeyLimits) (consumer : Consumer) (node : Node)
      (key : ConsumerKey)
      → Keeps P (update_on fleet adapter limits consumer node key)
  unfolding update_on
  update_on-Keeps adapter limits consumer node key =
      search (keeps_rules, update_key-Keeps, update_consumer_key_status-Keeps s) depth 20

  sync_node-Keeps :
      (allowed_models : JsonText) (consumer : Consumer) (node : Node)
      → Keeps P (sync_node fleet allowed_models consumer node)
  unfolding sync_node get_node_master_key get_consumer_key
  sync_node-Keeps allowed_models consumer node =
      search (keeps_rules, create_on-Keeps, recover_on-Keeps, update_on-Keeps) depth 20

  sync_nodes-Keeps :
      (allowed_models : JsonText) (consumer : Consumer) (nodes : List Node)
      → Keeps P (sync_nodes fleet allowed_models consumer nodes)
  unfolding sync_nodes
  sync_nodes-Keeps allowed_models consumer [] = search (keeps_rules)
  sync_nodes-Keeps allowed_models consumer (node ∷ nodes) =
      Keeps-bind _ _ (sync_node-Keeps allowed_models consumer node)
        λ _. sync_nodes-Keeps allowed_models consumer nodes

  pub sync_consumer_to_all_nodes-Keeps :
      (consumer_id : String) → Keeps P (sync_consumer_to_all_nodes fleet consumer_id)
  unfolding sync_consumer_to_all_nodes get_consumer list_nodes get_consumer_models_scope
      get_policy_profile
  sync_consumer_to_all_nodes-Keeps consumer_id = search (keeps_rules, sync_nodes-Keeps) depth 20

  pub revoke_on-Keeps :
      (virtual_key : String) (found : Option Node) → Keeps P (revoke_on fleet virtual_key found)
  unfolding revoke_on get_node_master_key
  revoke_on-Keeps virtual_key found = search (keeps_rules, delete_key-Keeps) depth 20

  pub revoke-Keeps : (key : ConsumerKey) → Keeps P (revoke fleet key)
  unfolding revoke get_node
  revoke-Keeps key = search (keeps_rules, revoke_on-Keeps) depth 20

  delete_keys_of-Keeps :
      (consumer_id : String) (keys : List ConsumerKey)
      → Keeps P (delete_keys_of fleet consumer_id keys)
  unfolding delete_keys_of
  delete_keys_of-Keeps consumer_id [] = search (keeps_rules)
  delete_keys_of-Keeps consumer_id (key ∷ keys) = Keeps-bind _ _ (revoke-Keeps key) λ _.
      Keeps-bind _ _ (delete_consumer_key-Keeps s _ _ _ _)
        λ _. delete_keys_of-Keeps consumer_id keys

  pub delete_consumer_from_all_nodes-Keeps :
      (consumer_id : String) → Keeps P (delete_consumer_from_all_nodes fleet consumer_id)
  unfolding delete_consumer_from_all_nodes list_consumer_keys
  delete_consumer_from_all_nodes-Keeps consumer_id =
      search (keeps_rules, delete_keys_of-Keeps) depth 20

  pub sync_consumers-Keeps : (ids : List String) → Keeps P (sync_consumers fleet ids)
  unfolding sync_consumers
  sync_consumers-Keeps [] = search (keeps_rules)
  sync_consumers-Keeps (cid ∷ ids) =
      Keeps-bind _ _ (sync_consumer_to_all_nodes-Keeps cid) λ _. sync_consumers-Keeps ids

  pub reconcile_all_keys-Keeps : Keeps P (reconcile_all_keys fleet)
  unfolding reconcile_all_keys
  reconcile_all_keys-Keeps = search (keeps_rules, sync_consumers-Keeps) depth 20
