-- ===== src/Health/Manager.antt =====
-- src/health/manager.py.
pub mod Index
use litellm_control_plane.Common.{
  ℕ, String, Bool, true, false, Option, none, some, List, [], ◌∷◌, ◌++◌, ◌==◌, ◌&&◌, ◌||◌, not, any,
  all, length, map, if◌then◌else◌,
}
use litellm_control_plane.Models.{Status, NodeStatus, Override, Node, Account, Endpoint, Incident}
use litellm_control_plane.World.{Db, Exec, pure, gets, ◌>>=◌}
use litellm_control_plane.Store.Nodes.{list_nodes}
use litellm_control_plane.Store.Accounts.{list_accounts}
use litellm_control_plane.Store.Endpoints.{list_endpoints}
use litellm_control_plane.Store.Incidents.{list_incidents}

-- `endpoints_by_node`: a dictionary in the order of insertion.
abbrev pub Index : Type 0
Index = List (String × List Endpoint)

-- `endpoints_by_node.setdefault(e.node_id, []).append(e)`
unfoldable pub add_to_index : Endpoint → Index → Index
add_to_index e [] = (e.node_id, e ∷ []) ∷ []
add_to_index e ((id, es) ∷ index) =
    if id == e.node_id then (id, es ++ e ∷ []) ∷ index else (id, es) ∷ add_to_index e index

unfoldable pub build_index : Index → List Endpoint → Index
unfolding add_to_index
build_index index [] = index
build_index index (e ∷ es) = build_index (add_to_index e index) es

-- `endpoints_by_node.get(id, [])`
unfoldable pub get_from_index : String → Index → List Endpoint
get_from_index id [] = []
get_from_index id ((j, es) ∷ index) = if j == id then es else get_from_index id index

-- Sets of states are read through tests on their elements.
abbrev pub is_disabled : Status → Bool
is_disabled Status.disabled = true
is_disabled _ = false

abbrev pub is_serving : Status → Bool
is_serving Status.active = true
is_serving Status.recovered = true
is_serving _ = false

abbrev pub is_troubled : Status → Bool
is_troubled Status.cooldown = true
is_troubled Status.degraded = true
is_troubled Status.probe = true
is_troubled _ = false

-- The text of a node's health: one that the endpoints determine, or the status of the node.
pub data Health : Type 0 where
  disabled active degraded : Health
  own : NodeStatus → Health

-- `statuses` is not empty here, so `statuses == {"disabled"}` says that all are `disabled`.
unfoldable pub aggregate : NodeStatus → List Status → Health
unfolding any all
aggregate own_status [] = own own_status
aggregate own_status (s ∷ ss) =
    if all is_disabled (s ∷ ss)
    then disabled
    else if all is_serving (s ∷ ss)
    then active
    else if any is_troubled (s ∷ ss)
    then degraded
    else own own_status

pub record NodeSummary : Type 0 where
  pub id : String
  pub name : String
  pub region : String
  pub role : String
  pub status : NodeStatus
  pub health : Health
  pub endpoint_count : ℕ

pub record AccountSummary : Type 0 where
  pub id : String
  pub name : String
  pub provider_id : String
  pub status : Status
  pub cooldown_until : Option ℕ
  pub failure_count : ℕ

pub record EndpointSummary : Type 0 where
  pub id : String
  pub node_id : String
  pub account_id : String
  pub model_id : String
  pub status : Status
  pub manual_override : Override
  pub cooldown_until : Option ℕ
  pub failure_count : ℕ

pub record Summary : Type 0 where
  pub nodes : List NodeSummary
  pub accounts : List AccountSummary
  pub endpoints : List EndpointSummary

unfoldable pub summarise_node : Index → Node → NodeSummary
summarise_node index n =
    let node_eps = get_from_index n.id index in
    record {
      id = n.id;
      name = n.name;
      region = n.region;
      role = n.role;
      status = n.status;
      health = aggregate n.status (map (λ e. e.status) node_eps);
      endpoint_count = length node_eps;
    }

unfoldable pub summarise_account : Account → AccountSummary
summarise_account a = record {
  id = a.id;
  name = a.name;
  provider_id = a.provider_id;
  status = a.status;
  cooldown_until = a.cooldown_until;
  failure_count = a.failure_count;
}

unfoldable pub summarise_endpoint : Endpoint → EndpointSummary
summarise_endpoint e = record {
  id = e.id;
  node_id = e.node_id;
  account_id = e.account_id;
  model_id = e.model_id;
  status = e.status;
  manual_override = e.manual_override;
  cooldown_until = e.cooldown_until;
  failure_count = e.failure_count;
}

unfoldable pub get_health_summary : Exec Summary
get_health_summary = do
  nodes ← list_nodes
  accounts ← list_accounts
  endpoints ← list_endpoints
  let index = build_index [] endpoints
  pure (record {
    nodes = map (summarise_node index) nodes;
    accounts = map summarise_account accounts;
    endpoints = map summarise_endpoint endpoints;
  })

unfoldable pub get_incidents_list :
    ℕ → (target_type target_id state_to : Option String) → Exec (List Incident)
get_incidents_list limit target_type target_id state_to =
    list_incidents limit target_type target_id state_to
