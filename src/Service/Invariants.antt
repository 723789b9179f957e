-- ===== src/Service/Invariants.antt =====
-- The invariants of the database over every sequence of requests.
use litellm_control_plane.Common.{List, [], ◌∷◌, sym}
use mathlib.Core.List.{append-nil}
use litellm_control_plane.World.{Db, World, get_db}
use litellm_control_plane.World.Keeps.{Keeps, keeps_rules, Keeps-bind, Keeps-get_db}
use litellm_control_plane.Store.Keeps.{KeepsStatements}
use litellm_control_plane.Store.Keeps.Topology
use litellm_control_plane.Store.Keeps.Health
use litellm_control_plane.Store.Keeps.Access
use litellm_control_plane.Store.Consistency.{IsConsistent}
use litellm_control_plane.Store.Consistency.Writes.{IsConsistent-statements}
use litellm_control_plane.Store.AuditTrail.{AuditTrail, NumberedFrom, trail_statements}
use litellm_control_plane.Health.StateMachine
use litellm_control_plane.Service.Calls.{Call}
use litellm_control_plane.Service.{execute, execute_all, serve}

module _ {P : Db → Type 0} (s : KeepsStatements P) where
  execute-Keeps : (c : Call) → Keeps P (execute c)
  unfolding execute
  execute-Keeps (Call.create_node node actor reason) =
      search (keeps_rules, Topology.create_node-Keeps s)
  execute-Keeps (Call.delete_node id actor reason) =
      search (keeps_rules, Topology.delete_node-Keeps s)
  execute-Keeps (Call.update_node id fields actor reason) =
      search (keeps_rules, Topology.update_node-Keeps s)
  execute-Keeps (Call.create_provider provider actor reason) =
      search (keeps_rules, Topology.create_provider-Keeps s)
  execute-Keeps (Call.delete_provider id actor reason) =
      search (keeps_rules, Topology.delete_provider-Keeps s)
  execute-Keeps (Call.update_provider id fields actor reason) =
      search (keeps_rules, Topology.update_provider-Keeps s)
  execute-Keeps (Call.create_model model actor reason) =
      search (keeps_rules, Topology.create_model-Keeps s)
  execute-Keeps (Call.delete_model id actor reason) =
      search (keeps_rules, Topology.delete_model-Keeps s)
  execute-Keeps (Call.update_model id fields actor reason) =
      search (keeps_rules, Topology.update_model-Keeps s)
  execute-Keeps (Call.create_account account actor reason) =
      search (keeps_rules, Health.create_account-Keeps s)
  execute-Keeps (Call.update_account_status id status actor reason) =
      search (keeps_rules, Health.update_account_status-Keeps s)
  execute-Keeps (Call.delete_account id actor reason) =
      search (keeps_rules, Health.delete_account-Keeps s)
  execute-Keeps (Call.create_endpoint endpoint actor reason) =
      search (keeps_rules, Health.create_endpoint-Keeps s)
  execute-Keeps (Call.update_endpoint_routing id priority weight actor reason) =
      search (keeps_rules, Health.update_endpoint_routing-Keeps s)
  execute-Keeps (Call.update_endpoint_status id status override actor reason) =
      search (keeps_rules, Health.update_endpoint_status-Keeps s)
  execute-Keeps (Call.delete_endpoint id actor reason) =
      search (keeps_rules, Health.delete_endpoint-Keeps s)
  execute-Keeps (Call.create_consumer consumer actor reason) =
      search (keeps_rules, Access.create_consumer-Keeps s)
  execute-Keeps (Call.update_consumer id fields actor reason) =
      search (keeps_rules, Access.update_consumer-Keeps s)
  execute-Keeps (Call.delete_consumer id actor reason) =
      search (keeps_rules, Access.delete_consumer-Keeps s)
  execute-Keeps (Call.create_consumer_key key actor reason) =
      search (keeps_rules, Access.create_consumer_key-Keeps s)
  execute-Keeps (Call.update_consumer_key_status consumer_id node_id status actor reason) =
      search (keeps_rules, Access.update_consumer_key_status-Keeps s)
  execute-Keeps (Call.update_consumer_key consumer_id node_id virtual_key status actor reason) =
      search (keeps_rules, Access.update_consumer_key-Keeps s)
  execute-Keeps (Call.delete_consumer_key consumer_id node_id actor reason) =
      search (keeps_rules, Access.delete_consumer_key-Keeps s)
  execute-Keeps (Call.create_policy_profile profile actor reason) =
      search (keeps_rules, Access.create_policy_profile-Keeps s)
  execute-Keeps (Call.update_policy_profile id fields actor reason) =
      search (keeps_rules, Access.update_policy_profile-Keeps s)
  execute-Keeps (Call.delete_policy_profile id actor reason) =
      search (keeps_rules, Access.delete_policy_profile-Keeps s)
  execute-Keeps (Call.create_rollout id node_id version status content error) =
      search (keeps_rules, Access.create_rollout-Keeps s)
  execute-Keeps (Call.update_rollout_status id status error) =
      search (keeps_rules, Access.update_rollout_status-Keeps s)
  execute-Keeps (Call.transition_account_state id next actor reason raw) =
      search (keeps_rules, StateMachine.Keeps.transition_account_state-Keeps s)
  execute-Keeps (Call.transition_endpoint_state id next actor reason raw) =
      search (keeps_rules, StateMachine.Keeps.transition_endpoint_state-Keeps s)
  execute-Keeps (Call.handle_account_failure id code message actor raw) =
      search (keeps_rules, StateMachine.Keeps.handle_account_failure-Keeps s)
  execute-Keeps (Call.handle_endpoint_failure id code message actor raw) =
      search (keeps_rules, StateMachine.Keeps.handle_endpoint_failure-Keeps s)
  execute-Keeps (Call.handle_account_success id actor) =
      search (keeps_rules, StateMachine.Keeps.handle_account_success-Keeps s)
  execute-Keeps (Call.handle_endpoint_success id actor) =
      search (keeps_rules, StateMachine.Keeps.handle_endpoint_success-Keeps s)

  execute_all-Keeps : (cs : List Call) → Keeps P (execute_all cs)
  unfolding execute_all
  execute_all-Keeps [] = search keeps_rules
  execute_all-Keeps (c ∷ cs) = Keeps-bind _ _ (execute-Keeps c) λ _. execute_all-Keeps cs

  serve-Keeps : (requests : List (List Call)) (w : World) → P w.db → P (serve requests w).db
  unfolding serve
  serve-Keeps [] w h = h
  serve-Keeps (request ∷ requests) w h =
      serve-Keeps requests (get_db (execute_all request) w).1
        ((Keeps-get_db _ (execute_all-Keeps request)).at w h)

-- From a database that meets the PRIMARY KEY and FOREIGN KEY constraints of the schema, whatever
-- the requests, returning or raising, the database meets them.
pub serve-IsConsistent :
    (requests : List (List Call)) (w : World)
    → IsConsistent w.db
    → IsConsistent (serve requests w).db
serve-IsConsistent requests w h = serve-Keeps IsConsistent-statements requests w h

-- Whatever the requests, returning or raising, the audit log after them is the audit log before
-- them, unchanged and in its order, with entries added behind it, and its ids go on from 1.
pub serve-AuditTrail :
    (requests : List (List Call)) (w : World)
    → NumberedFrom 0 w.audit_logs
    → AuditTrail w.audit_logs (serve requests w).db
serve-AuditTrail requests w h =
    serve-Keeps (trail_statements w.audit_logs) requests w
      (record { since = []; grown = sym (append-nil w.audit_logs); numbered = h })
