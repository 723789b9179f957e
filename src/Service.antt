-- ===== src/Service.antt =====
-- What a request may do to the database: the operations of src/registry/store.py and of
-- src/health/state_machine.py, one after another in a transaction of src/config/db.py, and the
-- requests one after another.
pub mod Calls
pub mod Invariants
use litellm_control_plane.Common.{List, [], ◌∷◌}
use litellm_control_plane.Service.Calls.{Call}
use litellm_control_plane.World.{World, Exec, pure, ◌>>=◌, ◌>>◌, get_db}
use litellm_control_plane.Store.Nodes.{create_node, delete_node, update_node}
use litellm_control_plane.Store.Providers.{create_provider, delete_provider, update_provider}
use litellm_control_plane.Store.Models.{create_model, delete_model, update_model}
use litellm_control_plane.Store.Accounts.{create_account, update_account_status, delete_account}
use litellm_control_plane.Store.Endpoints.{
  create_endpoint, update_endpoint_routing, update_endpoint_status, delete_endpoint,
}
use litellm_control_plane.Store.Consumers.{create_consumer, update_consumer, delete_consumer}
use litellm_control_plane.Store.ConsumerKeys.{
  create_consumer_key, update_consumer_key_status, update_consumer_key, delete_consumer_key,
}
use litellm_control_plane.Store.PolicyProfiles.{
  create_policy_profile, update_policy_profile, delete_policy_profile,
}
use litellm_control_plane.Store.Rollouts.{create_rollout, update_rollout_status}
use litellm_control_plane.Health.StateMachine.{
  transition_account_state, transition_endpoint_state, handle_account_failure,
  handle_endpoint_failure, handle_account_success, handle_endpoint_success,
}

unfoldable pub execute : Call → Exec (Unit {0})
execute (Call.create_node node actor reason) = do create_node node actor reason; pure tt
execute (Call.delete_node id actor reason) = do delete_node id actor reason; pure tt
execute (Call.update_node id fields actor reason) = do update_node id fields actor reason; pure tt
execute (Call.create_provider provider actor reason) = do
  create_provider provider actor reason
  pure tt
execute (Call.delete_provider id actor reason) = do delete_provider id actor reason; pure tt
execute (Call.update_provider id fields actor reason) = do
  update_provider id fields actor reason
  pure tt
execute (Call.create_model model actor reason) = do create_model model actor reason; pure tt
execute (Call.delete_model id actor reason) = do delete_model id actor reason; pure tt
execute (Call.update_model id fields actor reason) = do update_model id fields actor reason; pure tt
execute (Call.create_account account actor reason) = do create_account account actor reason; pure tt
execute (Call.update_account_status id status actor reason) = do
  update_account_status id status actor reason
  pure tt
execute (Call.delete_account id actor reason) = do delete_account id actor reason; pure tt
execute (Call.create_endpoint endpoint actor reason) = do
  create_endpoint endpoint actor reason
  pure tt
execute (Call.update_endpoint_routing id priority weight actor reason) = do
  update_endpoint_routing id priority weight actor reason
  pure tt
execute (Call.update_endpoint_status id status override actor reason) = do
  update_endpoint_status id status override actor reason
  pure tt
execute (Call.delete_endpoint id actor reason) = do delete_endpoint id actor reason; pure tt
execute (Call.create_consumer consumer actor reason) = do
  create_consumer consumer actor reason
  pure tt
execute (Call.update_consumer id fields actor reason) = do
  update_consumer id fields actor reason
  pure tt
execute (Call.delete_consumer id actor reason) = do delete_consumer id actor reason; pure tt
execute (Call.create_consumer_key key actor reason) = do
  create_consumer_key key actor reason
  pure tt
execute (Call.update_consumer_key_status consumer_id node_id status actor reason) = do
  update_consumer_key_status consumer_id node_id status actor reason
  pure tt
execute (Call.update_consumer_key consumer_id node_id virtual_key status actor reason) = do
  update_consumer_key consumer_id node_id virtual_key status actor reason
  pure tt
execute (Call.delete_consumer_key consumer_id node_id actor reason) = do
  delete_consumer_key consumer_id node_id actor reason
  pure tt
execute (Call.create_policy_profile profile actor reason) = do
  create_policy_profile profile actor reason
  pure tt
execute (Call.update_policy_profile id fields actor reason) = do
  update_policy_profile id fields actor reason
  pure tt
execute (Call.delete_policy_profile id actor reason) = do
  delete_policy_profile id actor reason
  pure tt
execute (Call.create_rollout id node_id version status content error) = do
  create_rollout id node_id version status content error
  pure tt
execute (Call.update_rollout_status id status error) = do
  update_rollout_status id status error
  pure tt
execute (Call.transition_account_state id next actor reason raw) = do
  transition_account_state id next actor reason raw
  pure tt
execute (Call.transition_endpoint_state id next actor reason raw) = do
  transition_endpoint_state id next actor reason raw
  pure tt
execute (Call.handle_account_failure id code message actor raw) = do
  handle_account_failure id code message actor raw
  pure tt
execute (Call.handle_endpoint_failure id code message actor raw) = do
  handle_endpoint_failure id code message actor raw
  pure tt
execute (Call.handle_account_success id actor) = do handle_account_success id actor; pure tt
execute (Call.handle_endpoint_success id actor) = do handle_endpoint_success id actor; pure tt

-- The calls of one request.
unfoldable pub execute_all : List Call → Exec (Unit {0})
unfolding execute
execute_all [] = pure tt
execute_all (c ∷ cs) = do execute c; execute_all cs

-- The requests, each in its own transaction; the exception of one ends that one alone.
unfoldable pub serve : List (List Call) → World → World
serve [] w = w
serve (request ∷ requests) w = serve requests (get_db (execute_all request) w).1
