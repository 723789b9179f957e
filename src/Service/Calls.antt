-- ===== src/Service/Calls.antt =====
-- The calls that a request may make of src/registry/store.py and src/health/state_machine.py.
use litellm_control_plane.Common.{ℕ, String, Option}
use litellm_control_plane.Models.{
  ℤ, Status, Override, Node, NodeUpdate, Provider, ProviderUpdate, Model, ModelUpdate, Account,
  Endpoint, Consumer, ConsumerUpdate, ConsumerKey, KeyStatus, PolicyProfile, PolicyProfileUpdate,
  RolloutStatus,
}

-- One call, with its arguments.
pub data Call : Type 0 where
  create_node : (node : Node) (actor : String) (reason : Option String) → Call
  delete_node : (id : String) (actor : String) (reason : Option String) → Call
  update_node : (id : String) (fields : NodeUpdate) (actor : String) (reason : Option String) → Call
  create_provider : (provider : Provider) (actor : String) (reason : Option String) → Call
  delete_provider : (id : String) (actor : String) (reason : Option String) → Call
  update_provider :
      (id : String) (fields : ProviderUpdate) (actor : String) (reason : Option String) → Call
  create_model : (model : Model) (actor : String) (reason : Option String) → Call
  delete_model : (id : String) (actor : String) (reason : Option String) → Call
  update_model :
      (id : String) (fields : ModelUpdate) (actor : String) (reason : Option String) → Call
  create_account : (account : Account) (actor : String) (reason : Option String) → Call
  update_account_status :
      (id : String) (status : Status) (actor : String) (reason : Option String) → Call
  delete_account : (id : String) (actor : String) (reason : Option String) → Call
  create_endpoint : (endpoint : Endpoint) (actor : String) (reason : Option String) → Call
  update_endpoint_routing :
      (id : String) (priority weight : Option ℤ) (actor : String) (reason : Option String) → Call
  update_endpoint_status :
      (id : String) (status : Option Status) (override : Option Override) (actor : String)
      (reason : Option String)
      → Call
  delete_endpoint : (id : String) (actor : String) (reason : Option String) → Call
  create_consumer : (consumer : Consumer) (actor : String) (reason : Option String) → Call
  update_consumer :
      (id : String) (fields : ConsumerUpdate) (actor : String) (reason : Option String) → Call
  delete_consumer : (id : String) (actor : String) (reason : Option String) → Call
  create_consumer_key : (key : ConsumerKey) (actor : String) (reason : Option String) → Call
  update_consumer_key_status :
      (consumer_id node_id : String) (status : KeyStatus) (actor : String) (reason : Option String)
      → Call
  update_consumer_key :
      (consumer_id node_id virtual_key : String) (status : KeyStatus) (actor : String)
      (reason : Option String)
      → Call
  delete_consumer_key :
      (consumer_id node_id : String) (actor : String) (reason : Option String) → Call
  create_policy_profile : (profile : PolicyProfile) (actor : String) (reason : Option String) → Call
  update_policy_profile :
      (id : String) (fields : PolicyProfileUpdate) (actor : String) (reason : Option String) → Call
  delete_policy_profile : (id : String) (actor : String) (reason : Option String) → Call
  create_rollout :
      (id node_id version : String) (status : RolloutStatus) (content : String)
      (error : Option String)
      → Call
  update_rollout_status : (id : String) (status : RolloutStatus) (error : Option String) → Call
  transition_account_state :
      (id : String) (next : Status) (actor : String) (reason raw : Option String) → Call
  transition_endpoint_state :
      (id : String) (next : Status) (actor : String) (reason raw : Option String) → Call
  handle_account_failure :
      (id : String) (code : ℕ) (message actor : String) (raw : Option String) → Call
  handle_endpoint_failure :
      (id : String) (code : ℕ) (message actor : String) (raw : Option String) → Call
  handle_account_success : (id actor : String) → Call
  handle_endpoint_success : (id actor : String) → Call
