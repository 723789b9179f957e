-- ===== src/Health/StateMachine/Keeps.antt =====
-- An invariant that every statement of the store keeps is kept by the state machine.
use litellm_control_plane.Common.{ℕ, String, Option}
use litellm_control_plane.Models.{Status}
use litellm_control_plane.World.{Db}
use litellm_control_plane.World.Keeps.{Keeps, keeps_rules}
use litellm_control_plane.Store.Keeps.{KeepsStatements}
use litellm_control_plane.Store.Keeps.Health.{
  update_account_status-Keeps, set_account_cooldown-Keeps, increment_account_failure-Keeps,
  update_endpoint_status-Keeps, set_endpoint_cooldown-Keeps, increment_endpoint_failure-Keeps,
}
use litellm_control_plane.Store.Keeps.Access.{create_incident-Keeps}
use litellm_control_plane.Store.Accounts.{get_account}
use litellm_control_plane.Store.Endpoints.{get_endpoint}
use litellm_control_plane.Health.StateMachine.{
  write_account_state, transition_account_state, write_endpoint_state, transition_endpoint_state,
  Failure, auth, rate_limit, other, degrade_account, fail_account, handle_account_failure,
  degrade_endpoint, fail_endpoint, handle_endpoint_failure, succeed_account, handle_account_success,
  succeed_endpoint, handle_endpoint_success,
}

module _ {P : Db → Type 0} (s : KeepsStatements P) where
  write_account_state-Keeps :
      (id : String) (next : Status) (actor : String) (reason : Option String)
      → Keeps P (write_account_state id next actor reason)
  unfolding write_account_state get_account
  write_account_state-Keeps id next actor reason =
      search (keeps_rules, set_account_cooldown-Keeps s, update_account_status-Keeps s) depth 20

  pub transition_account_state-Keeps :
      (id : String) (next : Status) (actor : String) (reason raw : Option String)
      → Keeps P (transition_account_state id next actor reason raw)
  unfolding transition_account_state get_account
  transition_account_state-Keeps id next actor reason raw =
      search (keeps_rules, create_incident-Keeps s, write_account_state-Keeps) depth 20

  degrade_account-Keeps :
      (id : String) (failures : ℕ) (message actor : String) (raw : Option String)
      → Keeps P (degrade_account id failures message actor raw)
  unfolding degrade_account
  degrade_account-Keeps id failures message actor raw =
      search (keeps_rules, transition_account_state-Keeps) depth 20

  fail_account-Keeps :
      (f : Failure) (id : String) (code : ℕ) (message actor : String) (raw : Option String)
      → Keeps P (fail_account f id code message actor raw)
  unfolding fail_account
  fail_account-Keeps auth id code message actor raw =
      search (keeps_rules, transition_account_state-Keeps) depth 20
  fail_account-Keeps rate_limit id code message actor raw =
      search (keeps_rules, transition_account_state-Keeps) depth 20
  fail_account-Keeps other id code message actor raw =
      search (keeps_rules, increment_account_failure-Keeps s, degrade_account-Keeps) depth 20

  pub handle_account_failure-Keeps :
      (id : String) (code : ℕ) (message actor : String) (raw : Option String)
      → Keeps P (handle_account_failure id code message actor raw)
  unfolding handle_account_failure
  handle_account_failure-Keeps id code message actor raw =
      fail_account-Keeps _ id code message actor raw

  succeed_account-Keeps :
      (status : Status) (failures : ℕ) (id actor : String)
      → Keeps P (succeed_account status failures id actor)
  unfolding succeed_account
  succeed_account-Keeps Status.active failures id actor =
      search (keeps_rules, s.clear_account) depth 20
  succeed_account-Keeps _ failures id actor =
      search (keeps_rules, transition_account_state-Keeps) depth 20

  pub handle_account_success-Keeps : (id actor : String) → Keeps P (handle_account_success id actor)
  unfolding handle_account_success get_account
  handle_account_success-Keeps id actor = search (keeps_rules, succeed_account-Keeps) depth 20

  write_endpoint_state-Keeps :
      (id : String) (next : Status) (actor : String) (reason : Option String)
      → Keeps P (write_endpoint_state id next actor reason)
  unfolding write_endpoint_state get_endpoint
  write_endpoint_state-Keeps id next actor reason =
      search (keeps_rules, set_endpoint_cooldown-Keeps s, update_endpoint_status-Keeps s) depth 20

  pub transition_endpoint_state-Keeps :
      (id : String) (next : Status) (actor : String) (reason raw : Option String)
      → Keeps P (transition_endpoint_state id next actor reason raw)
  unfolding transition_endpoint_state get_endpoint
  transition_endpoint_state-Keeps id next actor reason raw =
      search (keeps_rules, create_incident-Keeps s, write_endpoint_state-Keeps) depth 20

  degrade_endpoint-Keeps :
      (id : String) (failures : ℕ) (message actor : String) (raw : Option String)
      → Keeps P (degrade_endpoint id failures message actor raw)
  unfolding degrade_endpoint
  degrade_endpoint-Keeps id failures message actor raw =
      search (keeps_rules, transition_endpoint_state-Keeps) depth 20

  fail_endpoint-Keeps :
      (f : Failure) (id : String) (code : ℕ) (message actor : String) (raw : Option String)
      → Keeps P (fail_endpoint f id code message actor raw)
  unfolding fail_endpoint
  fail_endpoint-Keeps auth id code message actor raw =
      search (keeps_rules, transition_endpoint_state-Keeps) depth 20
  fail_endpoint-Keeps rate_limit id code message actor raw =
      search (keeps_rules, transition_endpoint_state-Keeps) depth 20
  fail_endpoint-Keeps other id code message actor raw =
      search (keeps_rules, increment_endpoint_failure-Keeps s, degrade_endpoint-Keeps) depth 20

  pub handle_endpoint_failure-Keeps :
      (id : String) (code : ℕ) (message actor : String) (raw : Option String)
      → Keeps P (handle_endpoint_failure id code message actor raw)
  unfolding handle_endpoint_failure
  handle_endpoint_failure-Keeps id code message actor raw =
      fail_endpoint-Keeps _ id code message actor raw

  succeed_endpoint-Keeps :
      (status : Status) (failures : ℕ) (id actor : String)
      → Keeps P (succeed_endpoint status failures id actor)
  unfolding succeed_endpoint
  succeed_endpoint-Keeps Status.active failures id actor =
      search (keeps_rules, s.clear_endpoint) depth 20
  succeed_endpoint-Keeps _ failures id actor =
      search (keeps_rules, transition_endpoint_state-Keeps) depth 20

  pub handle_endpoint_success-Keeps :
      (id actor : String) → Keeps P (handle_endpoint_success id actor)
  unfolding handle_endpoint_success get_endpoint
  handle_endpoint_success-Keeps id actor = search (keeps_rules, succeed_endpoint-Keeps) depth 20
