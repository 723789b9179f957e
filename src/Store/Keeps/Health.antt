-- ===== src/Store/Keeps/Health.antt =====
-- An invariant that every statement keeps is kept by every operation on accounts and endpoints
-- of src/registry/store.py, whether it returns or raises.
use litellm_control_plane.Common.{ℕ, String, Option}
use litellm_control_plane.Models.{ℤ, Status, Override, Account, Endpoint}
use litellm_control_plane.World.{Db}
use litellm_control_plane.World.Keeps.{Keeps, keeps_rules}
use litellm_control_plane.Store.Keeps.{KeepsStatements}
use litellm_control_plane.Store.Keeps.Audit.{log_audit-Keeps}
use litellm_control_plane.Store.Accounts.{
  get_account, create_account, update_account_status, delete_account, set_account_cooldown,
  increment_account_failure,
}
use litellm_control_plane.Store.Endpoints.{
  get_endpoint, update_endpoints, create_endpoint, update_endpoint_routing, update_endpoint_status,
  delete_endpoint, set_endpoint_cooldown, increment_endpoint_failure,
}

module _ {P : Db → Type 0} (s : KeepsStatements P) where
  pub create_account-Keeps :
      (account : Account) (actor : String) (reason : Option String)
      → Keeps P (create_account account actor reason)
  unfolding create_account get_account
  create_account-Keeps account actor reason =
      search (keeps_rules, s.insert_account_law, log_audit-Keeps s) depth 20

  pub update_account_status-Keeps :
      (id : String) (status : Status) (actor : String) (reason : Option String)
      → Keeps P (update_account_status id status actor reason)
  unfolding update_account_status get_account
  update_account_status-Keeps id status actor reason =
      search (keeps_rules, s.write_account, log_audit-Keeps s) depth 20

  pub delete_account-Keeps :
      (id actor : String) (reason : Option String) → Keeps P (delete_account id actor reason)
  unfolding delete_account get_account
  delete_account-Keeps id actor reason =
      search (keeps_rules, s.delete_account_row_law, log_audit-Keeps s) depth 20

  pub set_account_cooldown-Keeps :
      (id : String) (until : ℕ) (actor : String) (reason : Option String)
      → Keeps P (set_account_cooldown id until actor reason)
  unfolding set_account_cooldown get_account
  set_account_cooldown-Keeps id until actor reason =
      search (keeps_rules, s.cool_account, log_audit-Keeps s) depth 20

  pub increment_account_failure-Keeps : (id : String) → Keeps P (increment_account_failure id)
  unfolding increment_account_failure get_account
  increment_account_failure-Keeps id = search (keeps_rules, s.count_account) depth 20

  pub create_endpoint-Keeps :
      (endpoint : Endpoint) (actor : String) (reason : Option String)
      → Keeps P (create_endpoint endpoint actor reason)
  unfolding create_endpoint get_endpoint
  create_endpoint-Keeps endpoint actor reason =
      search (keeps_rules, s.insert_endpoint_law, log_audit-Keeps s) depth 20

  pub update_endpoint_routing-Keeps :
      (id : String) (priority weight : Option ℤ) (actor : String) (reason : Option String)
      → Keeps P (update_endpoint_routing id priority weight actor reason)
  unfolding update_endpoint_routing get_endpoint update_endpoints
  update_endpoint_routing-Keeps id priority weight actor reason =
      search (keeps_rules, s.route_endpoint, log_audit-Keeps s) depth 20

  pub update_endpoint_status-Keeps :
      (id : String) (status : Option Status) (override : Option Override) (actor : String)
      (reason : Option String)
      → Keeps P (update_endpoint_status id status override actor reason)
  unfolding update_endpoint_status get_endpoint
  update_endpoint_status-Keeps id status override actor reason =
      search (keeps_rules, s.write_endpoint, log_audit-Keeps s) depth 20

  pub delete_endpoint-Keeps :
      (id actor : String) (reason : Option String) → Keeps P (delete_endpoint id actor reason)
  unfolding delete_endpoint get_endpoint
  delete_endpoint-Keeps id actor reason =
      search (keeps_rules, s.delete_endpoint_row_law, log_audit-Keeps s) depth 20

  pub set_endpoint_cooldown-Keeps :
      (id : String) (until : ℕ) (actor : String) (reason : Option String)
      → Keeps P (set_endpoint_cooldown id until actor reason)
  unfolding set_endpoint_cooldown get_endpoint
  set_endpoint_cooldown-Keeps id until actor reason =
      search (keeps_rules, s.cool_endpoint, log_audit-Keeps s) depth 20

  pub increment_endpoint_failure-Keeps : (id : String) → Keeps P (increment_endpoint_failure id)
  unfolding increment_endpoint_failure get_endpoint
  increment_endpoint_failure-Keeps id = search (keeps_rules, s.count_endpoint) depth 20
