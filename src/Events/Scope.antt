-- ===== src/Events/Scope.antt =====
-- Which rows a callback of src/events/ingestion.py touches.
use litellm_control_plane.Common.{
  ℕ, String, Bool, true, false, Option, some, List, ◌≡◌, refl, if◌then◌else◌, ◌||◌, not,
}
use litellm_control_plane.Models.{Status, Account, Endpoint, Incident, AuditEntry}
use litellm_control_plane.World.{Db, World, Exec, returned, pure, ◌>>=◌, modify}
use litellm_control_plane.World.Keeps.{
  Keeps, Keeps-modify, Keeps-statement, Keeps-pure, Keeps-bind, Keeps-or_else, keeps_rules,
}
use litellm_control_plane.World.Runs.{bind_to, bind_same}
use litellm_control_plane.Audit.{log_audit, insert_audit}
use litellm_control_plane.Store.Statements.{insert_incident}
use litellm_control_plane.Store.Incidents.{create_incident}
use litellm_control_plane.Store.Endpoints.{
  get_endpoint, update_endpoints, update_endpoint_status, set_endpoint_cooldown,
  increment_endpoint_failure,
}
use litellm_control_plane.Health.StateMachine.{
  Failure, auth, rate_limit, other, is_auth_error, fail_endpoint, degrade_endpoint,
  transition_endpoint_state, write_endpoint_state, handle_endpoint_failure,
}
use litellm_control_plane.Events.Payload.{Fields}
use litellm_control_plane.Events.{
  Python, is_failure, extract_raw_response, classify_error, report_failure, process_item,
}

-- The accounts are `accounts`.
abbrev Accounts : List Account → Db → Type 0
Accounts accounts d = d.accounts ≡ accounts

module _ (accounts : List Account) where
  update_endpoints-Accounts :
      (id : String) (f : Endpoint → Endpoint) → Keeps (Accounts accounts) (update_endpoints id f)
  unfolding update_endpoints
  update_endpoints-Accounts id f = Keeps-modify _ λ d h. h

  insert_audit-Accounts : (e : AuditEntry) → Keeps (Accounts accounts) (modify (insert_audit e))
  unfolding insert_audit
  insert_audit-Accounts e = Keeps-modify _ λ d h. h

  insert_incident-Accounts : (i : Incident) → Keeps (Accounts accounts) (insert_incident i)
  unfolding insert_incident
  insert_incident-Accounts i = Keeps-statement _ _ λ d fresh h. h

  transition-Accounts :
      (id : String) (next : Status) (actor : String) (reason raw : Option String)
      → Keeps (Accounts accounts) (transition_endpoint_state id next actor reason raw)
  unfolding transition_endpoint_state write_endpoint_state get_endpoint create_incident
      update_endpoint_status set_endpoint_cooldown log_audit
  transition-Accounts id next actor reason raw =
      search
        (keeps_rules, update_endpoints-Accounts, insert_audit-Accounts, insert_incident-Accounts)
        depth 30

  degrade-Accounts :
      (id : String) (failures : ℕ) (message actor : String) (raw : Option String)
      → Keeps (Accounts accounts) (degrade_endpoint id failures message actor raw)
  unfolding degrade_endpoint
  degrade-Accounts id failures message actor raw =
      search (keeps_rules, transition-Accounts) depth 20

  fail-Accounts :
      (f : Failure) (id : String) (code : ℕ) (message actor : String) (raw : Option String)
      → Keeps (Accounts accounts) (fail_endpoint f id code message actor raw)
  unfolding fail_endpoint increment_endpoint_failure get_endpoint
  fail-Accounts auth id code message actor raw = search (keeps_rules, transition-Accounts) depth 20
  fail-Accounts rate_limit id code message actor raw =
      search (keeps_rules, transition-Accounts) depth 20
  fail-Accounts other id code message actor raw =
      search (keeps_rules, update_endpoints-Accounts, degrade-Accounts) depth 20

  skip-Accounts :
      (b : Bool) (m : Exec (Unit {0}))
      → b ≡ false
      → Keeps (Accounts accounts) (if b || not true then m else pure tt)
  skip-Accounts b m h = rw h (Keeps-pure tt)

  report-Accounts :
      (python : Python) (id : String) (account_id : Option String) (code : ℕ) (message : String)
      (raw : Option String)
      → is_auth_error code message ≡ false
      → Keeps
          (Accounts accounts)
          (report_failure python (some id) account_id code message raw >>= λ _. pure true)
  unfolding report_failure handle_endpoint_failure
  report-Accounts python id account_id code message raw h =
      Keeps-bind _ _
        (Keeps-bind _ _
          (Keeps-or_else _ _ _ (Keeps-pure tt) λ i. fail-Accounts _ i code message _ raw)
          λ _. Keeps-or_else account_id _ _ (Keeps-pure tt) λ i. skip-Accounts _ _ h)
        λ _. Keeps-pure true

-- A failure of an endpoint that is not an authentication error leaves the table of accounts as it
-- is, whether the handlers return or raise, also where the event names an account.
pub process_item-accounts :
    (python : Python) (item : Fields) (id : String) (account_id : Option String) (code : ℕ)
    (message : String) (w : World)
    → is_failure python item ≡ true
    → classify_error python item w ≡ (returned (code, message), w)
    → is_auth_error code message ≡ false
    → (process_item python item (some id) account_id w).1.accounts ≡ w.accounts
unfolding process_item
process_item-accounts python item id account_id code message w failing classified plain =
    let raw = extract_raw_response python item in
    let step : process_item python item (some id) account_id w
        ≡ (report_failure python (some id) account_id code message raw >>= λ _. pure true) w =
      rw failing (bind_same _ _ _ (bind_to _ _ classified)) in
    rw step ((report-Accounts w.accounts python id account_id code message raw plain).at w refl)
