-- ===== src/Store/Endpoints.antt =====
-- The endpoints of src/registry/store.py, with the endpoint's part of the state machine's helpers.
use litellm_control_plane.Common.{
  ℕ, suc, String, Bool, true, false, Option, none, some, List, get_or,
}
use litellm_control_plane.Table.{by, first, update}
use litellm_control_plane.Models.{ℤ, Status, Override, Endpoint, Dump, Changes}
use litellm_control_plane.World.{
  value_error, Exec, pure, gets, assert_some, except_integrity, or_else, ◌>>=◌, ◌>>◌, modify,
}
use litellm_control_plane.Audit.{log_audit}
use litellm_control_plane.Store.Statements.{insert_endpoint, delete_endpoint_row}

unfoldable pub get_endpoint : String → Exec (Option Endpoint)
get_endpoint endpoint_id = gets λ d. first (by (λ e. e.id) endpoint_id) d.endpoints

unfoldable pub list_endpoints : Exec (List Endpoint)
list_endpoints = gets λ d. d.endpoints

-- `UPDATE endpoints SET f WHERE id = ?`
unfoldable pub update_endpoints : String → (Endpoint → Endpoint) → Exec (Unit {0})
update_endpoints endpoint_id f =
    modify λ d. record d { endpoints = update (by (λ e. e.id) endpoint_id) f d.endpoints }

-- The row that the INSERT writes: its other columns take their defaults, whatever the request says.
unfoldable pub endpoint_row : Endpoint → Endpoint
endpoint_row e = record e { cooldown_until = none; failure_count = 0 }

unfoldable pub create_endpoint : Endpoint → String → Option String → Exec Endpoint
create_endpoint endpoint actor reason =
    except_integrity
      (value_error
        "Endpoint constraints violated. Make sure node_id, account_id, and model_id exist")
      do
        insert_endpoint (endpoint_row endpoint)
        found ← get_endpoint endpoint.id
        created ← assert_some found
        log_audit actor "create" "endpoint" endpoint.id (Changes.row (Dump.endpoint created)) reason
        pure created

unfoldable pub with_routing : ℤ → ℤ → Endpoint → Endpoint
with_routing new_priority new_weight e = record e { priority = new_priority; weight = new_weight }

unfoldable pub update_endpoint_routing :
    String → (priority weight : Option ℤ) → String → Option String → Exec (Option Endpoint)
update_endpoint_routing endpoint_id priority weight actor reason = do
  old ← get_endpoint endpoint_id
  or_else old (pure none) λ before. do
    let new_priority = get_or priority before.priority
    let new_weight = get_or weight before.weight
    update_endpoints endpoint_id (with_routing new_priority new_weight)
    found ← get_endpoint endpoint_id
    after ← assert_some found
    log_audit actor "update_routing" "endpoint" endpoint_id
        (Changes.diff (Dump.endpoint before) (Dump.endpoint after)) reason
    pure (some after)

-- What the UPDATE writes: `active` also clears the cooldown and the failures.
unfoldable pub write_endpoint_status : Status → Override → Endpoint → Endpoint
write_endpoint_status Status.active new_override e = record e {
  status = Status.active;
  manual_override = new_override;
  cooldown_until = none;
  failure_count = 0;
}
write_endpoint_status new_status new_override e = record e {
  status = new_status;
  manual_override = new_override;
}

unfoldable pub update_endpoint_status :
    String → Option Status → Option Override → String → Option String → Exec (Option Endpoint)
update_endpoint_status endpoint_id status manual_override actor reason = do
  old ← get_endpoint endpoint_id
  or_else old (pure none) λ before. do
    let new_status = get_or status before.status
    let new_override = get_or manual_override before.manual_override
    update_endpoints endpoint_id (write_endpoint_status new_status new_override)
    log_audit actor "update_status" "endpoint" endpoint_id
        (Changes.diff (Dump.endpoint before)
          (Dump.endpoint (write_endpoint_status new_status new_override before)))
        reason
    get_endpoint endpoint_id

unfoldable pub delete_endpoint : String → String → Option String → Exec Bool
delete_endpoint endpoint_id actor reason = do
  found ← get_endpoint endpoint_id
  or_else found (pure false) λ endpoint. do
    delete_endpoint_row endpoint_id
    log_audit actor "delete" "endpoint" endpoint_id (Changes.row (Dump.endpoint endpoint)) reason
    pure true

unfoldable pub in_endpoint_cooldown : ℕ → Endpoint → Endpoint
in_endpoint_cooldown until e = record e { status = Status.cooldown; cooldown_until = some until }

unfoldable pub set_endpoint_cooldown : String → ℕ → String → Option String → Exec (Option Endpoint)
set_endpoint_cooldown endpoint_id cooldown_until actor reason = do
  old ← get_endpoint endpoint_id
  or_else old (pure none) λ before. do
    update_endpoints endpoint_id (in_endpoint_cooldown cooldown_until)
    log_audit actor "update_status" "endpoint" endpoint_id
        (Changes.diff (Dump.endpoint before)
          (Dump.endpoint (in_endpoint_cooldown cooldown_until before)))
        reason
    get_endpoint endpoint_id

-- `row[0] if row else 0`
abbrev pub endpoint_failures : Option Endpoint → ℕ
endpoint_failures none = 0
endpoint_failures (some e) = e.failure_count

-- `SET failure_count = failure_count + 1`
unfoldable pub count_endpoint_failure : Endpoint → Endpoint
count_endpoint_failure e = record e { failure_count = suc e.failure_count }

-- `SET failure_count = 0`, in `handle_endpoint_success` of src/health/state_machine.py
unfoldable pub clear_endpoint_failures : Endpoint → Endpoint
clear_endpoint_failures e = record e { failure_count = 0 }

unfoldable pub increment_endpoint_failure : String → Exec ℕ
increment_endpoint_failure endpoint_id = do
  update_endpoints endpoint_id count_endpoint_failure
  row ← get_endpoint endpoint_id
  pure (endpoint_failures row)
