-- ===== src/Api/Resources.antt =====
-- The routes of accounts and endpoints of src/api/routes.py.
use litellm_control_plane.Common.{
  String, Bool, true, false, Option, none, some, List, ◌==◌, ◌||◌, if◌then◌else◌,
}
use litellm_control_plane.Models.{ℤ, Status, Override, Account, Endpoint}
use litellm_control_plane.World.{Exec, http_error, value_error, pure, raise, or_else, ◌>>=◌, ◌>>◌}
use litellm_control_plane.Store.Accounts.{
  create_account, list_accounts, get_account, delete_account, update_account_status,
}
use litellm_control_plane.Store.Endpoints.{
  create_endpoint, list_endpoints, get_endpoint, delete_endpoint, update_endpoint_routing,
  update_endpoint_status,
}
use litellm_control_plane.Api.{get_actor, bad_request, found_or_404, deleted_or_404}

unfoldable pub create_account_route : (x_actor : Option String) → Account → Exec Account
create_account_route x_actor account = do
  actor ← get_actor x_actor
  bad_request (create_account account actor none)

unfoldable pub list_accounts_route : Exec (List Account)
list_accounts_route = list_accounts

unfoldable pub get_account_route : String → Exec Account
get_account_route id = do account ← get_account id; found_or_404 "Account not found" account

unfoldable pub delete_account_route : (x_actor : Option String) → String → Exec (Unit {0})
delete_account_route x_actor id = do
  actor ← get_actor x_actor
  bad_request do deleted ← delete_account id actor none; deleted_or_404 "Account not found" deleted

-- `status_val not in ["active", "inactive", "cooldown", "disabled"]`
unfoldable pub account_status : String → Option Status
account_status status_val =
    if status_val == "active"
    then some Status.active
    else if status_val == "inactive"
    then some Status.inactive
    else if status_val == "cooldown"
    then some Status.cooldown
    else if status_val == "disabled"
    then some Status.disabled
    else none

unfoldable pub update_account_status_route :
    (x_actor : Option String) → (id status_val : String) → Exec Account
update_account_status_route x_actor id status_val = do
  actor ← get_actor x_actor
  or_else (account_status status_val) (raise (http_error 400 "Invalid status value")) λ status. do
    account ← update_account_status id status actor none
    found_or_404 "Account not found" account

unfoldable pub enable_account_route : (x_actor : Option String) → String → Exec (Option Account)
enable_account_route x_actor id = do
  actor ← get_actor x_actor
  acc ← get_account id
  found_or_404 "Account not found" acc
  update_account_status id Status.active actor (some "Manual re-enable by operator")

unfoldable pub create_endpoint_route : (x_actor : Option String) → Endpoint → Exec Endpoint
create_endpoint_route x_actor endpoint = do
  actor ← get_actor x_actor
  bad_request (create_endpoint endpoint actor none)

unfoldable pub list_endpoints_route : Exec (List Endpoint)
list_endpoints_route = list_endpoints

unfoldable pub get_endpoint_route : String → Exec Endpoint
get_endpoint_route id = do endpoint ← get_endpoint id; found_or_404 "Endpoint not found" endpoint

unfoldable pub delete_endpoint_route : (x_actor : Option String) → String → Exec (Unit {0})
delete_endpoint_route x_actor id = do
  actor ← get_actor x_actor
  deleted ← delete_endpoint id actor none
  deleted_or_404 "Endpoint not found" deleted

unfoldable pub update_endpoint_routing_route :
    (x_actor : Option String) → String → (priority weight : Option ℤ) → Exec Endpoint
update_endpoint_routing_route x_actor id priority weight = do
  actor ← get_actor x_actor
  endpoint ← update_endpoint_routing id priority weight actor none
  found_or_404 "Endpoint not found" endpoint

-- `status_val not in ["active", "degraded", "cooldown", "disabled"]`
unfoldable pub endpoint_status : String → Option Status
endpoint_status status_val =
    if status_val == "active"
    then some Status.active
    else if status_val == "degraded"
    then some Status.degraded
    else if status_val == "cooldown"
    then some Status.cooldown
    else if status_val == "disabled"
    then some Status.disabled
    else none

-- `manual_override not in ["none", "force-active", "force-disabled"]`
unfoldable pub override_of : String → Option Override
override_of manual_override =
    if manual_override == "none"
    then some Override.unset
    else if manual_override == "force-active"
    then some Override.force_active
    else if manual_override == "force-disabled"
    then some Override.force_disabled
    else none

-- A parameter of the query: missing, the empty text, or a value of the column.
pub data Parameter (A : Type 0) : Type 0 where
  missing blank : Parameter A
  value : A → Parameter A

-- `if value and value not in …: raise HTTPException(400, …)`: an empty text passes.
unfoldable pub checked :
    {A : Type 0} → String → (String → Option A) → Option String → Exec (Parameter A)
checked detail parse none = pure missing
checked detail parse (some text) =
    if text == ""
    then pure blank
    else or_else (parse text) (raise (http_error 400 detail)) λ a. pure (value a)

abbrev pub is_blank : {A : Type 0} → Parameter A → Bool
is_blank blank = true
is_blank _ = false

abbrev pub given_value : {A : Type 0} → Parameter A → Option A
given_value (value a) = some a
given_value _ = none

-- The store writes an empty text, and the row that it reads back with it is refused by its class:
-- a `ValueError`, after which the write is rolled back.
unfoldable pub update_endpoint_status_route :
    (x_actor : Option String)
    → String
    → (status_val manual_override : Option String) → Exec Endpoint
update_endpoint_status_route x_actor id status_val manual_override = do
  actor ← get_actor x_actor
  status ← checked "Invalid status value" endpoint_status status_val
  override ← checked "Invalid manual_override value" override_of manual_override
  if is_blank status || is_blank override
      then (do
        found ← get_endpoint id
        found_or_404 "Endpoint not found" found
        raise (value_error "Input should be one of the values of the column"))
      else (do
        endpoint ← update_endpoint_status id (given_value status) (given_value override) actor none
        found_or_404 "Endpoint not found" endpoint)

unfoldable pub enable_endpoint_route : (x_actor : Option String) → String → Exec (Option Endpoint)
enable_endpoint_route x_actor id = do
  actor ← get_actor x_actor
  ep ← get_endpoint id
  found_or_404 "Endpoint not found" ep
  update_endpoint_status id (some Status.active) none actor (some "Manual re-enable by operator")
