-- ===== src/Api.antt =====
-- src/api/routes.py and src/api/main.py: what a route does besides the function it calls. FastAPI
-- itself, the check of the bodies and the served texts are not modelled; a body is the row that it
-- describes.
pub mod Topology
pub mod Resources
pub mod Access
pub mod Operations
pub mod Worker
pub mod Actors
use litellm_control_plane.Common.{
  ℕ, String, Bool, true, false, Option, none, some, List, [], ◌∷◌, ◌==◌, any, if◌then◌else◌,
}
use litellm_control_plane.Common.Text.{truthy}
use litellm_control_plane.World.{
  Exec, Error, value_error, http_error, pure, raise, or_else, except_any,
}

-- `_RESERVED_ACTORS`
abbrev pub reserved_actors : List String
reserved_actors =
    "system" ∷ "reconcile-worker" ∷ "probe" ∷ "probe-engine" ∷ "key-manager" ∷ "callback-ingest"
    ∷ "rollout-orchestrator" ∷ []

unfoldable pub is_reserved : String → Bool
is_reserved actor = any (λ name. name == actor) reserved_actors

-- The detail of the response, which names the actor, is shortened.
unfoldable pub get_actor : (x_actor : Option String) → Exec String
get_actor x_actor = or_else (truthy x_actor) (pure "admin-api") λ actor.
    if is_reserved actor
    then raise (http_error 400 "Actor name is reserved for internal system use.")
    else pure actor

-- `get_api_key` and `get_callback_key`, with the key of the environment.
unfoldable pub get_key : (detail expected : String) → Option String → Exec String
get_key detail expected key =
    or_else (truthy key) (raise (http_error 401 detail))
      λ k. if k == expected then pure k else raise (http_error 401 detail)

unfoldable pub get_api_key : (admin_key : String) → Option String → Exec String
get_api_key admin_key api_key = get_key "Could not validate credentials" admin_key api_key

unfoldable pub get_callback_key : (callback_token : String) → Option String → Exec String
get_callback_key callback_token token =
    get_key "Invalid or missing callback token" callback_token token

-- `except ValueError as e: raise HTTPException(400, detail=str(e))`
abbrev pub as_bad_request : {A : Type 0} → Error → Exec A
as_bad_request (value_error text) = raise (http_error 400 text)
as_bad_request e = raise e

unfoldable pub bad_request : {A : Type 0} → Exec A → Exec A
bad_request body = except_any body as_bad_request

-- `if not row: raise HTTPException(404, detail=…)`, and the row
unfoldable pub found_or_404 : {A : Type 0} → String → Option A → Exec A
found_or_404 detail row = or_else row (raise (http_error 404 detail)) pure

-- The same for a deletion.
unfoldable pub deleted_or_404 : String → Bool → Exec (Unit {0})
deleted_or_404 detail deleted = if deleted then pure tt else raise (http_error 404 detail)
