-- ===== src/Tests/Events.antt =====
-- The statements on callbacks, at a failure of an endpoint and at an event that names none.
use litellm_control_plane.Health.StateMachine.{is_auth_error}
use litellm_control_plane.Common.Text.{contains_lower, contains}
use litellm_control_plane.Common.{some, ◌≡◌, refl}
use litellm_control_plane.Models.{Status}
use litellm_control_plane.World.{◌>>=◌, World}
use litellm_control_plane.Events.Payload.{get, has_key, text, object, Fields, field, end}
use litellm_control_plane.Events.{
  code_of, error_of, error_block, classify_error, is_failure, Python, int, process_item,
}
use litellm_control_plane.Events.Scope.{process_item-accounts}
use litellm_control_plane.Tests.Fixtures.{endpoint_world}

abbrev python : Python
python = record { str = λ v. "boom"; dumps = λ v. "{}"; int_of = λ v. int 500 }

abbrev failed : Fields
failed = field "error" (text "boom") end

-- An event on an endpoint that is not there.
abbrev stray : Fields
stray = field "metadata" (object (field "endpoint_id" (text "nope") end)) end

abbrev start : World
start = endpoint_world Status.active 0

scope_example :
    (process_item python failed (some "e1") (some "a1") start).1.accounts ≡ start.accounts
unfolding is_failure has_key classify_error ◌>>=◌ error_block error_of get code_of contains
    contains_lower is_auth_error
scope_example = process_item-accounts python failed "e1" (some "a1") 500 "boom" start refl refl refl
