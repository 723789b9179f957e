-- ===== src/Policy.antt =====
-- src/policy/engine.py. The log lines are not modelled.
pub mod Selection
pub mod Access
use litellm_control_plane.Common.{
  ℕ, String, Bool, true, false, Option, none, some, List, [], ◌∷◌, ◌==◌, ◌&&◌, ◌||◌, not, any,
  select, is_some, if◌then◌else◌,
}
use litellm_control_plane.Common.Text.{contains}
use litellm_control_plane.Table.{by, first}
use litellm_control_plane.Models.{
  Status, Override, ConsumerStatus, JsonItem, JsonText, Endpoint, Model, Account, Consumer,
  PolicyProfile, item, other, malformed, atom, array, object, quoted,
}
use litellm_control_plane.World.{Db, type_error, Exec, pure, raise, gets, or_else, ◌>>=◌}
use litellm_control_plane.Store.Accounts.{get_account}
use litellm_control_plane.Store.Consumers.{get_consumer}
use litellm_control_plane.Store.PolicyProfiles.{get_policy_profile}

abbrev pub is_item : String → JsonItem → Bool
is_item group (item t) = t == group
is_item group other = false

-- `model_group in json.loads(text)`; `none` where `json.loads` raises. The inner Option is `none`
-- where `in` raises, on a number, a truth value or null.
unfoldable pub group_allowed : String → JsonText → Option (Option Bool)
unfolding any
group_allowed group malformed = none
group_allowed group atom = some none
group_allowed group (array items) = some (some (any (is_item group) items))
group_allowed group (object keys) = some (some (any (λ k. k == group) keys))
group_allowed group (quoted t) = some (some (contains group t))

-- `ep_status in ("disabled", "cooldown", "degraded")`
abbrev pub endpoint_blocked : Status → Bool
endpoint_blocked Status.disabled = true
endpoint_blocked Status.cooldown = true
endpoint_blocked Status.degraded = true
endpoint_blocked _ = false

-- `acc_status in ("disabled", "inactive")`
abbrev pub account_off : Status → Bool
account_off Status.disabled = true
account_off Status.inactive = true
account_off _ = false

-- `acc_status in ("disabled", "inactive", "cooldown")`
abbrev pub account_blocked : Status → Bool
account_blocked Status.cooldown = true
account_blocked s = account_off s

-- The exclusion checks, `true` where the loop reaches `append`.
unfoldable pub is_routable : Override → (ep_status acc_status : Status) → Bool
is_routable Override.force_disabled ep_status acc_status = false
is_routable Override.force_active ep_status acc_status = not (account_off acc_status)
is_routable Override.unset ep_status acc_status =
    if endpoint_blocked ep_status then false else not (account_blocked acc_status)

-- `WHERE m.logical_group = ?` after the joins: the endpoint's model is in the group, and its
-- account is there.
unfoldable pub in_group : Db → String → Endpoint → Bool
in_group d group e = elim (first (by (λ m. m.id) e.model_id) d.models) [
  | none ↦ false
  | some m ↦ m.logical_group == group && is_some (first (by (λ a. a.id) e.account_id) d.accounts)
]

-- `acc = store.get_account(…)`, and the checks
unfoldable pub is_candidate : Db → Endpoint → Bool
is_candidate d e = elim (first (by (λ a. a.id) e.account_id) d.accounts) [
  | none ↦ false
  | some acc ↦ is_routable e.manual_override e.status acc.status
]

-- The loop over the endpoints of the group.
unfoldable pub candidates_of : Db → String → List Endpoint
candidates_of d group = select (is_candidate d) (select (in_group d group) d.endpoints)

abbrev pub decide_group : String → Option (Option Bool) → Exec (List Endpoint)
decide_group group none = pure []
decide_group group (some none) = raise type_error
decide_group group (some (some false)) = pure []
decide_group group (some (some true)) = gets λ d. candidates_of d group

abbrev pub is_active : ConsumerStatus → Bool
is_active ConsumerStatus.active = true
is_active ConsumerStatus.disabled = false

-- `not consumer.profile_id`: NULL or the empty text
abbrev pub given : Option String → Option String
given none = none
given (some t) = if t == "" then none else some t

unfoldable pub get_candidate_endpoints : (consumer_id model_group : String) → Exec (List Endpoint)
get_candidate_endpoints consumer_id model_group = do
  found ← get_consumer consumer_id
  or_else found (pure []) λ consumer.
      if not (is_active consumer.status)
      then pure []
      else or_else (given consumer.profile_id) (pure []) λ profile_id. do
        row ← get_policy_profile profile_id
        or_else row (pure []) λ profile.
            decide_group model_group (group_allowed model_group profile.allowed_model_groups)
