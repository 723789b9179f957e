-- ===== src/Store/Rollouts.antt =====
-- The rollouts of src/registry/store.py.
use litellm_control_plane.Common.{
  String, Bool, true, false, Option, none, some, List, [], ◌∷◌, ◌==◌, ◌&&◌, select, if◌then◌else◌,
}
use litellm_control_plane.Table.{by, first, update}
use litellm_control_plane.Table.Sort.{sort_desc}
use litellm_control_plane.Models.{RolloutStatus, Rollout}
use litellm_control_plane.World.{
  Exec, gets, or_else, pure, raise, type_error, ◌>>=◌, ◌>>◌, modify, utc_now,
}
use litellm_control_plane.Store.Statements.{insert_rollout}

unfoldable pub get_rollout : String → Exec (Option Rollout)
get_rollout rollout_id = gets λ d. first (by (λ r. r.id) rollout_id) d.rollouts

unfoldable pub create_rollout :
    (rollout_id node_id config_version : String)
    → RolloutStatus
    → String
    → Option String
    → Exec Rollout
create_rollout rollout_id node_id config_version status config_content error_message = do
  now ← utc_now
  insert_rollout (record {
    id = rollout_id;
    node_id = node_id;
    config_version = config_version;
    status = status;
    config_content = config_content;
    error_message = error_message;
    timestamp = now;
  })
  row ← get_rollout rollout_id
  or_else row (raise type_error) pure

-- `UPDATE rollouts SET f WHERE id = ?`
unfoldable pub update_rollouts : String → (Rollout → Rollout) → Exec (Unit {0})
update_rollouts rollout_id f =
    modify λ d. record d { rollouts = update (by (λ r. r.id) rollout_id) f d.rollouts }

unfoldable pub with_rollout_status : RolloutStatus → Option String → Rollout → Rollout
with_rollout_status status error_message r = record r {
  status = status;
  error_message = error_message;
}

unfoldable pub update_rollout_status :
    String → RolloutStatus → Option String → Exec (Option Rollout)
update_rollout_status rollout_id status error_message = do
  update_rollouts rollout_id (with_rollout_status status error_message)
  get_rollout rollout_id

-- `WHERE node_id = ? AND status = 'success'`
abbrev pub is_success : RolloutStatus → Bool
is_success RolloutStatus.success = true
is_success _ = false

unfoldable pub success_on : String → Rollout → Bool
success_on node_id r = r.node_id == node_id && is_success r.status

abbrev pub head? : List Rollout → Option Rollout
head? [] = none
head? (r ∷ rs) = some r

unfoldable pub get_latest_success_rollout : String → Exec (Option Rollout)
get_latest_success_rollout node_id =
    gets λ d. head? (sort_desc (λ r. r.timestamp) (select (success_on node_id) d.rollouts))

-- `if node_id:`, which takes the empty text for no text
abbrev pub rollouts_of : Option String → List Rollout → List Rollout
rollouts_of none rollouts = rollouts
rollouts_of (some node_id) rollouts =
    if node_id == "" then rollouts else select (by (λ r. r.node_id) node_id) rollouts

unfoldable pub list_rollouts : Option String → Exec (List Rollout)
list_rollouts node_id = gets λ d. sort_desc (λ r. r.timestamp) (rollouts_of node_id d.rollouts)
