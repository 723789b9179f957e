-- ===== src/Tests/Registry.antt =====
-- The statements on the registry, the policy and the summary, at concrete rows.
use litellm_control_plane.Common.{none, some, List, [], ◌∷◌, ◌++◌, ◌≡◌, refl, if◌then◌else◌, any}
use litellm_control_plane.Table.{by, first, has}
use litellm_control_plane.Models.{Status, Endpoint, ConsumerUpdate, Changes, Dump}
use litellm_control_plane.World.{World, returned, raised, integrity_error, value_error}
use litellm_control_plane.Audit.{entry_at, with_entry}
use litellm_control_plane.Store.Endpoints.{create_endpoint}
use litellm_control_plane.Store.Consumers.{update_consumer}
use litellm_control_plane.Store.PolicyProfiles.{delete_policy_profile}
use litellm_control_plane.Store.Creation.{endpoint_rejected, create_endpoint_lem}
use litellm_control_plane.Store.Deletion.{delete_policy_profile-consumers, update_consumer-dangling}
use litellm_control_plane.Tests.Fixtures.{team, endpoint_in, account_world}

abbrev start : World
start = account_world Status.active 0

abbrev third : Endpoint
third = record (endpoint_in Status.active 5) { id = "e2" }

create_endpoint_example : create_endpoint third "ops" none start ≡ (
    if endpoint_rejected third start.db
    then (
      raised (
          value_error
            "Endpoint constraints violated. Make sure node_id, account_id, and model_id exist"),
      start,
    )
    else (
      returned (record third { cooldown_until = none; failure_count = 0 }),
      with_entry
          (entry_at start "ops" "create" "endpoint" "e2"
            (Changes.row
              (Dump.endpoint (record third { cooldown_until = none; failure_count = 0 })))
            none)
          (record start {
            db = record start.db {
              endpoints =
                  start.endpoints
                  ++ (record third { cooldown_until = none; failure_count = 0 }) ∷ [];
            };
          }),
    ))
create_endpoint_example = create_endpoint_lem third "ops" none start

delete_policy_profile_example :
    (delete_policy_profile "pp1" "ops" none start).1.consumers ≡ team ∷ []
delete_policy_profile_example = delete_policy_profile-consumers "pp1" "ops" none start

abbrev to_nowhere : ConsumerUpdate
to_nowhere = record {
  name = none;
  max_budget = none;
  rate_limit_rpm = none;
  rate_limit_tpm = none;
  status = none;
  profile_id = some "pp9";
}

update_consumer_example :
    update_consumer "c1" to_nowhere "ops" none start ≡ (raised integrity_error, start)
unfolding first by has any
update_consumer_example =
    update_consumer-dangling "c1" "pp9" team to_nowhere "ops" none start refl refl refl
