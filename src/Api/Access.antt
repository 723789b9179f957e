-- ===== src/Api/Access.antt =====
-- The routes of consumers and policy profiles of src/api/routes.py.
pub mod Deletion
use litellm_control_plane.Common.{String, Option, none, some, List}
use litellm_control_plane.Models.{
  Consumer, ConsumerUpdate, ConsumerKey, PolicyProfile, PolicyProfileUpdate,
}
use litellm_control_plane.World.{Exec, pure, ◌>>=◌, ◌>>◌}
use litellm_control_plane.Store.Consumers.{
  create_consumer, list_consumers, get_consumer, update_consumer, delete_consumer,
}
use litellm_control_plane.Store.ConsumerKeys.{list_consumer_keys}
use litellm_control_plane.Store.PolicyProfiles.{
  create_policy_profile, list_policy_profiles, get_policy_profile, update_policy_profile,
  delete_policy_profile,
}
use litellm_control_plane.KeyManager.{
  Fleet, sync_consumer_to_all_nodes, delete_consumer_from_all_nodes,
}
use litellm_control_plane.Api.{get_actor, bad_request, found_or_404, deleted_or_404}

unfoldable pub list_consumers_route : Exec (List Consumer)
list_consumers_route = list_consumers

unfoldable pub get_consumer_route : String → Exec Consumer
get_consumer_route id = do consumer ← get_consumer id; found_or_404 "Consumer not found" consumer

unfoldable pub list_consumer_keys_route : String → Exec (List ConsumerKey)
list_consumer_keys_route id = list_consumer_keys (some id)

module _ (fleet : Fleet) where
  unfoldable pub create_consumer_route : (x_actor : Option String) → Consumer → Exec Consumer
  create_consumer_route x_actor consumer = do
    actor ← get_actor x_actor
    bad_request do
      res ← create_consumer consumer actor none
      sync_consumer_to_all_nodes fleet res.id
      pure res

  unfoldable pub update_consumer_route :
      (x_actor : Option String) → String → ConsumerUpdate → Exec Consumer
  update_consumer_route x_actor id update = do
    actor ← get_actor x_actor
    updated ← update_consumer id update actor none
    res ← found_or_404 "Consumer not found" updated
    sync_consumer_to_all_nodes fleet res.id
    pure res

  unfoldable pub delete_consumer_route : (x_actor : Option String) → String → Exec (Unit {0})
  delete_consumer_route x_actor id = do
    actor ← get_actor x_actor
    consumer ← get_consumer id
    found_or_404 "Consumer not found" consumer
    delete_consumer_from_all_nodes fleet id
    delete_consumer id actor none
    pure tt

unfoldable pub create_policy_profile_route :
    (x_actor : Option String) → PolicyProfile → Exec PolicyProfile
create_policy_profile_route x_actor policy_profile = do
  actor ← get_actor x_actor
  bad_request (create_policy_profile policy_profile actor none)

unfoldable pub list_policy_profiles_route : Exec (List PolicyProfile)
list_policy_profiles_route = list_policy_profiles

unfoldable pub get_policy_profile_route : String → Exec PolicyProfile
get_policy_profile_route id = do
  policy_profile ← get_policy_profile id
  found_or_404 "Policy profile not found" policy_profile

unfoldable pub delete_policy_profile_route : (x_actor : Option String) → String → Exec (Unit {0})
delete_policy_profile_route x_actor id = do
  actor ← get_actor x_actor
  bad_request do
    deleted ← delete_policy_profile id actor none
    deleted_or_404 "Policy profile not found" deleted

unfoldable pub update_policy_profile_route :
    (x_actor : Option String) → String → PolicyProfileUpdate → Exec PolicyProfile
update_policy_profile_route x_actor id update = do
  actor ← get_actor x_actor
  policy_profile ← update_policy_profile id update actor none
  found_or_404 "Policy profile not found" policy_profile
