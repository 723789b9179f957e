-- ===== src/Tests/Api.antt =====
-- The statements on the requests and the background task of the API, at a site with one proxy.
use litellm_control_plane.Table.{by, first}
use litellm_control_plane.Common.{none, ◌≡◌, refl}
use litellm_control_plane.Models.{Status}
use litellm_control_plane.World.{pure, or_else, returned}
use litellm_control_plane.Store.Consistency.{IsConsistent}
use litellm_control_plane.Api.{get_actor}
use litellm_control_plane.Api.Access.{delete_consumer_route}
use litellm_control_plane.Api.Access.Deletion.{
  ConsumerRevoked, delete_consumer_route-ConsumerRevoked,
}
use litellm_control_plane.Api.Worker.{reconcile_loop}
use litellm_control_plane.Api.Worker.Keeps.{reconcile_loop-IsConsistent}
use litellm_control_plane.Tests.Fixtures.{team, endpoint_world}
use litellm_control_plane.Tests.Requests.{start-IsConsistent}
use litellm_control_plane.Tests.Probes.{upstream_500}
use litellm_control_plane.Tests.Keys.{fleet, proxy_world}
use litellm_control_plane.Tests.Rollouts.{site}

reconcile_loop_example :
    IsConsistent (reconcile_loop upstream_500 site 3 120 (endpoint_world Status.active 0)).1.db
reconcile_loop_example =
    reconcile_loop-IsConsistent upstream_500 site 3 120 (endpoint_world Status.active 0)
      start-IsConsistent

delete_route_example :
    let m = delete_consumer_route fleet none "c1" proxy_world in
    (m.0 ≡ returned tt) × ConsumerRevoked fleet "c1" proxy_world m.1
unfolding get_actor or_else pure first by
delete_route_example =
    delete_consumer_route-ConsumerRevoked fleet "sk-master" "admin-api" "c1" none team proxy_world
      refl refl refl refl
