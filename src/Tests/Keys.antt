-- ===== src/Tests/Keys.antt =====
-- The statements on virtual keys, at a proxy that answers.
use litellm_control_plane.Common.{
  none, some, [], ◌∷◌, ◌≡◌, ◌≢◌, ◌↔◌, refl, ◌==◌, if◌then◌else◌, select,
}
use mathlib.Core.List.{Memᴰ}
use litellm_control_plane.Table.{by}
use litellm_control_plane.Models.{Status, KeyStatus, Node, ConsumerKey}
use litellm_control_plane.World.{World, returned}
use litellm_control_plane.Adapter.{response, json}
use litellm_control_plane.KeyManager.{Fleet, delete_consumer_from_all_nodes}
use litellm_control_plane.KeyManager.Deleted.{
  revocations, delete_consumer_from_all_nodes-revocations,
}
use litellm_control_plane.Tests.Fixtures.{edge, endpoint_world}

-- A master key for each node, and proxies that give and take keys.
abbrev pub fleet : Fleet
fleet = record {
  getenv = λ name. if name == "LITELLM_MASTER_KEY" then some "sk-master" else none;
  proxies = λ w r. response 200 (json (some "sk-virtual"));
}

abbrev pub proxy : Node
proxy = record edge { role = "proxy" }

abbrev team_key : ConsumerKey
team_key = record {
  consumer_id = "c1";
  node_id = "n1";
  virtual_key = "sk-virtual";
  status = KeyStatus.active;
}

-- One proxy, and one consumer without a key.
abbrev pub proxy_world : World
proxy_world =
    let w : World = endpoint_world Status.active 0 in
    record w { db = record w.db { nodes = proxy ∷ [] } }

-- The consumer has a key.
abbrev key_world : World
key_world = record proxy_world { db = record proxy_world.db { consumer_keys = team_key ∷ [] } }

revoke_example :
    let m = delete_consumer_from_all_nodes fleet "c1" key_world in
    (m.0 ≡ returned tt)
    × (m.1.process.sent
        ≡ revocations fleet key_world.nodes
            (select (by (λ k. k.consumer_id) "c1") key_world.consumer_keys)
            key_world.process.sent)
    × ((x : ConsumerKey)
        → Memᴰ x m.1.consumer_keys ↔ (Memᴰ x key_world.consumer_keys × (x.consumer_id ≢ "c1")))
revoke_example =
    delete_consumer_from_all_nodes-revocations fleet "sk-master" "c1" key_world refl refl
