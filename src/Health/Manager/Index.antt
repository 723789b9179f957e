-- ===== src/Health/Manager/Index.antt =====
-- The summary of src/health/manager.py against a direct reading of the endpoints of each node.
use litellm_control_plane.Common.{String, List, [], ◌∷◌, ◌==◌, select, length, map, if◌then◌else◌}
use litellm_control_plane.Models.{Node, Endpoint}
use litellm_control_plane.World.{World}
use litellm_control_plane.Health.Manager.{aggregate, NodeSummary}

-- The endpoint, where it is the node's.
abbrev its_own : String → Endpoint → List Endpoint
its_own id e = if e.node_id == id then e ∷ [] else []

-- The summary of one node, read from the table of the endpoints.
abbrev pub direct_summary : List Endpoint → Node → NodeSummary
direct_summary endpoints n =
    let own = select (λ e. e.node_id == n.id) endpoints in
    record {
      id = n.id;
      name = n.name;
      region = n.region;
      role = n.role;
      status = n.status;
      health = aggregate n.status (map (λ e. e.status) own);
      endpoint_count = length own;
    }
