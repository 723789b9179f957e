-- ===== src/Orchestrator/Deployed.antt =====
-- What a deployment that returns has done: `deploy_config` of src/rollout/orchestrator.py.
use litellm_control_plane.Common.{String, Bool, true, none, some, ◌≡◌}
use litellm_control_plane.Models.{RolloutStatus, Node}
use litellm_control_plane.Process.{assign}
use litellm_control_plane.World.{World, ◌>>◌}
use litellm_control_plane.Orchestrator.{Site}
use litellm_control_plane.Orchestrator.Deploy.{Deployment}
use litellm_control_plane.KeyManager.{adapter_of, master_key}
use litellm_control_plane.Orchestrator.Polling.{IsHealthy}
use litellm_control_plane.Orchestrator.Recorded.{Recorded, with_status}
use litellm_control_plane.Orchestrator.Rendered.{Rendered}

-- The configuration `content` is in the file and on record as a success, and the proxy of the node
-- has answered a health check with 200 while it was in the file.
pub record Deployed (site : Site) (path : String) (node : Node) (content : String) (d : Deployment)
    (w : World) : Type 0 where
  pub on_disk : w.process.files path ≡ some content
  pub version : d.config_version ≡ site.sha256 content
  pub recorded : Recorded d.rollout_id content RolloutStatus.success w.db
  pub key : String
  pub named : master_key site.fleet node.id ≡ some key
  pub checked_in : World
  pub in_use : checked_in.process.files path ≡ some content
  pub healthy : IsHealthy site (adapter_of site.fleet node key) checked_in

module _ (site : Site) (node_id path id content : String) where
  -- The world in which the file is written, and the world after it.
  abbrev applying : World → World
  applying w = with_status id RolloutStatus.applying none (record w {
    process = record w.process {
      node_config_paths = assign node_id path w.process.node_config_paths;
    };
  })

  abbrev stored : World → World
  stored w = record w { process = record w.process { files = assign path content w.process.files } }

  -- The end of a verification that returns.
  record Concluded (verified : Bool) (d : Deployment) (w w' : World) : Type 0 where
    pub was_verified : verified ≡ true
    pub result : d ≡ record { rollout_id = id; config_version = site.sha256 content }
    pub world : w' ≡ with_status id RolloutStatus.success none w
