-- ===== src/Tests/Rollouts.antt =====
-- The statements on rollouts, at a disk that takes every write.
use litellm_control_plane.Common.{true, none, some, ◌≡◌, refl}
use litellm_control_plane.World.{raised, runtime_error}
use litellm_control_plane.Orchestrator.{Site, written}
use litellm_control_plane.Orchestrator.Deploy.{Deployment, roll_back}
use litellm_control_plane.Orchestrator.Outcomes.{
  Writes, latest, timed_out, restored, roll_back-restored,
}
use litellm_control_plane.Orchestrator.Rendered.{Rendered}
use litellm_control_plane.Orchestrator.Deployed.{Deployed}
use litellm_control_plane.Tests.Keys.{fleet, proxy_world}

abbrev pub site : Site
site = record {
  fleet = fleet;
  secrets = record { resolve = λ w ref. some "sk-1"; api_base = λ w row type ref. none };
  safe_dump = λ entries. some "model_list: []";
  is_yaml = λ text. true;
  sorted_disk = λ text. some text;
  sorted_config = λ entries. some "model_list: []";
  sha256 = λ text. text;
  readable = λ w path. true;
  write_result = λ w path content. written;
}

site-Writes : Writes site
site-Writes = record { at = λ w path content. refl }

roll_back_example :
    let m = roll_back site "n1" "/etc/litellm.yaml" "roll-1" (some "old") proxy_world in
    (m.0
      ≡ raised (runtime_error "Rollout verification failed. Node rolled back to previous state."))
    × (m.1.process.files "/etc/litellm.yaml"
        ≡ restored
            (latest "n1" (timed_out "roll-1" proxy_world.db))
            (some "old")
            (proxy_world.process.files "/etc/litellm.yaml"))
roll_back_example =
    roll_back-restored site site-Writes "/etc/litellm.yaml" "n1" "roll-1" (some "old") proxy_world

abbrev deployment : Deployment
deployment = record { rollout_id = "roll-0000000a"; config_version = "model_list: []" }
