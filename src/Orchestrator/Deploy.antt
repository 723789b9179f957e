-- ===== src/Orchestrator/Deploy.antt =====
-- `deploy_config` of src/rollout/orchestrator.py.
use litellm_control_plane.Common.{
  ℕ, zero, suc, String, Bool, true, false, Option, none, some, ◌+◌, ltb, if◌then◌else◌,
}
use litellm_control_plane.Common.Text.{concat}
use litellm_control_plane.Models.{RolloutStatus, Node, Rollout}
use litellm_control_plane.Process.{assign}
use litellm_control_plane.World.{
  Exec, value_error, runtime_error, library_error, out_of_fuel, pure, raise, asks, or_else, ◌>>=◌,
  ◌>>◌, utc_now, uuid_hex8, set_process, except_any,
}
use litellm_control_plane.Config.Generator.{generate_config}
use litellm_control_plane.Adapter.{LiteLlmAdapter, check_health}
use litellm_control_plane.KeyManager.{get_node_master_key, adapter_of}
use litellm_control_plane.Store.Nodes.{get_node}
use litellm_control_plane.Store.Rollouts.{
  create_rollout, update_rollout_status, get_latest_success_rollout,
}
use litellm_control_plane.Orchestrator.{Site, write_file}

-- What a deployment returns beside its status "success".
pub record Deployment : Type 0 where
  pub rollout_id : String
  pub config_version : String

module _ (site : Site) where
  -- Steps 1 and 2: the configuration of the node as YAML.
  unfoldable pub render_config : String → Exec String
  render_config node_id = do
    config_yaml ←
        except_any
          (do
            config_dict ← generate_config site.secrets node_id
            or_else (site.safe_dump config_dict) (raise library_error) pure)
          λ e. raise (runtime_error "Config generation failed")
    if site.is_yaml config_yaml
        then pure config_yaml
        else raise (runtime_error "Config validation failed")

  -- The content of the file, if there is one that can be read.
  unfoldable pub backup : String → Exec (Option String)
  backup path = asks λ w. if site.readable w path then w.process.files path else none

  -- Step 4. An exception marks the rollout failed and is raised on.
  unfoldable pub apply_config : (node_id path rollout_id config_yaml : String) → Exec (Unit {0})
  apply_config node_id path rollout_id config_yaml =
      except_any
        (do
          set_process λ p. record p { node_config_paths = assign node_id path p.node_config_paths }
          update_rollout_status rollout_id RolloutStatus.applying none
          write_file site path config_yaml)
        λ e. do
          update_rollout_status rollout_id RolloutStatus.failed (some "File write error")
          raise (runtime_error "Failed to write config file to disk")

  -- Step 5: the loop `while time.time() - start_time < timeout_sec`, with fuel for its rounds.
  unfoldable pub poll : LiteLlmAdapter → (fuel start_time timeout_sec : ℕ) → Exec Bool
  poll adapter zero start_time timeout_sec = raise out_of_fuel
  poll adapter (suc fuel) start_time timeout_sec =
      let rest = poll adapter fuel start_time timeout_sec in
      do
        now ← utc_now
        if ltb now (start_time + timeout_sec)
            then (do
              healthy ← check_health site.fleet.proxies adapter
              if healthy then pure true else rest)
            else pure false

  -- Step 6.
  unfoldable pub restore :
      (node_id path rollout_id rollback_id : String) → Rollout → Exec (Unit {0})
  restore node_id path rollout_id rollback_id prev_success =
      except_any
        (do
          write_file site path prev_success.config_content
          create_rollout rollback_id node_id prev_success.config_version RolloutStatus.rolled_back
              prev_success.config_content
              (some (concat "Rolled back from failed rollout " rollout_id))
          pure tt)
        λ e. pure tt

  unfoldable pub restore_backup : (path : String) → Option String → Exec (Unit {0})
  restore_backup path backup_content =
      or_else backup_content (pure tt)
        λ content. except_any (write_file site path content) λ e. pure tt

  unfoldable pub roll_back : (node_id path rollout_id : String) → Option String → Exec Deployment
  roll_back node_id path rollout_id backup_content = do
    update_rollout_status rollout_id RolloutStatus.failed (some "Verification timed out.")
    hex ← uuid_hex8
    prev_success ← get_latest_success_rollout node_id
    or_else prev_success (restore_backup path backup_content)
        (restore node_id path rollout_id (concat "roll-back-" hex))
    raise (runtime_error "Rollout verification failed. Node rolled back to previous state.")

  -- The end of step 5.
  unfoldable pub conclude :
      (node_id path rollout_id config_version : String)
      → Option String
      → (verified : Bool) → Exec Deployment
  conclude node_id path rollout_id config_version backup_content true = do
    update_rollout_status rollout_id RolloutStatus.success none
    pure (record { rollout_id = rollout_id; config_version = config_version })
  conclude node_id path rollout_id config_version backup_content false =
      roll_back node_id path rollout_id backup_content

  -- Steps 4 to 6.
  unfoldable pub apply_and_verify :
      (node : Node) (node_id path rollout_id config_yaml : String) (timeout_sec : ℕ)
      → Exec Deployment
  apply_and_verify node node_id path rollout_id config_yaml timeout_sec = do
    backup_content ← backup path
    apply_config node_id path rollout_id config_yaml
    key ← get_node_master_key site.fleet node.id
    start_time ← utc_now
    verified ← poll (adapter_of site.fleet node key) (suc timeout_sec) start_time timeout_sec
    conclude node_id path rollout_id (site.sha256 config_yaml) backup_content verified

  -- The fuel is one round for each tick of the time-out and one more.
  unfoldable pub deploy_config : (node_id path : String) (timeout_sec : ℕ) → Exec Deployment
  deploy_config node_id path timeout_sec = do
    hex ← uuid_hex8
    found ← get_node node_id
    or_else found (raise (value_error "Node not found.")) λ node. do
      config_yaml ← render_config node_id
      create_rollout (concat "roll-" hex) node_id (site.sha256 config_yaml) RolloutStatus.pending
          config_yaml none
      apply_and_verify node node_id path (concat "roll-" hex) config_yaml timeout_sec
