-- ===== src/Orchestrator/Keeps.antt =====
-- An invariant that every statement keeps is kept by src/rollout/orchestrator.py, whatever the
-- environment answers and whether it returns or raises.
use litellm_control_plane.Common.{ℕ, zero, suc, String, Bool, true, false, List, [], ◌∷◌, Option}
use litellm_control_plane.Models.{Node, Rollout, DriftReport}
use litellm_control_plane.World.{Db, Exec}
use litellm_control_plane.World.Keeps.{
  Keeps, Keeps-bind, Keeps-if, Keeps-pure, Keeps-utc_now, Keeps-except_any, keeps_rules,
}
use litellm_control_plane.Config.Generator.{generate_config}
use litellm_control_plane.Adapter.{LiteLlmAdapter}
use litellm_control_plane.Store.Keeps.{KeepsStatements}
use litellm_control_plane.Store.Keeps.Audit.{log_audit-Keeps}
use litellm_control_plane.Store.Keeps.Access.{
  create_rollout-Keeps, update_rollout_status-Keeps, delete_consumer_key-Keeps,
}
use litellm_control_plane.Store.Nodes.{get_node}
use litellm_control_plane.Store.Consumers.{list_consumers}
use litellm_control_plane.Store.ConsumerKeys.{get_consumer_key, list_consumer_keys}
use litellm_control_plane.Store.Rollouts.{get_latest_success_rollout}
use litellm_control_plane.KeyManager.{get_node_master_key}
use litellm_control_plane.KeyManager.Keeps.{
  check_health-Keeps, revoke_on-Keeps, sync_consumers-Keeps,
}
use litellm_control_plane.Orchestrator.{Site, WriteResult, store_file, read_file, write_file}
use litellm_control_plane.Orchestrator.Deploy.{
  render_config, backup, apply_config, poll, restore, restore_backup, roll_back, conclude,
  apply_and_verify, deploy_config,
}
use litellm_control_plane.Orchestrator.Drift.{
  compare_config, config_drift, detect_drift, clean_orphan, clean_orphans, resolve_key_drift,
  attempt, resolve_drift, config_path, reconcile_node,
}

module _ {P : Db → Type 0} (s : KeepsStatements P) (site : Site) where
  store_file-Keeps :
      (path content : String) (r : WriteResult) → Keeps P (store_file site path content r)
  store_file-Keeps path content WriteResult.written = search (keeps_rules)
  store_file-Keeps path content WriteResult.refused = search (keeps_rules)
  store_file-Keeps path content WriteResult.torn = search (keeps_rules)

  write_file-Keeps : (path content : String) → Keeps P (write_file site path content)
  unfolding write_file
  write_file-Keeps path content = search (keeps_rules, store_file-Keeps) depth 20

  render_config-Keeps : (node_id : String) → Keeps P (render_config site node_id)
  unfolding render_config generate_config
  render_config-Keeps node_id = search (keeps_rules) depth 20

  apply_config-Keeps :
      (node_id path rollout_id yaml : String)
      → Keeps P (apply_config site node_id path rollout_id yaml)
  unfolding apply_config
  apply_config-Keeps node_id path rollout_id yaml =
      search (keeps_rules, write_file-Keeps, update_rollout_status-Keeps s) depth 20

  poll-Keeps :
      (adapter : LiteLlmAdapter) (fuel start timeout : ℕ)
      → Keeps P (poll site adapter fuel start timeout)
  unfolding poll
  poll-Keeps adapter zero start timeout = search (keeps_rules)
  poll-Keeps adapter (suc fuel) start timeout =
      let rest = poll-Keeps adapter fuel start timeout in
      Keeps-bind _ _ Keeps-utc_now λ now.
        Keeps-if _ _ _
          (Keeps-bind _ _ (check_health-Keeps site.fleet.proxies adapter)
            λ healthy. Keeps-if _ _ _ (Keeps-pure _) rest)
          (Keeps-pure _)

  restore-Keeps :
      (node_id path rollout_id rollback_id : String) (prev : Rollout)
      → Keeps P (restore site node_id path rollout_id rollback_id prev)
  unfolding restore
  restore-Keeps node_id path rollout_id rollback_id prev =
      search (keeps_rules, write_file-Keeps, create_rollout-Keeps s) depth 20

  restore_backup-Keeps :
      (path : String) (content : Option String) → Keeps P (restore_backup site path content)
  unfolding restore_backup
  restore_backup-Keeps path content = search (keeps_rules, write_file-Keeps) depth 20

  roll_back-Keeps :
      (node_id path rollout_id : String) (content : Option String)
      → Keeps P (roll_back site node_id path rollout_id content)
  unfolding roll_back get_latest_success_rollout
  roll_back-Keeps node_id path rollout_id content =
      search (keeps_rules, restore-Keeps, restore_backup-Keeps, update_rollout_status-Keeps s) depth
        20

  conclude-Keeps :
      (node_id path rollout_id version : String) (content : Option String) (verified : Bool)
      → Keeps P (conclude site node_id path rollout_id version content verified)
  unfolding conclude
  conclude-Keeps node_id path rollout_id version content true =
      search (keeps_rules, update_rollout_status-Keeps s) depth 20
  conclude-Keeps node_id path rollout_id version content false =
      roll_back-Keeps node_id path rollout_id content

  apply_and_verify-Keeps :
      (node : Node) (node_id path rollout_id yaml : String) (timeout : ℕ)
      → Keeps P (apply_and_verify site node node_id path rollout_id yaml timeout)
  unfolding apply_and_verify backup get_node_master_key
  apply_and_verify-Keeps node node_id path rollout_id yaml timeout =
      search (keeps_rules, apply_config-Keeps, poll-Keeps, conclude-Keeps) depth 20

  pub deploy_config-Keeps :
      (node_id path : String) (timeout : ℕ) → Keeps P (deploy_config site node_id path timeout)
  unfolding deploy_config get_node
  deploy_config-Keeps node_id path timeout =
      search (keeps_rules, render_config-Keeps, create_rollout-Keeps s, apply_and_verify-Keeps)
        depth 20

  config_drift-Keeps : (node_id path : String) → Keeps P (config_drift site node_id path)
  unfolding config_drift compare_config read_file generate_config
  config_drift-Keeps node_id path = search (keeps_rules) depth 20

  pub detect_drift-Keeps : (node_id path : String) → Keeps P (detect_drift site node_id path)
  unfolding detect_drift get_node list_consumer_keys list_consumers
  detect_drift-Keeps node_id path = search (keeps_rules, config_drift-Keeps) depth 20

  attempt-Keeps : {A : Type 0} (m : Exec A) → Keeps P m → Keeps P (attempt m)
  unfolding attempt
  attempt-Keeps m k = Keeps-except_any _ _ (Keeps-bind _ _ k λ _. Keeps-pure _) λ _. Keeps-pure _

  clean_orphan-Keeps : (node_id cid : String) → Keeps P (clean_orphan site node_id cid)
  unfolding clean_orphan get_consumer_key get_node
  clean_orphan-Keeps node_id cid =
      search (keeps_rules, revoke_on-Keeps s site.fleet, delete_consumer_key-Keeps s) depth 20

  clean_orphans-Keeps :
      (node_id : String) (ids : List String) → Keeps P (clean_orphans site node_id ids)
  unfolding clean_orphans
  clean_orphans-Keeps node_id [] = search (keeps_rules)
  clean_orphans-Keeps node_id (cid ∷ ids) =
      Keeps-bind _ _ (clean_orphan-Keeps node_id cid) λ _. clean_orphans-Keeps node_id ids

  resolve_key_drift-Keeps :
      (node_id : String) (drift : DriftReport) → Keeps P (resolve_key_drift site node_id drift)
  unfolding resolve_key_drift
  resolve_key_drift-Keeps node_id drift =
      search (keeps_rules, sync_consumers-Keeps s site.fleet, clean_orphans-Keeps) depth 20

  resolve_drift-Keeps :
      (node_id path : String) (timeout : ℕ) (drift : DriftReport)
      → Keeps P (resolve_drift site node_id path timeout drift)
  unfolding resolve_drift
  resolve_drift-Keeps node_id path timeout drift =
      search
        (
          keeps_rules,
          log_audit-Keeps s,
          attempt-Keeps,
          deploy_config-Keeps,
          resolve_key_drift-Keeps,
        )
        depth 20

  pub reconcile_node-Keeps :
      (node_id : String) (path : Option String) (timeout : ℕ)
      → Keeps P (reconcile_node site node_id path timeout)
  unfolding reconcile_node config_path
  reconcile_node-Keeps node_id path timeout =
      search (keeps_rules, detect_drift-Keeps, resolve_drift-Keeps) depth 20
