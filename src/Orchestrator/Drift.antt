-- ===== src/Orchestrator/Drift.antt =====
-- `detect_drift` and `reconcile_node` of src/rollout/orchestrator.py.
use litellm_control_plane.Common.{
  ℕ, String, Bool, true, false, Option, none, some, List, [], ◌∷◌, ◌==◌, ◌||◌, not, any, select,
  map, is_some, if◌then◌else◌,
}
use litellm_control_plane.Common.Text.{truthy}
use litellm_control_plane.Models.{
  KeyStatus, ConsumerStatus, Consumer, ConsumerKey, DriftReport, Changes,
}
use litellm_control_plane.World.{
  Exec, value_error, library_error, pure, raise, asks, or_else, ◌>>=◌, ◌>>◌, except_any,
}
use litellm_control_plane.Audit.{log_audit}
use litellm_control_plane.Table.{by}
use litellm_control_plane.Config.Generator.{generate_config}
use litellm_control_plane.KeyManager.{is_placeholder, revoke_on, sync_consumers}
use litellm_control_plane.Store.Nodes.{get_node}
use litellm_control_plane.Store.Consumers.{list_consumers}
use litellm_control_plane.Store.ConsumerKeys.{
  get_consumer_key, list_consumer_keys, delete_consumer_key,
}
use litellm_control_plane.Orchestrator.{Site, read_file}
use litellm_control_plane.Orchestrator.Deploy.{deploy_config}

-- `c.status == "active"`
abbrev pub is_active_consumer : ConsumerStatus → Bool
is_active_consumer ConsumerStatus.active = true
is_active_consumer ConsumerStatus.disabled = false

-- `k.status == "active"`
abbrev pub is_active_key : KeyStatus → Bool
is_active_key KeyStatus.active = true
is_active_key _ = false

-- `active_consumer_ids`, in the order of the table where the set has none.
unfoldable pub active_consumer_ids : List Consumer → List String
active_consumer_ids consumers =
    map (λ c. c.id) (select (λ c. is_active_consumer c.status) consumers)

unfoldable pub is_in : String → List String → Bool
is_in k ks = any (λ j. j == k) ks

-- `node_consumer_ids`
unfoldable pub node_consumer_ids : List ConsumerKey → List String
node_consumer_ids node_keys =
    map (λ k. k.consumer_id) (select (λ k. is_active_key k.status) node_keys)

unfoldable pub missing_keys_of : List Consumer → List ConsumerKey → List String
missing_keys_of consumers node_keys =
    select (λ cid. not (is_in cid (node_consumer_ids node_keys))) (active_consumer_ids consumers)

unfoldable pub orphaned_keys_of : List Consumer → List ConsumerKey → List String
orphaned_keys_of consumers node_keys =
    map (λ k. k.consumer_id)
      (select (λ k. not (is_in k.consumer_id (active_consumer_ids consumers))) node_keys)

abbrev pub is_filled : List String → Bool
is_filled [] = false
is_filled (k ∷ ks) = true

-- What `reconcile_node` returns.
pub data Reconciliation : Type 0 where
  unreconciled : (reason : String) → Reconciliation
  reconciled : (config keys : Bool) → DriftReport → Reconciliation

-- `try: body; flag = True` / `except Exception: log`
unfoldable pub attempt : {A : Type 0} → Exec A → Exec Bool
attempt body = except_any (do body; pure true) λ e. pure false

module _ (site : Site) where
  -- The `try` block of the check of the file: `none` where the disk is as desired.
  unfoldable pub compare_config : (node_id path : String) → Exec (Option String)
  compare_config node_id path = do
    content ← read_file site path
    disk ← or_else (site.sorted_disk content) (raise library_error) pure
    desired_config ← generate_config site.secrets node_id
    desired ← or_else (site.sorted_config desired_config) (raise library_error) pure
    pure (
        if disk == desired
        then none
        else some "Disk config contents do not match database desired state.")

  -- The check of the file: the reason for a drift, if there is one.
  unfoldable pub config_drift : (node_id path : String) → Exec (Option String)
  config_drift node_id path = do
    exists ← asks λ w. is_some (w.process.files path)
    if exists
        then (except_any (compare_config node_id path)
            λ e. pure (some "Failed to read/parse disk config"))
        else pure (some "Config file does not exist on disk.")

  unfoldable pub detect_drift : (node_id path : String) → Exec DriftReport
  detect_drift node_id path = do
    found ← get_node node_id
    or_else found (raise (value_error "Node not found.")) λ node. do
      reason ← config_drift node_id path
      db_keys ← list_consumer_keys none
      consumers ← list_consumers
      let node_keys = select (by (λ k. k.node_id) node_id) db_keys
      let missing = missing_keys_of consumers node_keys
      let orphaned = orphaned_keys_of consumers node_keys
      let key_drift = is_filled missing || is_filled orphaned
      pure (record {
        node_id = node_id;
        config_drift = is_some reason;
        config_drift_reason = reason;
        key_drift = key_drift;
        missing_keys = missing;
        orphaned_keys = orphaned;
        drift_detected = is_some reason || key_drift;
      })

  -- The body of the loop over the orphaned keys.
  unfoldable pub clean_orphan : (node_id cid : String) → Exec (Unit {0})
  clean_orphan node_id cid = do
    found ← get_consumer_key cid node_id
    or_else found (pure tt) λ key. do
      if is_placeholder key
          then pure tt
          else (do node ← get_node node_id; revoke_on site.fleet key.virtual_key node)
      delete_consumer_key cid node_id "reconcile-worker" (some "orphaned key cleanup")
      pure tt

  unfoldable pub clean_orphans : (node_id : String) → List String → Exec (Unit {0})
  clean_orphans node_id [] = pure tt
  clean_orphans node_id (cid ∷ ids) = do clean_orphan node_id cid; clean_orphans node_id ids

  -- The `try` block that resolves a drift of the keys.
  unfoldable pub resolve_key_drift : String → DriftReport → Exec (Unit {0})
  resolve_key_drift node_id drift = do
    sync_consumers site.fleet drift.missing_keys
    clean_orphans node_id drift.orphaned_keys

  -- From the drift on.
  unfoldable pub resolve_drift :
      (node_id path : String) (timeout_sec : ℕ) → DriftReport → Exec Reconciliation
  resolve_drift node_id path timeout_sec drift = do
    log_audit "reconcile-worker" "drift_detected" "node" node_id (Changes.drift drift)
        (some "Periodic drift detection check")
    config ←
        if drift.config_drift
        then attempt (deploy_config site node_id path timeout_sec)
        else pure false
    keys ← if drift.key_drift then attempt (resolve_key_drift node_id drift) else pure false
    pure (reconciled config keys drift)

  -- `config_filepath or self.node_config_paths.get(node_id)`
  unfoldable pub config_path : String → Option String → Exec (Option String)
  config_path node_id config_filepath =
      or_else (truthy config_filepath) (asks λ w. truthy (w.process.node_config_paths node_id))
        λ path. pure (some path)

  unfoldable pub reconcile_node :
      (node_id : String) → Option String → (timeout_sec : ℕ) → Exec Reconciliation
  reconcile_node node_id config_filepath timeout_sec = do
    found ← config_path node_id config_filepath
    or_else found (pure (unreconciled "No config path registered for this node yet.")) λ path. do
      drift ← detect_drift node_id path
      if drift.drift_detected
          then resolve_drift node_id path timeout_sec drift
          else pure (unreconciled "No drift detected")
