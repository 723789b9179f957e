-- ===== src/KeyManager.antt =====
-- src/registry/key_manager.py. Log lines are not modelled.
pub mod Keeps
pub mod NodeSync
pub mod Synced
pub mod Deleted
use litellm_control_plane.Common.{
  suc, String, Bool, true, false, not, Option, none, some, List, [], ◌∷◌, ◌==◌, ◌&&◌, ◌||◌, any,
  select, map, if◌then◌else◌,
}
use litellm_control_plane.Common.Text.{
  concat, contains, decimal, env_name, has_prefix, strip_prefix, truthy,
}
use litellm_control_plane.Models.{
  ℤ, pos, negsuc, NodeStatus, KeyStatus, JsonText, Node, Consumer, ConsumerKey,
}
use litellm_control_plane.Process.{Request}
use litellm_control_plane.World.{
  World, Exec, runtime_error, pure, raise, gets, or_else, ◌>>=◌, ◌>>◌, except_any,
}
use litellm_control_plane.Config.Generator.{rstrip_slash}
use litellm_control_plane.Adapter.{
  Answer, LiteLlmAdapter, new_adapter, KeyLimits, generate_key, update_key, delete_key,
}
use litellm_control_plane.Store.Nodes.{get_node, list_nodes}
use litellm_control_plane.Store.Consumers.{get_consumer}
use litellm_control_plane.Store.PolicyProfiles.{get_policy_profile}
use litellm_control_plane.Store.ConsumerKeys.{
  get_consumer_key, create_consumer_key, update_consumer_key, update_consumer_key_status,
  list_consumer_keys, delete_consumer_key,
}

-- `_PENDING_KEY_PREFIX`
abbrev pub pending_key_prefix : String
pending_key_prefix = "pending-key-"

-- `str(n)`, for an `int` below zero too
unfoldable pub str_int : ℤ → String
str_int (pos n) = decimal n
str_int (negsuc n) = concat "-" (decimal (suc n))

-- `host.startswith(("http://", "https://"))`
abbrev pub has_scheme : String → Bool
has_scheme host = has_prefix "http://" host || has_prefix "https://" host

-- `re.sub(r"^https?://", "", host)`
unfoldable pub without_scheme : String → String
without_scheme host = elim (strip_prefix "https://" host) [
  | some rest ↦ rest
  | none ↦ elim (strip_prefix "http://" host) [ some rest ↦ rest | none ↦ host ]
]

unfoldable pub get_node_url : (node_host : String) → (node_port : ℤ) → String
get_node_url node_host node_port =
    let host = rstrip_slash node_host in
    let url = if has_scheme host then host else concat "http://" host in
    if contains ":" (without_scheme host) then url else concat url (concat ":" (str_int node_port))

-- `json.loads(profile.allowed_model_groups)`, and `[]` where it raises
abbrev pub loaded : JsonText → JsonText
loaded JsonText.malformed = JsonText.array []
loaded text = text

unfoldable pub get_consumer_models_scope : String → Exec JsonText
get_consumer_models_scope consumer_id = do
  consumer ← get_consumer consumer_id
  or_else consumer (pure (JsonText.array [])) λ c. do
    or_else (truthy c.profile_id) (pure (JsonText.array [])) λ profile_id. do
      profile ← get_policy_profile profile_id
      or_else profile (pure (JsonText.array [])) λ p. pure (loaded p.allowed_model_groups)

-- `n.status == "active" and n.role in ("proxy", "exit")`
abbrev pub is_active_node : NodeStatus → Bool
is_active_node NodeStatus.active = true
is_active_node _ = false

unfoldable pub is_active_proxy : Node → Bool
is_active_proxy n = is_active_node n.status && (n.role == "proxy" || n.role == "exit")

-- The arguments of `generate_key` and `update_key`.
abbrev pub limits_of : Consumer → JsonText → KeyLimits
limits_of consumer allowed_models = record {
  models = allowed_models;
  metadata = ("consumer_id", consumer.id) ∷ ("name", consumer.name) ∷ [];
  max_budget = consumer.max_budget;
  rate_limit_rpm = consumer.rate_limit_rpm;
  rate_limit_tpm = consumer.rate_limit_tpm;
}

abbrev pub pending_key : (node_id consumer_id : String) → String
pending_key node_id consumer_id =
    concat pending_key_prefix (concat node_id (concat "-" consumer_id))

abbrev pub is_pending : KeyStatus → Bool
is_pending KeyStatus.pending_sync = true
is_pending _ = false

unfoldable pub is_placeholder : ConsumerKey → Bool
is_placeholder key = has_prefix pending_key_prefix key.virtual_key || is_pending key.status

-- `SELECT DISTINCT consumer_id FROM consumer_keys WHERE status = 'pending-sync'`, in the order of
-- the first of the rows; SQLite may choose another.
abbrev pub distinct : List String → List String
distinct [] = []
distinct (k ∷ ks) = let rest = distinct ks in k ∷ select (λ j. not (j == k)) rest

unfoldable pub stale_consumers : List ConsumerKey → List String
stale_consumers keys = distinct (map (λ k. k.consumer_id) (select (λ k. is_pending k.status) keys))

-- The environment variables, and the LiteLLM proxies, which may answer differently in each world.
pub record Fleet : Type 0 where
  pub getenv : String → Option String
  pub proxies : World → Request → Answer

module _ (fleet : Fleet) where
  -- `os.getenv(env_name) or os.getenv("LITELLM_MASTER_KEY")`
  unfoldable pub master_key : String → Option String
  master_key node_id =
      elim (truthy (fleet.getenv (concat "LITELLM_MASTER_KEY_" (env_name node_id)))) [
        | some key ↦ some key
        | none ↦ truthy (fleet.getenv "LITELLM_MASTER_KEY")
      ]

  unfoldable pub get_node_master_key : String → Exec String
  get_node_master_key node_id =
      or_else (master_key node_id) (raise (runtime_error "Missing master key for node")) pure

  abbrev pub adapter_of : Node → String → LiteLlmAdapter
  adapter_of node key = new_adapter (get_node_url node.host node.port) key

  -- The key that the node generates, or a placeholder.
  unfoldable pub offer_key :
      LiteLlmAdapter → KeyLimits → (placeholder : String) → Exec (String × KeyStatus)
  offer_key adapter limits placeholder =
      except_any (do key ← generate_key fleet.proxies adapter limits; pure (key, KeyStatus.active))
        λ e. pure (placeholder, KeyStatus.pending_sync)

  -- `if not existing_key`
  unfoldable pub create_on : LiteLlmAdapter → KeyLimits → Consumer → Node → Exec (Unit {0})
  create_on adapter limits consumer node = do
    (virtual_key, key_status) ← offer_key adapter limits (pending_key node.id consumer.id)
    create_consumer_key
        (record {
          consumer_id = consumer.id;
          node_id = node.id;
          virtual_key = virtual_key;
          status = key_status;
        })
        "key-manager" (some "auto sync key creation")
    pure tt

  -- `elif existing_key.status == "pending-sync"`
  unfoldable pub recover_on : LiteLlmAdapter → KeyLimits → Consumer → Node → Exec (Unit {0})
  recover_on adapter limits consumer node =
      except_any
        (do
          key ← generate_key fleet.proxies adapter limits
          update_consumer_key consumer.id node.id key KeyStatus.active "key-manager"
              (some "pending-sync recovery")
          pure tt)
        λ e. pure tt

  -- `else`
  unfoldable pub update_on :
      LiteLlmAdapter → KeyLimits → Consumer → Node → ConsumerKey → Exec (Unit {0})
  update_on adapter limits consumer node existing_key =
      except_any (update_key fleet.proxies adapter existing_key.virtual_key limits) λ e. do
        update_consumer_key_status consumer.id node.id KeyStatus.pending_sync "key-manager"
            (some "sync failure on update")
        pure tt

  -- The body of the loop over the nodes.
  unfoldable pub sync_node : JsonText → Consumer → Node → Exec (Unit {0})
  sync_node allowed_models consumer node = do
    key ← get_node_master_key node.id
    existing ← get_consumer_key consumer.id node.id
    or_else existing
        (create_on (adapter_of node key) (limits_of consumer allowed_models) consumer node)
        λ existing_key.
          if is_pending existing_key.status
          then recover_on (adapter_of node key) (limits_of consumer allowed_models) consumer node
          else update_on (adapter_of node key) (limits_of consumer allowed_models) consumer node
              existing_key

  unfoldable pub sync_nodes : JsonText → Consumer → List Node → Exec (Unit {0})
  sync_nodes allowed_models consumer [] = pure tt
  sync_nodes allowed_models consumer (node ∷ nodes) = do
    sync_node allowed_models consumer node
    sync_nodes allowed_models consumer nodes

  unfoldable pub sync_consumer_to_all_nodes : String → Exec (Unit {0})
  sync_consumer_to_all_nodes consumer_id = do
    found ← get_consumer consumer_id
    or_else found (pure tt) λ consumer. do
      nodes ← list_nodes
      allowed_models ← get_consumer_models_scope consumer_id
      sync_nodes allowed_models consumer (select is_active_proxy nodes)

  -- `if node:`, with the call of `delete_key`, whose failure is only logged
  unfoldable pub revoke_on : String → Option Node → Exec (Unit {0})
  revoke_on virtual_key found = or_else found (pure tt) λ node. do
    key ← get_node_master_key node.id
    except_any (do delete_key fleet.proxies (adapter_of node key) virtual_key; pure tt) λ e. pure tt

  -- The revocation of a key that is no placeholder.
  unfoldable pub revoke : ConsumerKey → Exec (Unit {0})
  revoke key =
      if is_placeholder key
      then pure tt
      else do found ← get_node key.node_id; revoke_on key.virtual_key found

  unfoldable pub delete_keys_of : String → List ConsumerKey → Exec (Unit {0})
  delete_keys_of consumer_id [] = pure tt
  delete_keys_of consumer_id (key ∷ keys) = do
    revoke key
    delete_consumer_key consumer_id key.node_id "key-manager" (some "auto revoke key deletion")
    delete_keys_of consumer_id keys

  unfoldable pub delete_consumer_from_all_nodes : String → Exec (Unit {0})
  delete_consumer_from_all_nodes consumer_id = do
    keys ← list_consumer_keys (some consumer_id)
    delete_keys_of consumer_id keys

  unfoldable pub sync_consumers : List String → Exec (Unit {0})
  sync_consumers [] = pure tt
  sync_consumers (cid ∷ ids) = do sync_consumer_to_all_nodes cid; sync_consumers ids

  unfoldable pub reconcile_all_keys : Exec (Unit {0})
  reconcile_all_keys = do ids ← gets λ d. stale_consumers d.consumer_keys; sync_consumers ids
