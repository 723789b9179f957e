-- ===== src/KeyManager/Synced.antt =====
-- What `sync_consumer_to_all_nodes` of src/registry/key_manager.py leaves: a key of the consumer
-- for each active proxy or exit node.
use litellm_control_plane.Common.{
  String, true, some, List, ◌≡◌, refl, Option-cases, inl, inr, is_some,
}
use mathlib.Core.List.{Memᴰ}
use litellm_control_plane.Common.Text.{truthy, concat, env_name}
use litellm_control_plane.Table.{first}
use litellm_control_plane.Models.{Node}
use litellm_control_plane.World.{Db, World}
use litellm_control_plane.Store.Statements.{by_pair}
use litellm_control_plane.KeyManager.{Fleet, master_key}

-- The consumer has a key for the node.
abbrev pub HasKey : (consumer_id node_id : String) → Db → Type 0
HasKey consumer_id node_id d = is_some (first (by_pair consumer_id node_id) d.consumer_keys) ≡ true

-- What the sync of the nodes leaves.
record NodesSynced (c : String) (nodes : List Node) (d d' : Db) : Type 0 where
  pub all : (n : Node) → Memᴰ n nodes → HasKey c n.id d'
  pub old : (j : String) → HasKey c j d → HasKey c j d'

-- With `LITELLM_MASTER_KEY` set there is a master key for each node.
pub default_key :
    (fleet : Fleet) (default : String)
    → truthy (fleet.getenv "LITELLM_MASTER_KEY") ≡ some default
    → (id : String) → (key : String) × (master_key fleet id ≡ some key)
unfolding master_key
default_key fleet default h id =
    elim (Option-cases (truthy (fleet.getenv (concat "LITELLM_MASTER_KEY_" (env_name id))))) [
      | inl missing ↦ (default, rw (missing, master_key) h)
      | inr (key, own) ↦ (key, rw (own, master_key) refl)
    ]
