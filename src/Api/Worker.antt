-- ===== src/Api/Worker.antt =====
-- The background task of src/api/main.py: one round of `_reconcile_loop`. The rounds repeat for ever,
-- each after a sleep, and an exception ends its round only.
pub mod Keeps
use litellm_control_plane.Common.{
  ℕ, zero, suc, String, Bool, true, false, Option, none, List, [], ◌∷◌, select, map,
}
use litellm_control_plane.Models.{NodeStatus, Node}
use litellm_control_plane.World.{Exec, pure, ◌>>=◌, ◌>>◌, except_any, get_db}
use litellm_control_plane.Store.Nodes.{list_nodes}
use litellm_control_plane.Health.Probe.{Upstream, reconcile_cooldowns}
use litellm_control_plane.KeyManager.{is_active_node}
use litellm_control_plane.Orchestrator.{Site}
use litellm_control_plane.Orchestrator.Drift.{reconcile_node}

module _ (upstream : Upstream) (site : Site) where
  -- The loop over the nodes, each in a transaction of its own; the time-out is the default of
  -- `reconcile_node`.
  unfoldable pub reconcile_nodes : (timeout_sec : ℕ) → List String → Exec (Unit {0})
  reconcile_nodes timeout_sec [] = pure tt
  reconcile_nodes timeout_sec (node_id ∷ ids) = do
    get_db (reconcile_node site node_id none timeout_sec)
    reconcile_nodes timeout_sec ids

  -- The body of the `try` block.
  unfoldable pub reconcile_round : (timeout_sec : ℕ) → Exec (Unit {0})
  reconcile_round timeout_sec = do
    get_db (reconcile_cooldowns upstream "reconcile-worker")
    nodes ← get_db list_nodes
    reconcile_nodes timeout_sec (map (λ n. n.id) (select (λ n. is_active_node n.status) nodes))

  -- So many rounds of `while True`.
  unfoldable pub reconcile_loop : (rounds timeout_sec : ℕ) → Exec (Unit {0})
  reconcile_loop zero timeout_sec = pure tt
  reconcile_loop (suc rounds) timeout_sec = do
    except_any (reconcile_round timeout_sec) λ e. pure tt
    reconcile_loop rounds timeout_sec
