-- ===== src/Api/Worker/Keeps.antt =====
-- The background task of src/api/main.py keeps the constraints of the schema.
use litellm_control_plane.Common.{ℕ, zero, suc, String, List, [], ◌∷◌}
use litellm_control_plane.World.{Db, World}
use litellm_control_plane.World.Keeps.{
  Keeps, Keeps-bind, Keeps-get_db, Keeps-except_any, Keeps-pure, keeps_rules,
}
use litellm_control_plane.Store.Keeps.{KeepsStatements}
use litellm_control_plane.Store.Consistency.{IsConsistent}
use litellm_control_plane.Store.Consistency.Writes.{IsConsistent-statements}
use litellm_control_plane.Store.Nodes.{list_nodes}
use litellm_control_plane.Health.Probe.{Upstream}
use litellm_control_plane.Health.Probe.Keeps.{reconcile_cooldowns-Keeps}
use litellm_control_plane.Orchestrator.{Site}
use litellm_control_plane.Orchestrator.Keeps.{reconcile_node-Keeps}
use litellm_control_plane.Api.Worker.{reconcile_nodes, reconcile_round, reconcile_loop}

module _ {P : Db → Type 0} (s : KeepsStatements P) (upstream : Upstream) (site : Site) where
  reconcile_nodes-Keeps :
      (timeout : ℕ) (ids : List String) → Keeps P (reconcile_nodes upstream site timeout ids)
  unfolding reconcile_nodes
  reconcile_nodes-Keeps timeout [] = search (keeps_rules)
  reconcile_nodes-Keeps timeout (id ∷ ids) =
      Keeps-bind _ _ (Keeps-get_db _ (reconcile_node-Keeps s site id _ timeout))
        λ _. reconcile_nodes-Keeps timeout ids

  reconcile_round-Keeps : (timeout : ℕ) → Keeps P (reconcile_round upstream site timeout)
  unfolding reconcile_round list_nodes
  reconcile_round-Keeps timeout =
      search
        (keeps_rules, Keeps-get_db, reconcile_cooldowns-Keeps s upstream, reconcile_nodes-Keeps)
        depth 20

  pub reconcile_loop-Keeps :
      (rounds timeout : ℕ) → Keeps P (reconcile_loop upstream site rounds timeout)
  unfolding reconcile_loop
  reconcile_loop-Keeps zero timeout = search (keeps_rules)
  reconcile_loop-Keeps (suc rounds) timeout =
      Keeps-bind _ _ (Keeps-except_any _ _ (reconcile_round-Keeps timeout) λ e. Keeps-pure tt)
        λ _. reconcile_loop-Keeps rounds timeout

-- The background task keeps the PRIMARY KEY and FOREIGN KEY constraints of the schema through any
-- number of rounds, whatever the providers, the proxies, Doppler and the disk answer.
pub reconcile_loop-IsConsistent :
    (upstream : Upstream) (site : Site) (rounds timeout : ℕ) (w : World)
    → IsConsistent w.db
    → IsConsistent (reconcile_loop upstream site rounds timeout w).1.db
reconcile_loop-IsConsistent upstream site rounds timeout w h =
    (reconcile_loop-Keeps IsConsistent-statements upstream site rounds timeout).at w h
