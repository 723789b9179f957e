-- ===== src/Store/Keeps/Topology.antt =====
-- An invariant that every statement keeps is kept by every operation on nodes, providers and models
-- of src/registry/store.py, whether it returns or raises.
use litellm_control_plane.Common.{String, Option}
use litellm_control_plane.Models.{Node, NodeUpdate, Provider, ProviderUpdate, Model, ModelUpdate}
use litellm_control_plane.World.{Db}
use litellm_control_plane.World.Keeps.{Keeps, keeps_rules}
use litellm_control_plane.Store.Keeps.{KeepsStatements}
use litellm_control_plane.Store.Keeps.Audit.{log_audit-Keeps}
use litellm_control_plane.Store.Nodes.{get_node, create_node, delete_node, update_node}
use litellm_control_plane.Store.Providers.{
  get_provider, create_provider, delete_provider, update_provider,
}
use litellm_control_plane.Store.Models.{get_model, create_model, delete_model, update_model}

module _ {P : Db → Type 0} (s : KeepsStatements P) where
  pub create_node-Keeps :
      (node : Node) (actor : String) (reason : Option String)
      → Keeps P (create_node node actor reason)
  unfolding create_node get_node
  create_node-Keeps node actor reason =
      search (keeps_rules, s.insert_node_law, log_audit-Keeps s) depth 20

  pub delete_node-Keeps :
      (id actor : String) (reason : Option String) → Keeps P (delete_node id actor reason)
  unfolding delete_node get_node
  delete_node-Keeps id actor reason =
      search (keeps_rules, s.delete_node_row_law, log_audit-Keeps s) depth 20

  pub update_node-Keeps :
      (id : String) (fields : NodeUpdate) (actor : String) (reason : Option String)
      → Keeps P (update_node id fields actor reason)
  unfolding update_node get_node
  update_node-Keeps id fields actor reason =
      search (keeps_rules, s.write_node, log_audit-Keeps s) depth 20

  pub create_provider-Keeps :
      (provider : Provider) (actor : String) (reason : Option String)
      → Keeps P (create_provider provider actor reason)
  unfolding create_provider get_provider
  create_provider-Keeps provider actor reason =
      search (keeps_rules, s.insert_provider_law, log_audit-Keeps s) depth 20

  pub delete_provider-Keeps :
      (id actor : String) (reason : Option String) → Keeps P (delete_provider id actor reason)
  unfolding delete_provider get_provider
  delete_provider-Keeps id actor reason =
      search (keeps_rules, s.delete_provider_row_law, log_audit-Keeps s) depth 20

  pub update_provider-Keeps :
      (id : String) (fields : ProviderUpdate) (actor : String) (reason : Option String)
      → Keeps P (update_provider id fields actor reason)
  unfolding update_provider get_provider
  update_provider-Keeps id fields actor reason =
      search (keeps_rules, s.write_provider, log_audit-Keeps s) depth 20

  pub create_model-Keeps :
      (model : Model) (actor : String) (reason : Option String)
      → Keeps P (create_model model actor reason)
  unfolding create_model get_model
  create_model-Keeps model actor reason =
      search (keeps_rules, s.insert_model_law, log_audit-Keeps s) depth 20

  pub delete_model-Keeps :
      (id actor : String) (reason : Option String) → Keeps P (delete_model id actor reason)
  unfolding delete_model get_model
  delete_model-Keeps id actor reason =
      search (keeps_rules, s.delete_model_row_law, log_audit-Keeps s) depth 20

  pub update_model-Keeps :
      (id : String) (fields : ModelUpdate) (actor : String) (reason : Option String)
      → Keeps P (update_model id fields actor reason)
  unfolding update_model get_model
  update_model-Keeps id fields actor reason =
      search (keeps_rules, s.write_model, log_audit-Keeps s) depth 20
