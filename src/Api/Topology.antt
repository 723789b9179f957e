-- ===== src/Api/Topology.antt =====
-- The routes of nodes, providers and models of src/api/routes.py.
use litellm_control_plane.Common.{String, Option, none, List}
use litellm_control_plane.Models.{Node, NodeUpdate, Provider, ProviderUpdate, Model, ModelUpdate}
use litellm_control_plane.World.{Exec, ◌>>=◌}
use litellm_control_plane.Store.Nodes.{create_node, list_nodes, get_node, delete_node, update_node}
use litellm_control_plane.Store.Providers.{
  create_provider, list_providers, get_provider, delete_provider, update_provider,
}
use litellm_control_plane.Store.Models.{
  create_model, list_models, get_model, delete_model, update_model,
}
use litellm_control_plane.Api.{get_actor, bad_request, found_or_404, deleted_or_404}

unfoldable pub create_node_route : (x_actor : Option String) → Node → Exec Node
create_node_route x_actor node = do
  actor ← get_actor x_actor
  bad_request (create_node node actor none)

unfoldable pub list_nodes_route : Exec (List Node)
list_nodes_route = list_nodes

unfoldable pub get_node_route : String → Exec Node
get_node_route id = do node ← get_node id; found_or_404 "Node not found" node

unfoldable pub delete_node_route : (x_actor : Option String) → String → Exec (Unit {0})
delete_node_route x_actor id = do
  actor ← get_actor x_actor
  deleted ← delete_node id actor none
  deleted_or_404 "Node not found" deleted

unfoldable pub update_node_route : (x_actor : Option String) → String → NodeUpdate → Exec Node
update_node_route x_actor id update = do
  actor ← get_actor x_actor
  node ← update_node id update actor none
  found_or_404 "Node not found" node

unfoldable pub create_provider_route : (x_actor : Option String) → Provider → Exec Provider
create_provider_route x_actor provider = do
  actor ← get_actor x_actor
  bad_request (create_provider provider actor none)

unfoldable pub list_providers_route : Exec (List Provider)
list_providers_route = list_providers

unfoldable pub get_provider_route : String → Exec Provider
get_provider_route id = do provider ← get_provider id; found_or_404 "Provider not found" provider

unfoldable pub delete_provider_route : (x_actor : Option String) → String → Exec (Unit {0})
delete_provider_route x_actor id = do
  actor ← get_actor x_actor
  bad_request
      do deleted ← delete_provider id actor none; deleted_or_404 "Provider not found" deleted

unfoldable pub update_provider_route :
    (x_actor : Option String) → String → ProviderUpdate → Exec Provider
update_provider_route x_actor id update = do
  actor ← get_actor x_actor
  provider ← update_provider id update actor none
  found_or_404 "Provider not found" provider

unfoldable pub create_model_route : (x_actor : Option String) → Model → Exec Model
create_model_route x_actor model = do
  actor ← get_actor x_actor
  bad_request (create_model model actor none)

unfoldable pub list_models_route : Exec (List Model)
list_models_route = list_models

unfoldable pub get_model_route : String → Exec Model
get_model_route id = do model ← get_model id; found_or_404 "Model not found" model

unfoldable pub delete_model_route : (x_actor : Option String) → String → Exec (Unit {0})
delete_model_route x_actor id = do
  actor ← get_actor x_actor
  bad_request do deleted ← delete_model id actor none; deleted_or_404 "Model not found" deleted

unfoldable pub update_model_route : (x_actor : Option String) → String → ModelUpdate → Exec Model
update_model_route x_actor id update = do
  actor ← get_actor x_actor
  bad_request do model ← update_model id update actor none; found_or_404 "Model not found" model
