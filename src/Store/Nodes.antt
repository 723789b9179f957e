-- ===== src/Store/Nodes.antt =====
-- The nodes of src/registry/store.py.
use litellm_control_plane.Common.{
  String, Bool, true, false, Option, none, some, List, not, ◌&&◌, is_some, get_or, if◌then◌else◌,
}
use litellm_control_plane.Table.{by, first, update}
use litellm_control_plane.Models.{Node, NodeUpdate, Dump, Changes}
use litellm_control_plane.World.{
  value_error, Exec, pure, gets, assert_some, except_integrity, or_else, ◌>>=◌, ◌>>◌, modify,
}
use litellm_control_plane.Audit.{log_audit}
use litellm_control_plane.Store.Statements.{insert_node, delete_node_row}

unfoldable pub get_node : String → Exec (Option Node)
get_node node_id = gets λ d. first (by (λ n. n.id) node_id) d.nodes

unfoldable pub list_nodes : Exec (List Node)
list_nodes = gets λ d. d.nodes

unfoldable pub create_node : Node → String → Option String → Exec Node
create_node node actor reason =
    except_integrity (value_error "Node already exists or database constraint failed") do
      insert_node node
      found ← get_node node.id
      created ← assert_some found
      log_audit actor "create" "node" node.id (Changes.row (Dump.node created)) reason
      pure created

unfoldable pub delete_node : String → String → Option String → Exec Bool
delete_node node_id actor reason = do
  found ← get_node node_id
  or_else found (pure false) λ node. do
    delete_node_row node_id
    log_audit actor "delete" "node" node_id (Changes.row (Dump.node node)) reason
    pure true

-- `UPDATE nodes SET f WHERE id = ?`
unfoldable pub update_nodes : String → (Node → Node) → Exec (Unit {0})
update_nodes node_id f = modify λ d. record d { nodes = update (by (λ n. n.id) node_id) f d.nodes }

-- `not update.model_dump(exclude_none=True)`
unfoldable pub no_node_fields : NodeUpdate → Bool
no_node_fields u =
    not (is_some u.name)
    && (not (is_some u.host)
        && (not (is_some u.port)
            && (not (is_some u.region) && (not (is_some u.role) && (not (is_some u.status))))))

-- `SET k = ?` for each field that is given
unfoldable pub set_node_fields : NodeUpdate → Node → Node
set_node_fields u n = record n {
  name = get_or u.name n.name;
  host = get_or u.host n.host;
  port = get_or u.port n.port;
  region = get_or u.region n.region;
  role = get_or u.role n.role;
  status = get_or u.status n.status;
}

unfoldable pub update_node : String → NodeUpdate → String → Option String → Exec (Option Node)
update_node node_id fields actor reason = do
  old ← get_node node_id
  or_else old (pure none) λ before. if no_node_fields fields then pure (some before) else do
    update_nodes node_id (set_node_fields fields)
    found ← get_node node_id
    after ← assert_some found
    log_audit actor "update" "node" node_id (Changes.diff (Dump.node before) (Dump.node after))
        reason
    pure (some after)
