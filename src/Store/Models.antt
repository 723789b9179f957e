-- ===== src/Store/Models.antt =====
-- The models of src/registry/store.py.
use litellm_control_plane.Common.{
  String, Bool, true, false, Option, none, some, List, not, ◌&&◌, is_some, get_or, if◌then◌else◌,
}
use litellm_control_plane.Table.{by, first, update}
use litellm_control_plane.Models.{Model, ModelUpdate, Dump, Changes}
use litellm_control_plane.World.{
  value_error, Exec, pure, gets, assert_some, except_integrity, or_else, ◌>>=◌, ◌>>◌, modify,
}
use litellm_control_plane.Audit.{log_audit}
use litellm_control_plane.Store.Statements.{insert_model, delete_model_row}

unfoldable pub get_model : String → Exec (Option Model)
get_model model_id = gets λ d. first (by (λ m. m.id) model_id) d.models

unfoldable pub list_models : Exec (List Model)
list_models = gets λ d. d.models

unfoldable pub create_model : Model → String → Option String → Exec Model
create_model model actor reason =
    except_integrity (value_error "Model already exists or database constraint failed") do
      insert_model model
      found ← get_model model.id
      created ← assert_some found
      log_audit actor "create" "model" model.id (Changes.row (Dump.model created)) reason
      pure created

unfoldable pub delete_model : String → String → Option String → Exec Bool
delete_model model_id actor reason = do
  found ← get_model model_id
  or_else found (pure false) λ model.
      except_integrity (value_error "Cannot delete model; it may be referenced by active endpoints")
        do
          delete_model_row model_id
          log_audit actor "delete" "model" model_id (Changes.row (Dump.model model)) reason
          pure true

-- `UPDATE models SET f WHERE id = ?`
unfoldable pub update_models : String → (Model → Model) → Exec (Unit {0})
update_models model_id f =
    modify λ d. record d { models = update (by (λ m. m.id) model_id) f d.models }

-- `not update.model_dump(exclude_none=True)`
unfoldable pub no_model_fields : ModelUpdate → Bool
no_model_fields u =
    not (is_some u.name)
    && (not (is_some u.logical_group)
        && (not (is_some u.capability_chat)
            && (not (is_some u.capability_stream)
                && (not (is_some u.capability_tools) && (not (is_some u.capability_embeddings))))))

-- `SET k = ?` for each field that is given
unfoldable pub set_model_fields : ModelUpdate → Model → Model
set_model_fields u m = record m {
  name = get_or u.name m.name;
  logical_group = get_or u.logical_group m.logical_group;
  capability_chat = get_or u.capability_chat m.capability_chat;
  capability_stream = get_or u.capability_stream m.capability_stream;
  capability_tools = get_or u.capability_tools m.capability_tools;
  capability_embeddings = get_or u.capability_embeddings m.capability_embeddings;
}

unfoldable pub update_model : String → ModelUpdate → String → Option String → Exec (Option Model)
update_model model_id fields actor reason = do
  old ← get_model model_id
  or_else old (pure none) λ before. if no_model_fields fields then pure (some before) else do
    update_models model_id (set_model_fields fields)
    found ← get_model model_id
    after ← assert_some found
    log_audit actor "update" "model" model_id (Changes.diff (Dump.model before) (Dump.model after))
        reason
    pure (some after)
