-- ===== src/Store/Providers.antt =====
-- The providers of src/registry/store.py.
use litellm_control_plane.Common.{
  String, Bool, true, false, Option, none, some, List, not, ◌&&◌, is_some, get_or, if◌then◌else◌,
}
use litellm_control_plane.Table.{by, first, update}
use litellm_control_plane.Models.{Provider, ProviderUpdate, Dump, Changes}
use litellm_control_plane.World.{
  value_error, Exec, pure, gets, assert_some, except_integrity, or_else, ◌>>=◌, ◌>>◌, modify,
}
use litellm_control_plane.Audit.{log_audit}
use litellm_control_plane.Store.Statements.{insert_provider, delete_provider_row}

unfoldable pub get_provider : String → Exec (Option Provider)
get_provider provider_id = gets λ d. first (by (λ p. p.id) provider_id) d.providers

unfoldable pub list_providers : Exec (List Provider)
list_providers = gets λ d. d.providers

unfoldable pub create_provider : Provider → String → Option String → Exec Provider
create_provider provider actor reason =
    except_integrity (value_error "Provider already exists or database constraint failed") do
      insert_provider provider
      found ← get_provider provider.id
      created ← assert_some found
      log_audit actor "create" "provider" provider.id (Changes.row (Dump.provider created)) reason
      pure created

unfoldable pub delete_provider : String → String → Option String → Exec Bool
delete_provider provider_id actor reason = do
  found ← get_provider provider_id
  or_else found (pure false) λ provider.
      except_integrity
        (value_error "Cannot delete provider; it may be referenced by active accounts")
        do
          delete_provider_row provider_id
          log_audit actor "delete" "provider" provider_id (Changes.row (Dump.provider provider))
              reason
          pure true

-- `UPDATE providers SET f WHERE id = ?`
unfoldable pub update_providers : String → (Provider → Provider) → Exec (Unit {0})
update_providers provider_id f =
    modify λ d. record d { providers = update (by (λ p. p.id) provider_id) f d.providers }

-- `not update.model_dump(exclude_none=True)`
unfoldable pub no_provider_fields : ProviderUpdate → Bool
no_provider_fields u = not (is_some u.name) && (not (is_some u.type))

-- `SET k = ?` for each field that is given
unfoldable pub set_provider_fields : ProviderUpdate → Provider → Provider
set_provider_fields u p = record p { name = get_or u.name p.name; type = get_or u.type p.type }

unfoldable pub update_provider :
    String → ProviderUpdate → String → Option String → Exec (Option Provider)
update_provider provider_id fields actor reason = do
  old ← get_provider provider_id
  or_else old (pure none) λ before. if no_provider_fields fields then pure (some before) else do
    update_providers provider_id (set_provider_fields fields)
    found ← get_provider provider_id
    after ← assert_some found
    log_audit actor "update" "provider" provider_id
        (Changes.diff (Dump.provider before) (Dump.provider after)) reason
    pure (some after)
