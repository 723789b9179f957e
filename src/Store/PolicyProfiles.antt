-- ===== src/Store/PolicyProfiles.antt =====
-- The policy profiles of src/registry/store.py.
use litellm_control_plane.Common.{
  ℕ, String, Bool, true, false, Option, none, some, List, not, ◌&&◌, is_some, get_or, if◌then◌else◌,
  ltb, length, select,
}
use litellm_control_plane.Table.{by, by_option, first, update}
use litellm_control_plane.Models.{PolicyProfile, PolicyProfileUpdate, Dump, Changes}
use litellm_control_plane.World.{
  value_error, Exec, pure, raise, gets, assert_some, except_integrity, or_else, ◌>>=◌, ◌>>◌, modify,
}
use litellm_control_plane.Audit.{log_audit}
use litellm_control_plane.Store.Consumers.{given_or}
use litellm_control_plane.Store.Statements.{insert_policy_profile, delete_policy_profile_row}

unfoldable pub get_policy_profile : String → Exec (Option PolicyProfile)
get_policy_profile profile_id = gets λ d. first (by (λ p. p.id) profile_id) d.policy_profiles

unfoldable pub list_policy_profiles : Exec (List PolicyProfile)
list_policy_profiles = gets λ d. d.policy_profiles

unfoldable pub create_policy_profile : PolicyProfile → String → Option String → Exec PolicyProfile
create_policy_profile profile actor reason =
    except_integrity (value_error "PolicyProfile already exists or constraint failed") do
      insert_policy_profile profile
      found ← get_policy_profile profile.id
      created ← assert_some found
      log_audit actor "create" "policy_profile" profile.id
          (Changes.row (Dump.policy_profile created)) reason
      pure created

-- `UPDATE policy_profiles SET f WHERE id = ?`
unfoldable pub update_policy_profiles : String → (PolicyProfile → PolicyProfile) → Exec (Unit {0})
update_policy_profiles profile_id f =
    modify
      λ d. record d { policy_profiles = update (by (λ p. p.id) profile_id) f d.policy_profiles }

-- `not update.model_dump(exclude_none=True)`
unfoldable pub no_profile_fields : PolicyProfileUpdate → Bool
no_profile_fields u =
    not (is_some u.name) && (not (is_some u.allowed_model_groups) && not (is_some u.description))

-- `SET k = ?` for each field that is given, and `{**before_dict, **fields}`
unfoldable pub set_profile_fields : PolicyProfileUpdate → PolicyProfile → PolicyProfile
set_profile_fields u p = record p {
  name = get_or u.name p.name;
  allowed_model_groups = get_or u.allowed_model_groups p.allowed_model_groups;
  description = given_or u.description p.description;
}

unfoldable pub update_policy_profile :
    String → PolicyProfileUpdate → String → Option String → Exec (Option PolicyProfile)
update_policy_profile profile_id fields actor reason = do
  old ← get_policy_profile profile_id
  or_else old (pure none) λ before. if no_profile_fields fields then pure (some before) else do
    update_policy_profiles profile_id (set_profile_fields fields)
    log_audit actor "update" "policy_profile" profile_id
        (Changes.diff (Dump.policy_profile before)
          (Dump.policy_profile (set_profile_fields fields before)))
        reason
    get_policy_profile profile_id

-- `SELECT COUNT(*) FROM consumers WHERE profile_id = ?`
unfoldable pub count_consumers_of : String → Exec ℕ
count_consumers_of profile_id =
    gets λ d. length (select (λ c. by_option c.profile_id profile_id) d.consumers)

-- `if count > 0: raise ValueError(…)`
unfoldable pub reject_if_referenced : ℕ → Exec (Unit {0})
reject_if_referenced count =
    if ltb 0 count
    then raise (value_error "Cannot delete policy profile; it is referenced by active consumers.")
    else pure tt

unfoldable pub delete_policy_profile : String → String → Option String → Exec Bool
delete_policy_profile profile_id actor reason = do
  found ← get_policy_profile profile_id
  or_else found (pure false) λ profile. do
    references ← count_consumers_of profile_id
    reject_if_referenced references
    delete_policy_profile_row profile_id
    log_audit actor "delete" "policy_profile" profile_id (Changes.row (Dump.policy_profile profile))
        reason
    pure true
