-- ===== src/Store/Consumers.antt =====
-- The consumers of src/registry/store.py.
use litellm_control_plane.Common.{
  String, Bool, true, false, Option, none, some, List, not, ◌&&◌, is_some, get_or, if◌then◌else◌,
}
use litellm_control_plane.Table.{by, first, update}
use litellm_control_plane.Models.{Consumer, ConsumerUpdate, Dump, Changes}
use litellm_control_plane.World.{
  value_error, Exec, pure, gets, assert_some, except_integrity, or_else, ◌>>=◌, ◌>>◌, statement,
}
use litellm_control_plane.Audit.{log_audit}
use litellm_control_plane.Store.Statements.{insert_consumer, delete_consumer_row, dangling}

unfoldable pub get_consumer : String → Exec (Option Consumer)
get_consumer consumer_id = gets λ d. first (by (λ c. c.id) consumer_id) d.consumers

unfoldable pub list_consumers : Exec (List Consumer)
list_consumers = gets λ d. d.consumers

unfoldable pub create_consumer : Consumer → String → Option String → Exec Consumer
create_consumer consumer actor reason =
    except_integrity (value_error "Consumer already exists or constraint failed") do
      insert_consumer consumer
      found ← get_consumer consumer.id
      created ← assert_some found
      log_audit actor "create" "consumer" consumer.id (Changes.row (Dump.consumer created)) reason
      pure created

-- `not update.model_dump(exclude_none=True)`
unfoldable pub no_consumer_fields : ConsumerUpdate → Bool
no_consumer_fields u =
    not (is_some u.name)
    && (not (is_some u.max_budget)
        && (not (is_some u.rate_limit_rpm)
            && (not (is_some u.rate_limit_tpm)
                && (not (is_some u.status) && not (is_some u.profile_id)))))

-- A column that may be NULL is set where the field is given, and cannot be cleared.
abbrev pub given_or : {A : Type 0} → Option A → Option A → Option A
given_or none old = old
given_or (some a) old = some a

-- `SET k = ?` for each field that is given, and `{**before_dict, **fields}`
unfoldable pub set_consumer_fields : ConsumerUpdate → Consumer → Consumer
set_consumer_fields u c = record c {
  name = get_or u.name c.name;
  max_budget = given_or u.max_budget c.max_budget;
  rate_limit_rpm = given_or u.rate_limit_rpm c.rate_limit_rpm;
  rate_limit_tpm = given_or u.rate_limit_tpm c.rate_limit_tpm;
  status = get_or u.status c.status;
  profile_id = given_or u.profile_id c.profile_id;
}

-- FOREIGN KEY (profile_id); nothing here catches the `IntegrityError`.
unfoldable pub update_consumer_row : String → ConsumerUpdate → Exec (Unit {0})
update_consumer_row consumer_id fields =
    statement (λ d. dangling fields.profile_id d.policy_profiles)
      λ d. record d {
        consumers = update (by (λ c. c.id) consumer_id) (set_consumer_fields fields) d.consumers;
      }

unfoldable pub update_consumer :
    String → ConsumerUpdate → String → Option String → Exec (Option Consumer)
update_consumer consumer_id fields actor reason = do
  old ← get_consumer consumer_id
  or_else old (pure none) λ before. if no_consumer_fields fields then pure (some before) else do
    update_consumer_row consumer_id fields
    log_audit actor "update" "consumer" consumer_id
        (Changes.diff (Dump.consumer before) (Dump.consumer (set_consumer_fields fields before)))
        reason
    get_consumer consumer_id

unfoldable pub delete_consumer : String → String → Option String → Exec Bool
delete_consumer consumer_id actor reason = do
  found ← get_consumer consumer_id
  or_else found (pure false) λ consumer. do
    delete_consumer_row consumer_id
    log_audit actor "delete" "consumer" consumer_id (Changes.row (Dump.consumer consumer)) reason
    pure true
