-- ===== src/Store/ConsumerKeys.antt =====
-- The virtual keys of src/registry/store.py, one for each consumer and node.
use litellm_control_plane.Common.{
  String, Bool, true, false, Option, none, some, List, ◌==◌, select, if◌then◌else◌,
}
use litellm_control_plane.Common.Text.{concat}
use litellm_control_plane.Table.{first, update, delete, by}
use litellm_control_plane.Models.{KeyStatus, ConsumerKey, Dump, Changes}
use litellm_control_plane.World.{
  value_error, Exec, pure, gets, assert_some, except_integrity, or_else, ◌>>=◌, ◌>>◌, modify,
}
use litellm_control_plane.Audit.{log_audit}
use litellm_control_plane.Store.Statements.{by_pair, insert_consumer_key}

unfoldable pub get_consumer_key : (consumer_id node_id : String) → Exec (Option ConsumerKey)
get_consumer_key consumer_id node_id = gets λ d. first (by_pair consumer_id node_id) d.consumer_keys

-- f"{consumer_id}:{node_id}"
abbrev pub key_target : String → String → String
key_target consumer_id node_id = concat consumer_id (concat ":" node_id)

unfoldable pub create_consumer_key : ConsumerKey → String → Option String → Exec ConsumerKey
create_consumer_key key actor reason =
    except_integrity
      (value_error "ConsumerKey violates constraints. Ensure consumer_id and node_id exist")
      do
        insert_consumer_key key
        found ← get_consumer_key key.consumer_id key.node_id
        created ← assert_some found
        log_audit actor "create_key" "consumer_key" (key_target key.consumer_id key.node_id)
            (Changes.row (Dump.consumer_key created)) reason
        pure created

-- `if consumer_id:`, which takes the empty text for no text
abbrev pub keys_of : Option String → List ConsumerKey → List ConsumerKey
keys_of none keys = keys
keys_of (some consumer_id) keys =
    if consumer_id == "" then keys else select (by (λ k. k.consumer_id) consumer_id) keys

unfoldable pub list_consumer_keys : Option String → Exec (List ConsumerKey)
list_consumer_keys consumer_id = gets λ d. keys_of consumer_id d.consumer_keys

unfoldable pub update_consumer_key_rows :
    (consumer_id node_id : String) → (ConsumerKey → ConsumerKey) → Exec (Unit {0})
update_consumer_key_rows consumer_id node_id f =
    modify λ d. record d { consumer_keys = update (by_pair consumer_id node_id) f d.consumer_keys }

unfoldable pub delete_consumer_key_rows : (consumer_id node_id : String) → Exec (Unit {0})
delete_consumer_key_rows consumer_id node_id =
    modify λ d. record d { consumer_keys = delete (by_pair consumer_id node_id) d.consumer_keys }

-- What the two updates write.
unfoldable pub with_key_status : KeyStatus → ConsumerKey → ConsumerKey
with_key_status status k = record k { status = status }

unfoldable pub with_virtual_key : String → KeyStatus → ConsumerKey → ConsumerKey
with_virtual_key virtual_key status k = record k { virtual_key = virtual_key; status = status }

unfoldable pub update_consumer_key_status :
    (consumer_id node_id : String) → KeyStatus → String → Option String → Exec (Option ConsumerKey)
update_consumer_key_status consumer_id node_id status actor reason = do
  old ← get_consumer_key consumer_id node_id
  or_else old (pure none) λ before. do
    update_consumer_key_rows consumer_id node_id (with_key_status status)
    log_audit actor "update_key_status" "consumer_key" (key_target consumer_id node_id)
        (Changes.diff (Dump.consumer_key before)
          (Dump.consumer_key (with_key_status status before)))
        reason
    get_consumer_key consumer_id node_id

unfoldable pub update_consumer_key :
    (consumer_id node_id virtual_key : String)
    → KeyStatus
    → String
    → Option String
    → Exec (Option ConsumerKey)
update_consumer_key consumer_id node_id virtual_key status actor reason = do
  old ← get_consumer_key consumer_id node_id
  or_else old (pure none) λ before. do
    update_consumer_key_rows consumer_id node_id (with_virtual_key virtual_key status)
    log_audit actor "update_key" "consumer_key" (key_target consumer_id node_id)
        (Changes.diff (Dump.consumer_key before)
          (Dump.consumer_key (with_virtual_key virtual_key status before)))
        reason
    get_consumer_key consumer_id node_id

unfoldable pub delete_consumer_key :
    (consumer_id node_id : String) → String → Option String → Exec Bool
delete_consumer_key consumer_id node_id actor reason = do
  found ← get_consumer_key consumer_id node_id
  or_else found (pure false) λ key. do
    delete_consumer_key_rows consumer_id node_id
    log_audit actor "delete_key" "consumer_key" (key_target consumer_id node_id)
        (Changes.row (Dump.consumer_key key)) reason
    pure true
