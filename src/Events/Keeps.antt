-- ===== src/Events/Keeps.antt =====
-- An invariant that every statement keeps is kept by the callback of src/events/ingestion.py,
-- whatever the payload, whether it returns or raises.
use litellm_control_plane.Common.{ℕ, String, Bool, true, false, List, [], ◌∷◌, Option}
use litellm_control_plane.World.{Db}
use litellm_control_plane.World.Keeps.{Keeps, Keeps-bind, keeps_rules}
use litellm_control_plane.Store.Keeps.{KeepsStatements}
use litellm_control_plane.Store.Accounts.{get_account}
use litellm_control_plane.Store.Endpoints.{get_endpoint}
use litellm_control_plane.Health.StateMachine.Keeps.{
  handle_account_failure-Keeps, handle_endpoint_failure-Keeps, handle_account_success-Keeps,
  handle_endpoint_success-Keeps,
}
use litellm_control_plane.Events.Payload.{
  Json, null, boolean, integer, float, text, array, object, Fields,
}
use litellm_control_plane.Events.{
  Python, Converted, int, bad_value, bad_type, as_fields, read_code, as_text, error_block,
  classify_error, ids_of, known_endpoint, known_account, report_failure, report_success,
  process_item, ingest_item, ingest_items, ingest_event_callback,
}

module _ {P : Db → Type 0} where
  as_fields-Keeps : (v : Json) → Keeps P (as_fields v)
  as_fields-Keeps null = search (keeps_rules)
  as_fields-Keeps (boolean b) = search (keeps_rules)
  as_fields-Keeps (integer n) = search (keeps_rules)
  as_fields-Keeps (float f) = search (keeps_rules)
  as_fields-Keeps (text s) = search (keeps_rules)
  as_fields-Keeps (array vs) = search (keeps_rules)
  as_fields-Keeps (object fields) = search (keeps_rules)

  module _ (python : Python) where
    as_text-Keeps : (v : Json) → Keeps P (as_text python v)
    as_text-Keeps null = search (keeps_rules)
    as_text-Keeps (boolean b) = search (keeps_rules)
    as_text-Keeps (integer n) = search (keeps_rules)
    as_text-Keeps (float f) = search (keeps_rules)
    as_text-Keeps (text s) = search (keeps_rules)
    as_text-Keeps (array vs) = search (keeps_rules)
    as_text-Keeps (object fields) = search (keeps_rules)

    read_code-Keeps : (b : Bool) (c : Converted) → Keeps P (read_code python b c)
    read_code-Keeps false c = search (keeps_rules)
    read_code-Keeps true (int n) = search (keeps_rules)
    read_code-Keeps true bad_value = search (keeps_rules)
    read_code-Keeps true bad_type = search (keeps_rules)

    error_block-Keeps : (v : Json) → Keeps P (error_block python v)
    unfolding error_block
    error_block-Keeps null = search (keeps_rules)
    error_block-Keeps (boolean b) = search (keeps_rules)
    error_block-Keeps (integer n) = search (keeps_rules)
    error_block-Keeps (float f) = search (keeps_rules)
    error_block-Keeps (text s) = search (keeps_rules)
    error_block-Keeps (array vs) = search (keeps_rules)
    error_block-Keeps (object fields) =
        search (keeps_rules, as_text-Keeps, read_code-Keeps) depth 20

    pub classify_error-Keeps : (item : Fields) → Keeps P (classify_error python item)
    unfolding classify_error
    classify_error-Keeps item = search (keeps_rules, error_block-Keeps, as_text-Keeps) depth 20

    ids_of-Keeps : (item : Fields) → Keeps P (ids_of python item)
    unfolding ids_of
    ids_of-Keeps item = search (keeps_rules, as_fields-Keeps) depth 20

    known_endpoint-Keeps :
        (validated : Bool) (id : Option String) → Keeps P (known_endpoint python validated id)
    unfolding known_endpoint get_endpoint
    known_endpoint-Keeps validated id = search (keeps_rules) depth 20

    known_account-Keeps :
        (validated : Bool) (id : Option String) → Keeps P (known_account python validated id)
    unfolding known_account get_account
    known_account-Keeps validated id = search (keeps_rules) depth 20

module _ {P : Db → Type 0} (s : KeepsStatements P) (python : Python) where
  report_failure-Keeps :
      (endpoint_id account_id : Option String) (code : ℕ) (message : String) (raw : Option String)
      → Keeps P (report_failure python endpoint_id account_id code message raw)
  unfolding report_failure
  report_failure-Keeps endpoint_id account_id code message raw =
      search (keeps_rules, handle_endpoint_failure-Keeps s, handle_account_failure-Keeps s) depth 20

  report_success-Keeps :
      (endpoint_id account_id : Option String)
      → Keeps P (report_success python endpoint_id account_id)
  unfolding report_success
  report_success-Keeps endpoint_id account_id =
      search (keeps_rules, handle_endpoint_success-Keeps s, handle_account_success-Keeps s) depth 20

  process_item-Keeps :
      (item : Fields) (endpoint_id account_id : Option String)
      → Keeps P (process_item python item endpoint_id account_id)
  unfolding process_item
  process_item-Keeps item endpoint_id account_id =
      search (keeps_rules, classify_error-Keeps, report_failure-Keeps, report_success-Keeps) depth
        20

  ingest_item-Keeps :
      (validated : Bool) (item : Fields) → Keeps P (ingest_item python validated item)
  unfolding ingest_item
  ingest_item-Keeps validated item =
      search
        (keeps_rules, ids_of-Keeps, known_endpoint-Keeps, known_account-Keeps, process_item-Keeps)
        depth 20

  ingest_items-Keeps :
      (validated : Bool) (items : List Fields) (count : ℕ)
      → Keeps P (ingest_items python validated items count)
  unfolding ingest_items
  ingest_items-Keeps validated [] count = search (keeps_rules)
  ingest_items-Keeps validated (item ∷ items) count =
      Keeps-bind _ _ (ingest_item-Keeps validated item)
        λ counted. ingest_items-Keeps validated items _

  pub ingest_event_callback-Keeps :
      (validated : Bool) (items : List Fields)
      → Keeps P (ingest_event_callback python validated items)
  unfolding ingest_event_callback
  ingest_event_callback-Keeps validated items = ingest_items-Keeps validated items _
