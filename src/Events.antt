-- ===== src/Events.antt =====
-- src/events/ingestion.py. Log lines and metrics are not modelled: their block swallows each of its
-- exceptions and only reads the database. An id is a text, a status code is not negative, and the
-- class of an exception and the message of an error are no lists and no objects. `type_error` stands
-- for an `AttributeError` too.
pub mod Payload
pub mod Keeps
pub mod Scope
use litellm_control_plane.Common.{
  ℕ, suc, String, Bool, true, false, Option, none, some, List, [], ◌∷◌, ◌==◌, ◌&&◌, ◌||◌, not,
  is_some, if◌then◌else◌,
}
use litellm_control_plane.Common.Text.{contains, contains_lower}
use litellm_control_plane.World.{World, Exec, type_error, pure, raise, or_else, ◌>>=◌, ◌>>◌}
use litellm_control_plane.Store.Accounts.{get_account}
use litellm_control_plane.Store.Endpoints.{get_endpoint}
use litellm_control_plane.Health.StateMachine.{
  is_auth_error, handle_account_failure, handle_endpoint_failure, handle_account_success,
  handle_endpoint_success,
}
use litellm_control_plane.Events.Payload.{
  Json, null, text, array, object, Fields, end, get, has_key, truth, or_json, id_of,
}

-- What `int(value)` gives: a number, a `ValueError`, or another exception.
pub data Converted : Type 0 where
  int : ℕ → Converted
  bad_value bad_type : Converted

-- Python's `str`, `json.dumps(…, ensure_ascii=False)` and `int` on a JSON value.
pub record Python : Type 0 where
  pub str : Json → String
  pub dumps : Json → String
  pub int_of : Json → Converted

-- `value or {}`, of which the keys are read
abbrev pub as_fields : Json → Exec Fields
as_fields (object fields) = pure fields
as_fields v = if truth v then raise type_error else pure end

-- `item.get("error") or item.get("exception")`
unfoldable pub error_of : Fields → Json
error_of item = or_json (get "error" item) (get "exception" item)

-- `a or b` on ids
abbrev pub first_of : Option String → Option String → Option String
first_of none b = b
first_of (some a) b = some a

module _ (python : Python) where
  unfoldable pub extract_raw_response : Fields → Option String
  extract_raw_response item = elim (error_of item) [
    | null ↦ none
    | object fields ↦ some (python.dumps (object fields))
    | v ↦ some (python.str v)
  ]

  -- `if code: try: error_code = int(code) except ValueError: pass`
  abbrev pub read_code : Bool → Converted → Exec ℕ
  read_code false c = pure 500
  read_code true (int n) = pure n
  read_code true bad_value = pure 500
  read_code true bad_type = raise type_error

  -- A text, of which parts are searched.
  abbrev pub as_text : Json → Exec String
  as_text (text s) = pure s
  as_text v = raise type_error

  -- The code and the message of the error block.
  unfoldable pub error_block : Json → Exec (ℕ × String)
  error_block (object fields) =
      if truth (object fields)
      then (do
        message ← as_text (
            or_json (get "message" fields) (
              or_json (get "error" fields)
                (or_json (get "detail" fields) (text (python.str (object fields))))))
        let status = or_json (get "status_code" fields) (get "code" fields)
        code ← read_code (truth status) (python.int_of status)
        pure (code, message))
      else pure (500, "Unknown error")
  error_block v = pure (if truth v then (500, python.str v) else (500, "Unknown error"))

  -- `item.get("exception_class") or ""`
  abbrev pub exception_class : Fields → Exec String
  exception_class item =
      let v = get "exception_class" item in if truth v then as_text v else pure ""

  -- The ladder on the class and the message.
  unfoldable pub code_of : (exception_class error_msg : String) → (error_code : ℕ) → ℕ
  code_of exception_class error_msg error_code =
      if contains "RateLimit" exception_class
        || (contains "429" error_msg || contains_lower "rate limit" error_msg)
      then 429
      else if contains "Authentication" exception_class
          || (contains "401" error_msg
              || (contains "403" error_msg || contains_lower "api key" error_msg))
      then 401
      else if contains "Timeout" exception_class || contains_lower "timeout" error_msg
      then 504
      else error_code

  unfoldable pub classify_error : Fields → Exec (ℕ × String)
  classify_error item = do
    (error_code, error_msg) ← error_block (error_of item)
    class ← exception_class item
    pure (code_of class error_msg error_code, error_msg)

  -- The ids of the endpoint and of the account.
  unfoldable pub ids_of : Fields → Exec (Option String × Option String)
  ids_of item = do
    meta ← as_fields (get "metadata" item)
    let endpoint_id = id_of (get "endpoint_id" meta)
    let account_id = id_of (get "account_id" meta)
    if is_some endpoint_id && is_some account_id then pure (endpoint_id, account_id) else (do
      litellm_params ← as_fields (get "litellm_params" item)
      params_meta ← as_fields (get "metadata" litellm_params)
      pure (
        first_of endpoint_id (id_of (get "endpoint_id" params_meta)),
        first_of account_id (id_of (get "account_id" params_meta)),
      ))

  -- `if endpoint_id and not validator.get_endpoint(conn, endpoint_id): endpoint_id = None`
  unfoldable pub known_endpoint : (validated : Bool) → Option String → Exec (Option String)
  known_endpoint validated endpoint_id = or_else endpoint_id (pure none) λ id. do
    found ← get_endpoint id
    pure (if validated && not (is_some found) then none else some id)

  unfoldable pub known_account : (validated : Bool) → Option String → Exec (Option String)
  known_account validated account_id = or_else account_id (pure none) λ id. do
    found ← get_account id
    pure (if validated && not (is_some found) then none else some id)

  -- `"error" in item or "exception" in item or item.get("status") == "failed"`
  abbrev pub text_is : String → Json → Bool
  text_is s (text t) = t == s
  text_is s _ = false

  unfoldable pub is_failure : Fields → Bool
  is_failure item =
      has_key "error" item || (has_key "exception" item || text_is "failed" (get "status" item))

  abbrev pub actor : String
  actor = "callback-ingest"

  -- The scoping of a failure to the endpoint and to the account.
  unfoldable pub report_failure :
      (endpoint_id account_id : Option String) → ℕ → String → Option String → Exec (Unit {0})
  report_failure endpoint_id account_id error_code error_msg raw_response = do
    or_else endpoint_id (pure tt)
        λ id. handle_endpoint_failure id error_code error_msg actor raw_response
    or_else account_id (pure tt) λ id.
        if is_auth_error error_code error_msg || not (is_some endpoint_id)
        then handle_account_failure id error_code error_msg actor raw_response
        else pure tt

  unfoldable pub report_success : (endpoint_id account_id : Option String) → Exec (Unit {0})
  report_success endpoint_id account_id = do
    or_else endpoint_id (pure tt) λ id. handle_endpoint_success id actor
    or_else account_id (pure tt) λ id. handle_account_success id actor

  -- From the validated ids on: whether the item is counted.
  unfoldable pub process_item : Fields → (endpoint_id account_id : Option String) → Exec Bool
  process_item item endpoint_id account_id =
      if not (is_some endpoint_id) && not (is_some account_id) then pure false else (do
        if is_failure item
            then (do
              (error_code, error_msg) ← classify_error item
              report_failure endpoint_id account_id error_code error_msg
                  (extract_raw_response item))
            else report_success endpoint_id account_id
        pure true)

  -- The body of the loop. Ids that are missing pass the validation as they are.
  unfoldable pub ingest_item : (validated : Bool) → Fields → Exec Bool
  ingest_item validated item = do
    (endpoint_id, account_id) ← ids_of item
    known_endpoint_id ← known_endpoint validated endpoint_id
    known_account_id ← known_account validated account_id
    process_item item known_endpoint_id known_account_id

  -- `processed_count`
  unfoldable pub ingest_items : (validated : Bool) → List Fields → ℕ → Exec ℕ
  ingest_items validated [] processed_count = pure processed_count
  ingest_items validated (item ∷ items) processed_count = do
    counted ← ingest_item validated item
    ingest_items validated items (if counted then suc processed_count else processed_count)

  -- The payload as a list; the answer is the count that the text of the response names.
  unfoldable pub ingest_event_callback : (validated : Bool) → List Fields → Exec ℕ
  ingest_event_callback validated items = ingest_items validated items 0
