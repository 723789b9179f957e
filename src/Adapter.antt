-- ===== src/Adapter.antt =====
-- `LiteLlmAdapter` of src/adapters/litellm_adapter.py. The proxy behind the HTTP client is a
-- parameter; the start of a local proxy process is not modelled.
pub mod Answers
use litellm_control_plane.Common.{
  ℕ, String, Bool, true, false, Option, none, some, List, [], ◌∷◌, ◌++◌, eqb, if◌then◌else◌,
}
use litellm_control_plane.Common.Text.{concat}
use litellm_control_plane.Models.{ℤ, Float, JsonText}
use litellm_control_plane.Process.{Method, Value, Request}
use litellm_control_plane.World.{
  World, Exec, runtime_error, library_error, pure, raise, or_else, ◌>>=◌, send,
}
use litellm_control_plane.Config.Generator.{rstrip_slash}

-- The body of a response: not JSON, or JSON with the text under "key", if it has one.
pub data Body : Type 0 where
  not_json : Body
  json : (key : Option String) → Body

-- What the HTTP client gives: a response, or an `httpx.RequestError`.
pub data Answer : Type 0 where
  response : (status_code : ℕ) (body : Body) → Answer
  broken : Answer

pub record LiteLlmAdapter : Type 0 where
  pub proxy_url : String
  pub master_key : String

-- `LiteLlmAdapter(proxy_url, master_key)`
abbrev pub new_adapter : (proxy_url master_key : String) → LiteLlmAdapter
new_adapter proxy_url master_key = record {
  proxy_url = rstrip_slash proxy_url;
  master_key = master_key;
}

-- The limits of a key: the arguments of the two calls that set them.
pub record KeyLimits : Type 0 where
  pub models : JsonText
  pub metadata : List (String × String)
  pub max_budget : Option Float
  pub rate_limit_rpm : Option ℤ
  pub rate_limit_tpm : Option ℤ

-- `if value is not None: payload[name] = value`
abbrev pub given_field : {A : Type 0} → String → (A → Value) → Option A → List (String × Value)
given_field name value none = []
given_field name value (some a) = (name, value a) ∷ []

unfoldable pub limits_payload : KeyLimits → List (String × Value)
limits_payload l =
    ("models", Value.json l.models)
      ∷ ("metadata", Value.object l.metadata)
      ∷ given_field "max_budget" Value.number l.max_budget
    ++ given_field "rate_limit_rpm" Value.integer l.rate_limit_rpm
    ++ given_field "rate_limit_tpm" Value.integer l.rate_limit_tpm

-- `res["key"]` of the response of `generate_key`.
abbrev pub key_of : Body → Exec String
key_of not_json = raise library_error
key_of (json none) = raise library_error
key_of (json (some key)) = pure key

-- `return response.json()`
abbrev pub json_of : Body → Exec (Unit {0})
json_of not_json = raise library_error
json_of (json key) = pure tt

module _ (proxies : World → Request → Answer) (self : LiteLlmAdapter) where
  abbrev pub get_headers : List (String × String)
  get_headers =
      ("Authorization", concat "Bearer " self.master_key)
      ∷ ("Content-Type", "application/json")
      ∷ []

  abbrev pub post_request : String → List (String × Value) → Request
  post_request path payload = record {
    method = Method.post;
    url = concat self.proxy_url path;
    headers = get_headers;
    payload = payload;
  }

  abbrev pub is_ok : Answer → Bool
  is_ok broken = false
  is_ok (response status_code body) = eqb status_code 200

  unfoldable pub check_health : Exec Bool
  check_health = do
    answer ← send proxies (record {
      method = Method.get;
      url = concat self.proxy_url "/health/readiness";
      headers = [];
      payload = [];
    })
    pure (is_ok answer)

  -- The body of a response with the status 200.
  unfoldable pub body_of : String → Answer → Exec Body
  body_of failure broken = raise library_error
  body_of failure (response status_code body) =
      if eqb status_code 200 then pure body else raise (runtime_error failure)

  -- `generate_key`, and `res["key"]`, which is all that its callers take from the response.
  unfoldable pub generate_key : KeyLimits → Exec String
  generate_key limits = do
    answer ← send proxies (post_request "/key/generate" (limits_payload limits))
    body ← body_of "Failed to generate LiteLLM key" answer
    key_of body

  unfoldable pub update_key : String → KeyLimits → Exec (Unit {0})
  update_key key limits = do
    answer ←
        send proxies (post_request "/key/update" (("key", Value.text key) ∷ limits_payload limits))
    body ← body_of "Failed to update LiteLLM key" answer
    json_of body

  -- The request that revokes a key.
  abbrev pub delete_request : String → Request
  delete_request key = post_request "/key/delete" (("keys", Value.texts (key ∷ [])) ∷ [])

  abbrev pub deleted : Answer → Exec Bool
  deleted broken = raise library_error
  deleted (response status_code body) = pure (eqb status_code 200)

  unfoldable pub delete_key : String → Exec Bool
  delete_key key = do answer ← send proxies (delete_request key); deleted answer
