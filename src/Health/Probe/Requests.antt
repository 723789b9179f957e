-- ===== src/Health/Probe/Requests.antt =====
-- The requests of `probe_endpoint` of src/health/probe.py, by the type of the provider.
use litellm_control_plane.Common.{ℕ, String, List, [], ◌∷◌, ◌==◌, if◌then◌else◌}
use litellm_control_plane.Common.Text.{concat, codes_are}

-- The two bodies: a chat completion of one token, and Ollama's generation of one token.
pub data Payload : Type 0 where
  chat : (model : String) (content : String) (max_tokens : ℕ) → Payload
  generate : (model prompt : String) (num_predict : ℕ) → Payload

pub record ProbeRequest : Type 0 where
  pub url : String
  pub headers : List (String × String)
  pub payload : Payload

abbrev bearer : String → List (String × String)
bearer api_key = ("Authorization", concat "Bearer " api_key) ∷ []

-- `prov_type` is the code points of the type in lower case. The ladder of `if prov_type == …`.
unfoldable pub request_to : (prov_type : List ℕ) → (api_key model_name : String) → ProbeRequest
request_to prov_type api_key model_name =
    if codes_are "openai" prov_type
    then record {
      url = "https://api.openai.com/v1/chat/completions";
      headers = bearer api_key;
      payload = chat model_name "ping" 1;
    }
    else if codes_are "anthropic" prov_type
    then record {
      url = "https://api.anthropic.com/v1/messages";
      headers =
          ("x-api-key", api_key)
          ∷ ("anthropic-version", "2023-06-01")
          ∷ ("content-type", "application/json")
          ∷ [];
      payload = chat model_name "ping" 1;
    }
    else if codes_are "ollama" prov_type
    then record {
      url = "http://localhost:11434/api/generate";
      headers = if api_key == "" then [] else bearer api_key;
      payload = generate model_name "ping" 1;
    }
    else record {
      url =
          concat
            (if codes_are "nim" prov_type
              then "https://integrate.api.nvidia.com/v1"
              else "https://api.openai.com/v1")
            "/chat/completions";
      headers = bearer api_key;
      payload = chat model_name "ping" 1;
    }
