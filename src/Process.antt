-- ===== src/Process.antt =====
-- What the control plane changes besides its database: the HTTP requests that it has sent, the
-- cache of src/secrets/doppler.py, the files and the paths that src/rollout/orchestrator.py keeps.
-- A rollback of the database leaves all of it as it is.
use litellm_control_plane.Common.{ℕ, String, Option, none, some, List, [], ◌∷◌, ◌==◌, if◌then◌else◌}
use litellm_control_plane.Models.{ℤ, Float, JsonText}

pub data Method : Type 0 where
  get post : Method

-- The values of a JSON payload that src/adapters/litellm_adapter.py builds.
pub data Value : Type 0 where
  text : String → Value
  texts : List String → Value
  json : JsonText → Value
  number : Float → Value
  integer : ℤ → Value
  object : List (String × String) → Value

pub record Request : Type 0 where
  pub method : Method
  pub url : String
  pub headers : List (String × String)
  pub payload : List (String × Value)

-- An entry of `DopplerResolver._cache`: when the secrets were fetched, and the secrets.
pub record CacheEntry : Type 0 where
  pub fetch_time : ℕ
  pub secrets : List (String × String)

-- `sent` has the latest request first; a key of `cache` is the hash of a token.
pub record Process : Type 0 where
  pub sent : List Request
  pub cache : String → Option CacheEntry
  pub files : String → Option String
  pub node_config_paths : String → Option String

-- `d.get(key)` on a dict with texts for keys
abbrev pub lookup : {A : Type 0} → String → List (String × A) → Option A
lookup key [] = none
lookup key ((k, a) ∷ entries) = if k == key then some a else lookup key entries

-- `d[key] = value`
abbrev pub assign : {A : Type 0} → String → A → (String → Option A) → String → Option A
assign key a d k = if key == k then some a else d k
