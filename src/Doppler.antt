-- ===== src/Doppler.antt =====
-- `DopplerResolver` of src/secrets/doppler.py; its cache is `cache` of Process.antt. Log lines and
-- the closing of the client are not modelled, and a time is its number of ticks.
pub mod Uri
pub mod Freshness
pub mod Fallback
use litellm_control_plane.Common.{
  ℕ, String, Bool, Option, none, some, List, [], ◌∷◌, ◌+◌, eqb, ltb, if◌then◌else◌,
}
use litellm_control_plane.Common.Text.{concat, env_name, truthy}
use litellm_control_plane.Process.{Method, Request, CacheEntry, lookup, assign}
use litellm_control_plane.World.{
  World, Exec, Error, value_error, runtime_error, library_error, pure, raise, asks, or_else, ◌>>=◌,
  ◌>>◌, utc_now, send, set_process, except_any,
}
use litellm_control_plane.Doppler.Uri.{Reference, parse_uri}

-- What the HTTP client gives: a response, whose JSON is a flat map of texts or raises, or an
-- exception.
pub data Download : Type 0 where
  response : (status_code : ℕ) (json : Option (List (String × String))) → Download
  broken : Download

-- The settings of a resolver, the environment variables, the hash and the HTTP client, which may
-- answer differently in each world.
pub record Resolver : Type 0 where
  pub cache_ttl : ℕ
  pub allow_env_fallback : Bool
  pub getenv : String → Option String
  pub sha256 : String → String
  pub download : World → Request → Download

-- The ladder of status codes.
unfoldable pub read_download : Download → Exec (List (String × String))
read_download broken = raise library_error
read_download (response status_code json) =
    if eqb status_code 401
    then raise (value_error "Unauthorized: Invalid Doppler Service Token")
    else if eqb status_code 429
    then raise (runtime_error "Rate Limited: Doppler API rate limit exceeded")
    else if eqb status_code 200
    then or_else json (raise library_error) pure
    else raise (runtime_error "Doppler API returned unexpected status")

module _ (self : Resolver) where
  unfoldable pub get_token : (project config : String) → Option String
  get_token project config =
      let env_var_name =
        concat "DOPPLER_TOKEN_" (concat (env_name project) (concat "_" (env_name config))) in
      elim (truthy (self.getenv env_var_name)) [
        | some token ↦ some token
        | none ↦ self.getenv "DOPPLER_TOKEN"
      ]

  abbrev pub download_request : String → Request
  download_request token = record {
    method = Method.get;
    url = "https://api.doppler.com/v3/configs/config/secrets/download";
    headers = ("Authorization", concat "Bearer " token) ∷ ("Accept", "application/json") ∷ [];
    payload = [];
  }

  unfoldable pub fetch_secrets_from_doppler : String → Exec (List (String × String))
  fetch_secrets_from_doppler token = do
    reply ← send self.download (download_request token)
    read_download reply

  -- `now - fetch_time < self.cache_ttl`
  abbrev pub unexpired : ℕ → Option CacheEntry → Option (List (String × String))
  unexpired now none = none
  unexpired now (some entry) =
      if ltb now (entry.fetch_time + self.cache_ttl) then some entry.secrets else none

  -- A cache miss or an expired entry.
  unfoldable pub refresh : ℕ → String → Exec (List (String × String))
  refresh now token = do
    secrets ← fetch_secrets_from_doppler token
    set_process λ p. record p {
      cache = assign (self.sha256 token) (record { fetch_time = now; secrets = secrets }) p.cache;
    }
    pure secrets

  unfoldable pub get_secrets_with_cache : String → Exec (List (String × String))
  get_secrets_with_cache token = do
    now ← utc_now
    cached ← asks λ w. unexpired now (w.process.cache (self.sha256 token))
    or_else cached (refresh now token) pure

  -- `if self.allow_env_fallback: …` before a `raise`.
  unfoldable pub fall_back : String → Error → Exec String
  fall_back secret_name e =
      if self.allow_env_fallback then or_else (self.getenv secret_name) (raise e) pure else raise e

  -- The `try` block.
  unfoldable pub secret_of : (secret_name token : String) → Exec String
  secret_of secret_name token = do
    secrets ← get_secrets_with_cache token
    or_else (lookup secret_name secrets)
        (fall_back secret_name (value_error "Secret key not found in resolved Doppler config")) pure

  -- `resolve` from the parsed reference on.
  unfoldable pub resolve_reference : Reference → Exec String
  resolve_reference r =
      or_else (truthy (get_token r.project r.config))
        (fall_back r.secret_name (value_error "Could not resolve secret: No Doppler token found"))
        λ token.
          except_any (secret_of r.secret_name token)
            λ e. fall_back r.secret_name (value_error "Failed to resolve secret from Doppler")

  unfoldable pub resolve : String → Exec String
  resolve uri = do r ← parse_uri uri; resolve_reference r
