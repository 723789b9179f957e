-- ===== src/Doppler/Fallback.antt =====
-- The environment variables that `resolve` of src/secrets/doppler.py falls back to.
use litellm_control_plane.Common.{String, some, ◌≡◌, refl}
use litellm_control_plane.Common.Text.{truthy}
use litellm_control_plane.Process.{CacheEntry, lookup}
use litellm_control_plane.World.{World, Error, value_error}
use litellm_control_plane.World.Raises.{Raises, raises_rules}
use litellm_control_plane.Doppler.{Resolver, get_token, fall_back, resolve_reference, resolve}
use litellm_control_plane.Doppler.Uri.{Reference, match_uri, parse_uri}

-- `v` is a secret of the cache entry of the token that the environment names for the reference.
pub record FromDoppler (self : Resolver) (uri v : String) (w' : World) : Type 0 where
  pub reference : Reference
  pub parsed : match_uri uri ≡ some reference
  pub token : String
  pub named : truthy (get_token self reference.project reference.config) ≡ some token
  pub entry : CacheEntry
  pub stored : w'.process.cache (self.sha256 token) ≡ some entry
  pub held : lookup reference.secret_name entry.secrets ≡ some v

abbrev pub IsValueError : Error → Type 0
IsValueError e = (text : String) × (e ≡ value_error text)

value_error-IsValueError : (text : String) → IsValueError (value_error text)
value_error-IsValueError text = (text, refl)

-- With or without the fallback, `resolve` raises nothing but a `ValueError`.
pub resolve-IsValueError : (self : Resolver) (uri : String) → Raises IsValueError (resolve self uri)
unfolding resolve parse_uri resolve_reference fall_back
resolve-IsValueError self uri = search (raises_rules, value_error-IsValueError) depth 20
