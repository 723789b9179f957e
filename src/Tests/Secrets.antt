-- ===== src/Tests/Secrets.antt =====
-- The statements on secrets, at a token that Doppler takes.
use litellm_control_plane.Common.{false, none, some, [], ◌∷◌, ◌≡◌, refl, ◌==◌, ◌↔◌, if◌then◌else◌}
use litellm_control_plane.Models.{Status}
use litellm_control_plane.World.{set_process, send, utc_now, ◌>>=◌, World, returned}
use litellm_control_plane.World.Raises.{Raises}
use litellm_control_plane.Doppler.{
  read_download, fetch_secrets_from_doppler, refresh, Resolver, response, get_secrets_with_cache,
  resolve,
}
use litellm_control_plane.Doppler.Uri.{Reference, parse_uri}
use litellm_control_plane.Doppler.Uri.RoundTrip.{Prints, parse_uri-Prints}
use litellm_control_plane.Doppler.Freshness.{IsFresh, get_secrets_with_cache-IsFresh}
use litellm_control_plane.Doppler.Fallback.{IsValueError, resolve-IsValueError}
use litellm_control_plane.Tests.Fixtures.{endpoint_world}

abbrev resolver : Resolver
resolver = record {
  cache_ttl = 300;
  allow_env_fallback = false;
  getenv = λ name. if name == "DOPPLER_TOKEN" then some "dp.st.prd" else none;
  sha256 = λ token. token;
  download = λ w r. response 200 (some (("OPENAI_KEY", "sk-live") ∷ []));
}

abbrev openai_key : Reference
openai_key = record { project = "infra"; config = "prd"; secret_name = "OPENAI_KEY" }

abbrev start : World
start = endpoint_world Status.active 0

parse_uri_example :
    (parse_uri "doppler://infra/prd/OPENAI_KEY" start ≡ (returned openai_key, start))
    ↔ Prints openai_key "doppler://infra/prd/OPENAI_KEY"
parse_uri_example = parse_uri-Prints "doppler://infra/prd/OPENAI_KEY" openai_key start

cache_example :
    IsFresh resolver "dp.st.prd"
      (("OPENAI_KEY", "sk-live") ∷ [])
      start
      (get_secrets_with_cache resolver "dp.st.prd" start).1
unfolding get_secrets_with_cache ◌>>=◌ utc_now refresh fetch_secrets_from_doppler send read_download
    set_process
cache_example =
    get_secrets_with_cache-IsFresh resolver "dp.st.prd" (("OPENAI_KEY", "sk-live") ∷ []) start refl

resolve_error_example : Raises IsValueError (resolve resolver "doppler://infra")
resolve_error_example = resolve-IsValueError resolver "doppler://infra"
