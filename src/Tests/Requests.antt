-- ===== src/Tests/Requests.antt =====
-- The invariants, at a database with rows and at requests of which one raises.
use litellm_control_plane.Common.{none, List, [], ◌∷◌, refl, any}
use litellm_control_plane.Table.{has}
use litellm_control_plane.Models.{Status}
use litellm_control_plane.Store.Consistency.{IsConsistent}
use litellm_control_plane.Store.AuditTrail.{AuditTrail}
use litellm_control_plane.Service.{serve}
use litellm_control_plane.Service.Calls.{Call}
use litellm_control_plane.Service.Invariants.{serve-IsConsistent, serve-AuditTrail}
use litellm_control_plane.Tests.Fixtures.{openai, account_world}

-- A rate limit, then a request whose second call raises, since the provider is referenced.
abbrev requests : List (List Call)
requests =
    (Call.handle_account_failure "a1" 429 "slow" "proxy" none ∷ [])
    ∷ (Call.create_provider (record openai { id = "p2" }) "ops" none
        ∷ Call.delete_provider "p1" "ops" none
        ∷ [])
    ∷ []

pub start-IsConsistent : IsConsistent (account_world Status.active 0).db
unfolding has any
start-IsConsistent = record {
  node_ids = (refl, tt);
  provider_ids = (refl, tt);
  model_ids = (refl, tt);
  account_ids = (refl, tt);
  endpoint_ids = (refl, tt);
  consumer_ids = (refl, tt);
  profile_ids = (refl, tt);
  incident_ids = tt;
  rollout_ids = tt;
  key_pairs = tt;
  account_providers = (refl, tt);
  endpoint_nodes = (refl, tt);
  endpoint_accounts = (refl, tt);
  endpoint_models = (refl, tt);
  consumer_profiles = (refl, tt);
  key_consumers = tt;
  key_nodes = tt;
  rollout_nodes = tt;
}

serve_keys_example : IsConsistent (serve requests (account_world Status.active 0)).db
serve_keys_example = serve-IsConsistent requests (account_world Status.active 0) start-IsConsistent

serve_trail_example : AuditTrail [] (serve requests (account_world Status.active 0)).db
serve_trail_example = serve-AuditTrail requests (account_world Status.active 0) tt
