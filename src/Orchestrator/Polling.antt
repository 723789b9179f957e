-- ===== src/Orchestrator/Polling.antt =====
-- The loop of `deploy_config` of src/rollout/orchestrator.py that waits for the proxy.
use litellm_control_plane.Common.{ℕ, suc, Bool, true, false, ◌≤◌, ◌<◌, ◌≡◌, [], ◌∷◌}
use litellm_control_plane.Common.Text.{concat}
use litellm_control_plane.Process.{Method, Request}
use litellm_control_plane.World.{World, Outcome, returned}
use litellm_control_plane.Adapter.{LiteLlmAdapter, is_ok}
use litellm_control_plane.Orchestrator.{Site}

-- The clock goes on by at least a tick between two readings: each round of the loop sleeps.
pub record Advances (clock : ℕ → ℕ) : Type 0 where
  pub at : (n : ℕ) → clock n < clock (suc n)

-- The request of `check_health`.
abbrev pub health_request : LiteLlmAdapter → Request
health_request adapter = record {
  method = Method.get;
  url = concat adapter.proxy_url "/health/readiness";
  headers = [];
  payload = [];
}

-- The proxy of the adapter answers the health check with 200 in the world `w`.
abbrev pub IsHealthy : Site → LiteLlmAdapter → World → Type 0
IsHealthy site adapter w =
    is_ok site.fleet.proxies adapter (site.fleet.proxies w (health_request adapter)) ≡ true

-- The world after a health check in `w`.
abbrev pub after_check : LiteLlmAdapter → World → World
after_check adapter w = record w {
  process = record w.process { sent = health_request adapter ∷ w.process.sent };
}

-- How the loop that runs to the time `limit` ends. The verification has succeeded only where the
-- last thing done was a health check that was answered with 200, and has failed only where the time
-- has run out. Neither the database nor the files have changed.
pub record Polled (site : Site) (adapter : LiteLlmAdapter) (limit : ℕ) (w : World)
    (m : Outcome Bool × World) : Type 0 where
  pub verified : Bool
  pub ended : m.0 ≡ returned verified
  pub healthy :
      verified ≡ true → (at : World) × IsHealthy site adapter at × (m.1 ≡ after_check adapter at)
  pub expired : verified ≡ false → limit ≤ m.1.clock m.1.readings
  pub db_kept : m.1.db ≡ w.db
  pub files_kept : m.1.process.files ≡ w.process.files

module _ (site : Site) (adapter : LiteLlmAdapter) (start timeout : ℕ) where
  -- The world of a health check, and the world after it.
  abbrev asking : World → World
  asking w = record w { readings = suc w.readings }

  abbrev asked : World → World
  asked w = record w {
    readings = suc w.readings;
    process = record w.process { sent = health_request adapter ∷ w.process.sent };
  }
