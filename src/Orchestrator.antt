-- ===== src/Orchestrator.antt =====
-- src/rollout/orchestrator.py. Log lines, the metric and the adapter for tests are not modelled;
-- `node_config_paths` is in Process.antt.
pub mod Deploy
pub mod Drift
pub mod Keeps
pub mod Polling
pub mod Outcomes
pub mod Detection
pub mod Recorded
pub mod Rendered
pub mod Deployed
use litellm_control_plane.Common.{
  ℕ, String, Bool, true, false, Option, none, some, List, if◌then◌else◌,
}
use litellm_control_plane.Process.{assign}
use litellm_control_plane.World.{
  World, Exec, library_error, pure, raise, asks, or_else, ◌>>=◌, ◌>>◌, set_process,
}
use litellm_control_plane.Config.Generator.{Secrets, ModelEntry}
use litellm_control_plane.KeyManager.{Fleet}

-- What becomes of a write: the file is replaced, it stays as it was, or it is left empty; the last
-- two raise.
pub data WriteResult : Type 0 where
  written refused torn : WriteResult

-- The environment: the proxies, the secrets of the generator, PyYAML, `json.dumps` with sorted keys,
-- the hash and the disk. A `none` is an exception.
pub record Site : Type 0 where
  pub fleet : Fleet
  pub secrets : Secrets
  -- `yaml.safe_dump(config_dict, default_flow_style=False)`
  pub safe_dump : List ModelEntry → Option String
  -- `yaml.safe_load(text)` does not raise
  pub is_yaml : String → Bool
  -- `json.dumps(yaml.safe_load(text) or {}, sort_keys=True)`
  pub sorted_disk : String → Option String
  -- `json.dumps(config, sort_keys=True)`
  pub sorted_config : List ModelEntry → Option String
  pub sha256 : String → String
  pub readable : World → String → Bool
  pub write_result : World → (path content : String) → WriteResult

module _ (site : Site) where
  -- `open(path, "r").read()`
  unfoldable pub read_file : String → Exec String
  read_file path = do
    content ← asks λ w. if site.readable w path then w.process.files path else none
    or_else content (raise library_error) pure

  abbrev pub store_file : String → String → WriteResult → Exec (Unit {0})
  store_file path content WriteResult.written =
      set_process λ p. record p { files = assign path content p.files }
  store_file path content WriteResult.refused = raise library_error
  store_file path content WriteResult.torn = do
    set_process λ p. record p { files = assign path "" p.files }
    raise library_error

  -- `os.makedirs(…)`, `open(path, "w").write(content)`
  unfoldable pub write_file : (path content : String) → Exec (Unit {0})
  write_file path content = do
    result ← asks λ w. site.write_result w path content
    store_file path content result
