-- ===== src/Orchestrator/Detection.antt =====
-- What `detect_drift` of src/rollout/orchestrator.py reports of the virtual keys.
use litellm_control_plane.Common.{String, true, List, ◌≡◌}
use mathlib.Core.List.{Memᴰ}
use litellm_control_plane.Models.{Consumer, ConsumerKey}
use litellm_control_plane.Orchestrator.Drift.{is_active_consumer, is_active_key}

-- An active key of the consumer.
pub record HasActiveKey (cid : String) (keys : List ConsumerKey) : Type 0 where
  pub key : ConsumerKey
  pub member : Memᴰ key keys
  pub owner : key.consumer_id ≡ cid
  pub active : is_active_key key.status ≡ true

-- An active consumer with the id.
pub record IsActive (cid : String) (consumers : List Consumer) : Type 0 where
  pub consumer : Consumer
  pub member : Memᴰ consumer consumers
  pub id_is : consumer.id ≡ cid
  pub active : is_active_consumer consumer.status ≡ true

record Image {A : Type 0} (f : A → String) (k : String) (xs : List A) : Type 0 where
  pub origin : A
  pub member : Memᴰ origin xs
  pub image : f origin ≡ k
