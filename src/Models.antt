-- ===== src/Models.antt =====
-- The rows and the request bodies of src/registry/models.py, with the columns of
-- src/config/schema.sql. A `Literal` of texts is a data type. A `float` is the 64 bits of the
-- double, since it is only stored and passed on. A time is its number of microseconds.
pub mod Validation
use litellm_control_plane.Common.{ℕ, String, Bool, Option, List}

-- Python's `int`; `negsuc n` is -(n + 1).
pub data ℤ : Type 0 where
  pos negsuc : ℕ → ℤ

pub record Float : Type 0 where
  pub bits : ℕ

pub data NodeStatus : Type 0 where
  active inactive degraded : NodeStatus

-- The states of accounts and of endpoints. `inactive` is in the `Literal` of accounts alone.
pub data Status : Type 0 where
  active inactive cooldown disabled degraded probe recovered : Status

pub data Override : Type 0 where
  unset force_active force_disabled : Override

pub data ConsumerStatus : Type 0 where
  active disabled : ConsumerStatus

pub data KeyStatus : Type 0 where
  active pending_sync disabled error : KeyStatus

pub data RolloutStatus : Type 0 where
  pending applying success failed rolled_back : RolloutStatus

-- What `json.loads` makes of a text, as far as the program asks: `malformed` where it raises, the
-- texts among the elements of a list, the keys of an object, a text, and any other value.
pub data JsonItem : Type 0 where
  item : String → JsonItem
  other : JsonItem

pub data JsonText : Type 0 where
  malformed atom : JsonText
  array : List JsonItem → JsonText
  object : List String → JsonText
  quoted : String → JsonText

pub record Node : Type 0 where
  pub id : String
  pub name : String
  pub host : String
  pub port : ℤ
  pub region : String
  pub role : String
  pub status : NodeStatus

pub record NodeUpdate : Type 0 where
  pub name : Option String
  pub host : Option String
  pub port : Option ℤ
  pub region : Option String
  pub role : Option String
  pub status : Option NodeStatus

pub record Provider : Type 0 where
  pub id : String
  pub name : String
  pub type : String

pub record ProviderUpdate : Type 0 where
  pub name : Option String
  pub type : Option String

pub record Model : Type 0 where
  pub id : String
  pub name : String
  pub logical_group : String
  pub capability_chat : Bool
  pub capability_stream : Bool
  pub capability_tools : Bool
  pub capability_embeddings : Bool

pub record ModelUpdate : Type 0 where
  pub name : Option String
  pub logical_group : Option String
  pub capability_chat : Option Bool
  pub capability_stream : Option Bool
  pub capability_tools : Option Bool
  pub capability_embeddings : Option Bool

-- `AccountCreate` has the same fields.
pub record Account : Type 0 where
  pub id : String
  pub name : String
  pub provider_id : String
  pub secret_ref : String
  pub status : Status
  pub cooldown_until : Option ℕ
  pub failure_count : ℕ

-- `EndpointCreate` has the same fields.
pub record Endpoint : Type 0 where
  pub id : String
  pub node_id : String
  pub account_id : String
  pub model_id : String
  pub priority : ℤ
  pub weight : ℤ
  pub status : Status
  pub manual_override : Override
  pub cooldown_until : Option ℕ
  pub failure_count : ℕ

pub record Consumer : Type 0 where
  pub id : String
  pub name : String
  pub max_budget : Option Float
  pub rate_limit_rpm : Option ℤ
  pub rate_limit_tpm : Option ℤ
  pub status : ConsumerStatus
  pub profile_id : Option String

pub record ConsumerUpdate : Type 0 where
  pub name : Option String
  pub max_budget : Option Float
  pub rate_limit_rpm : Option ℤ
  pub rate_limit_tpm : Option ℤ
  pub status : Option ConsumerStatus
  pub profile_id : Option String

pub record ConsumerKey : Type 0 where
  pub consumer_id : String
  pub node_id : String
  pub virtual_key : String
  pub status : KeyStatus

pub record PolicyProfile : Type 0 where
  pub id : String
  pub name : String
  pub allowed_model_groups : JsonText
  pub description : Option String

pub record PolicyProfileUpdate : Type 0 where
  pub name : Option String
  pub allowed_model_groups : Option JsonText
  pub description : Option String

pub record Rollout : Type 0 where
  pub id : String
  pub node_id : String
  pub config_version : String
  pub status : RolloutStatus
  pub config_content : String
  pub error_message : Option String
  pub timestamp : ℕ

-- A row of `incidents`.
pub record Incident : Type 0 where
  pub id : String
  pub target_type : String
  pub target_id : String
  pub state_from : Status
  pub state_to : Status
  pub reason : Option String
  pub raw_response : Option String
  pub timestamp : ℕ

-- `model_dump()` of a row
pub data Dump : Type 0 where
  node : Node → Dump
  provider : Provider → Dump
  model : Model → Dump
  account : Account → Dump
  endpoint : Endpoint → Dump
  consumer : Consumer → Dump
  consumer_key : ConsumerKey → Dump
  policy_profile : PolicyProfile → Dump

-- What `detect_drift` of src/rollout/orchestrator.py reports.
pub record DriftReport : Type 0 where
  pub node_id : String
  pub config_drift : Bool
  pub config_drift_reason : Option String
  pub key_drift : Bool
  pub missing_keys : List String
  pub orphaned_keys : List String
  pub drift_detected : Bool

-- The `changes` of an audit entry: a row, `{"before": …, "after": …}`, or a drift.
pub data Changes : Type 0 where
  row : Dump → Changes
  diff : Dump → Dump → Changes
  drift : DriftReport → Changes

-- A row of `audit_logs`.
pub record AuditEntry : Type 0 where
  pub id : ℕ
  pub timestamp : ℕ
  pub actor : String
  pub action : String
  pub target_type : String
  pub target_id : String
  pub changes : Changes
  pub reason : Option String
