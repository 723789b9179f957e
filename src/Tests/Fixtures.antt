-- ===== src/Tests/Fixtures.antt =====
-- The rows and the worlds of the runs.
use litellm_control_plane.Common.{ℕ, zero, suc, String, true, false, none, some, [], ◌∷◌}
use litellm_control_plane.Models.{
  pos, NodeStatus, Status, Override, ConsumerStatus, JsonText, Node, Provider, Model, Account,
  Endpoint, Consumer, PolicyProfile, item,
}
use litellm_control_plane.Process.{Process}
use litellm_control_plane.World.{Db, World}

abbrev pub edge : Node
edge = record {
  id = "n1";
  name = "edge";
  host = "edge.local";
  port = pos 4000;
  region = "eu";
  role = "primary";
  status = NodeStatus.active;
}

abbrev pub openai : Provider
openai = record { id = "p1"; name = "OpenAI"; type = "openai" }

abbrev pub chat_model : Model
chat_model = record {
  id = "m1";
  name = "gpt-4o";
  logical_group = "chat";
  capability_chat = true;
  capability_stream = true;
  capability_tools = true;
  capability_embeddings = false;
}

abbrev pub account_in : Status → ℕ → Account
account_in status failures = record {
  id = "a1";
  name = "main";
  provider_id = "p1";
  secret_ref = "KEY";
  status = status;
  cooldown_until = none;
  failure_count = failures;
}

abbrev pub endpoint_in : Status → ℕ → Endpoint
endpoint_in status failures = record {
  id = "e1";
  node_id = "n1";
  account_id = "a1";
  model_id = "m1";
  priority = pos 1;
  weight = pos 1;
  status = status;
  manual_override = Override.unset;
  cooldown_until = none;
  failure_count = failures;
}

abbrev pub team : Consumer
team = record {
  id = "c1";
  name = "team";
  max_budget = none;
  rate_limit_rpm = none;
  rate_limit_tpm = none;
  status = ConsumerStatus.active;
  profile_id = some "pp1";
}

abbrev pub chat_only : PolicyProfile
chat_only = record {
  id = "pp1";
  name = "chat";
  allowed_model_groups = JsonText.array (item "chat" ∷ []);
  description = none;
}

abbrev pub db_with : Account → Endpoint → Db
db_with a e = record {
  nodes = edge ∷ [];
  providers = openai ∷ [];
  models = chat_model ∷ [];
  accounts = a ∷ [];
  endpoints = e ∷ [];
  audit_logs = [];
  consumers = team ∷ [];
  consumer_keys = [];
  incidents = [];
  policy_profiles = chat_only ∷ [];
  rollouts = [];
}

abbrev uuid_of : ℕ → String
uuid_of zero = "0000000a"
uuid_of (suc zero) = "0000000b"
uuid_of (suc (suc n)) = "0000000c"

-- Nothing is sent, cached or written.
abbrev pub idle : Process
idle = record {
  sent = [];
  cache = λ hash. none;
  files = λ path. none;
  node_config_paths = λ node_id. none;
}

abbrev pub world_with : Account → Endpoint → World
world_with a e = record {
  db = db_with a e;
  clock = λ n. n;
  readings = 0;
  uuids = uuid_of;
  draws = 0;
  process = idle;
}

abbrev pub account_world : Status → ℕ → World
account_world status failures =
    world_with (account_in status failures) (endpoint_in Status.active 0)

abbrev pub endpoint_world : Status → ℕ → World
endpoint_world status failures =
    world_with (account_in Status.active 0) (endpoint_in status failures)
