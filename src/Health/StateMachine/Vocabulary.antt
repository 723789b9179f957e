-- ===== src/Health/StateMachine/Vocabulary.antt =====
-- The words in which the statements about the state machine are written.
use litellm_control_plane.Common.{
  ℕ, suc, ◌+◌, String, Option, [], ◌∷◌, ◌++◌, ◌≡◌, false, if◌then◌else◌,
}
use litellm_control_plane.Common.Text.{concat}
use litellm_control_plane.Table.{by, first, has}
use litellm_control_plane.Models.{Status, Account, Endpoint, Incident}
use litellm_control_plane.World.{Db, World}
use litellm_control_plane.Store.Accounts.{with_account_status, in_account_cooldown}
use litellm_control_plane.Store.Endpoints.{write_endpoint_status, in_endpoint_cooldown}
use litellm_control_plane.Health.StateMachine.{is_cooldown, cooldown_duration}

abbrev pub account_of : String → Db → Option Account
account_of id d = first (by (λ a. a.id) id) d.accounts

abbrev pub endpoint_of : String → Db → Option Endpoint
endpoint_of id d = first (by (λ e. e.id) id) d.endpoints

-- The id that the next incident gets.
abbrev pub next_incident_id : World → String
next_incident_id w = concat "inc-" (w.uuids w.draws)

-- No incident has that id yet.
abbrev pub FreshId : World → Type 0
FreshId w = has (λ i. i.id) (next_incident_id w) w.incidents ≡ false

-- The incident of a transition that begins in the world `w`.
abbrev pub incident_at :
    World
    → (target_type target_id : String) → Status
    → Status
    → (reason raw : Option String) → Incident
incident_at w target_type target_id state_from state_to reason raw = record {
  id = next_incident_id w;
  target_type = target_type;
  target_id = target_id;
  state_from = state_from;
  state_to = state_to;
  reason = reason;
  raw_response = raw;
  timestamp = w.clock w.readings;
}

abbrev pub with_incident : Incident → World → World
with_incident i w = record w {
  db = record w.db { incidents = w.incidents ++ i ∷ [] };
  readings = suc w.readings;
  draws = suc w.draws;
}

-- The account after a transition, at the time `now`: a cooldown ends 30 seconds later, and
-- `active` clears the cooldown and the failures.
unfoldable pub moved_account : Status → ℕ → Account → Account
moved_account next now =
    if is_cooldown next
    then in_account_cooldown (now + cooldown_duration)
    else with_account_status next

-- The endpoint keeps the override that it had before.
unfoldable pub moved_endpoint : Status → ℕ → Endpoint → Endpoint → Endpoint
moved_endpoint next now before =
    if is_cooldown next
    then in_endpoint_cooldown (now + cooldown_duration)
    else write_endpoint_status next before.manual_override

-- The clock is read once more where the transition is to a cooldown.
unfoldable pub readings_at : Status → ℕ → ℕ
readings_at next n = if is_cooldown next then suc n else n

-- The world when the audit entry is written.
abbrev pub clocked : Status → World → World
clocked next w = record w { readings = readings_at next w.readings }
