-- ===== src/Store/Incidents.antt =====
-- The incidents and the audit log of src/registry/store.py.
use litellm_control_plane.Common.{
  ℕ, String, Bool, true, Option, none, some, List, ◌==◌, ◌&&◌, ◌||◌, select,
}
use litellm_control_plane.Common.Text.{concat}
use litellm_control_plane.Table.{by, first}
use litellm_control_plane.Table.Sort.{newest}
use litellm_control_plane.Models.{Status, Incident, AuditEntry}
use litellm_control_plane.World.{
  Exec, gets, or_else, pure, raise, type_error, ◌>>=◌, ◌>>◌, utc_now, uuid_hex8,
}
use litellm_control_plane.Store.Statements.{insert_incident}

-- `dict(row)` of no row is a `TypeError`.
unfoldable pub create_incident :
    (target_type target_id : String)
    → (state_from state_to : Status) → (reason raw_response : Option String) → Exec Incident
create_incident target_type target_id state_from state_to reason raw_response = do
  hex ← uuid_hex8
  now ← utc_now
  insert_incident (record {
    id = concat "inc-" hex;
    target_type = target_type;
    target_id = target_id;
    state_from = state_from;
    state_to = state_to;
    reason = reason;
    raw_response = raw_response;
    timestamp = now;
  })
  row ← gets λ d. first (by (λ i. i.id) (concat "inc-" hex)) d.incidents
  or_else row (raise type_error) pure

-- A filter that is None or the empty text asks for nothing.
abbrev pub wanted : Option String → String → Bool
wanted none value = true
wanted (some text) value = text == "" || value == text

-- The text of a state.
abbrev pub status_text : Status → String
status_text Status.active = "active"
status_text Status.inactive = "inactive"
status_text Status.cooldown = "cooldown"
status_text Status.disabled = "disabled"
status_text Status.degraded = "degraded"
status_text Status.probe = "probe"
status_text Status.recovered = "recovered"

unfoldable pub incident_wanted : (target_type target_id state_to : Option String) → Incident → Bool
incident_wanted target_type target_id state_to i =
    wanted target_type i.target_type
    && (wanted target_id i.target_id && wanted state_to (status_text i.state_to))

unfoldable pub list_incidents :
    ℕ → (target_type target_id state_to : Option String) → Exec (List Incident)
list_incidents limit target_type target_id state_to = gets λ d.
    newest (λ i. i.timestamp) limit
      (select (incident_wanted target_type target_id state_to) d.incidents)

-- `ORDER BY id DESC LIMIT ?`
unfoldable pub list_audit_logs : ℕ → Exec (List AuditEntry)
list_audit_logs limit = gets λ d. newest (λ a. a.id) limit d.audit_logs
