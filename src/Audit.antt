-- ===== src/Audit.antt =====
-- src/audit/logger.py. The `id` is the AUTOINCREMENT of the table, from which no row is deleted.
use litellm_control_plane.Common.{suc, String, Option, [], ◌∷◌, ◌++◌, length}
use litellm_control_plane.Models.{Changes, AuditEntry}
use litellm_control_plane.World.{Db, World, Exec, ◌>>=◌, modify, utc_now}

unfoldable pub insert_audit : AuditEntry → Db → Db
insert_audit entry d = record d {
  audit_logs = d.audit_logs ++ (record entry { id = suc (length d.audit_logs) }) ∷ [];
}

unfoldable pub log_audit :
    (actor action target_type target_id : String) → Changes → Option String → Exec (Unit {0})
log_audit actor action target_type target_id changes reason = do
  now ← utc_now
  modify (
      insert_audit (record {
        id = 0;
        timestamp = now;
        actor = actor;
        action = action;
        target_type = target_type;
        target_id = target_id;
        changes = changes;
        reason = reason;
      }))

-- The audit entry that `log_audit` writes in the world `w`.
abbrev pub entry_at :
    World → (actor action target_type target_id : String) → Changes → Option String → AuditEntry
entry_at w actor action target_type target_id changes reason = record {
  id = suc (length w.audit_logs);
  timestamp = w.clock w.readings;
  actor = actor;
  action = action;
  target_type = target_type;
  target_id = target_id;
  changes = changes;
  reason = reason;
}

abbrev pub with_entry : AuditEntry → World → World
with_entry e w = record w {
  db = record w.db { audit_logs = w.audit_logs ++ e ∷ [] };
  readings = suc w.readings;
}
