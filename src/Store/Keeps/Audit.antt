-- ===== src/Store/Keeps/Audit.antt =====
-- `log_audit` under an invariant that every statement keeps.
use litellm_control_plane.Common.{String, Option}
use litellm_control_plane.Models.{Changes}
use litellm_control_plane.World.{Db}
use litellm_control_plane.World.Keeps.{Keeps, keeps_rules}
use litellm_control_plane.Audit.{log_audit}
use litellm_control_plane.Store.Keeps.{KeepsStatements}

pub log_audit-Keeps :
    {P : Db → Type 0} (s : KeepsStatements P) (actor action target_type target_id : String)
    (changes : Changes) (reason : Option String)
    → Keeps P (log_audit actor action target_type target_id changes reason)
unfolding log_audit
log_audit-Keeps s actor action target_type target_id changes reason = search (keeps_rules, s.audit)
