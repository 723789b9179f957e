-- ===== src/Store/AuditTrail.antt =====
-- The audit log of src/audit/logger.py under every statement of the store: it only grows, and its
-- entries are numbered from 1 in the order in which they were written.
use litellm_control_plane.Common.{
  ℕ, suc, ◌+◌, List, [], ◌∷◌, ◌++◌, ◌≡◌, refl, ap, ◌∙◌, length, arith,
}
use mathlib.Core.List.{append_assoc}
use litellm_control_plane.Models.{AuditEntry}
use litellm_control_plane.World.{Db, modify}
use litellm_control_plane.World.Keeps.{Keeps, Keeps-modify, Keeps-statement}
use litellm_control_plane.Audit.{insert_audit}
use litellm_control_plane.Store.Keeps.{KeepsStatements}
use litellm_control_plane.Store.Statements.{
  insert_node, delete_node_row, cascade_node, insert_provider, delete_provider_row, insert_model,
  delete_model_row, insert_account, delete_account_row, insert_endpoint, delete_endpoint_row,
  insert_consumer, delete_consumer_row, insert_consumer_key, insert_policy_profile,
  delete_policy_profile_row, insert_incident, insert_rollout,
}
use litellm_control_plane.Store.Nodes.{update_nodes}
use litellm_control_plane.Store.Providers.{update_providers}
use litellm_control_plane.Store.Models.{update_models}
use litellm_control_plane.Store.Accounts.{update_accounts}
use litellm_control_plane.Store.Endpoints.{update_endpoints}
use litellm_control_plane.Store.Consumers.{update_consumer_row}
use litellm_control_plane.Store.ConsumerKeys.{update_consumer_key_rows, delete_consumer_key_rows}
use litellm_control_plane.Store.PolicyProfiles.{update_policy_profiles}
use litellm_control_plane.Store.Rollouts.{update_rollouts}

-- The entries behind the first `n` have the ids n + 1, n + 2, ….
abbrev pub NumberedFrom : ℕ → List AuditEntry → Type 0
NumberedFrom n [] = Unit
NumberedFrom n (e ∷ es) = (e.id ≡ suc n) × NumberedFrom (suc n) es

-- The log holds `base`, unchanged and in its order, then what was written since.
pub record AuditTrail (base : List AuditEntry) (d : Db) : Type 0 where
  pub since : List AuditEntry
  pub grown : d.audit_logs ≡ base ++ since
  pub numbered : NumberedFrom 0 d.audit_logs

NumberedFrom-append :
    (n : ℕ) (es : List AuditEntry) (e : AuditEntry)
    → e.id ≡ suc (n + length es)
    → NumberedFrom n es
    → NumberedFrom n (es ++ e ∷ [])
NumberedFrom-append n [] e h k = (omega arith, tt)
NumberedFrom-append n (x ∷ es) e h k = (k.0, NumberedFrom-append (suc n) es e (omega arith) k.1)

module _ {base : List AuditEntry} where
  -- A statement that leaves the log alone keeps the trail.
  untouched : (d d' : Db) → d'.audit_logs ≡ d.audit_logs → AuditTrail base d → AuditTrail base d'
  untouched d d' e t = record { since = t.since; grown = e ∙ t.grown; numbered = rw e t.numbered }

  insert_audit-Keeps : (entry : AuditEntry) → Keeps (AuditTrail base) (modify (insert_audit entry))
  unfolding insert_audit
  insert_audit-Keeps entry = Keeps-modify _ λ d t.
      let e : AuditEntry = record entry { id = suc (length d.audit_logs) } in
      record {
        since = t.since ++ e ∷ [];
        grown =
            ap (λ (l : List AuditEntry). l ++ e ∷ []) t.grown ∙ append_assoc base t.since (e ∷ []);
        numbered = NumberedFrom-append 0 d.audit_logs e (omega arith) t.numbered;
      }

-- Every statement but the INSERT into `audit_logs` leaves the trail alone.
pub trail_statements : (base : List AuditEntry) → KeepsStatements (AuditTrail base)
unfolding insert_node delete_node_row cascade_node insert_provider delete_provider_row insert_model
    delete_model_row insert_account delete_account_row insert_endpoint delete_endpoint_row
    insert_consumer delete_consumer_row insert_consumer_key insert_policy_profile
    delete_policy_profile_row insert_incident insert_rollout update_nodes update_providers
    update_models update_accounts update_endpoints update_consumer_row update_consumer_key_rows
    delete_consumer_key_rows update_policy_profiles update_rollouts
trail_statements base = record {
  audit = insert_audit-Keeps;
  insert_node_law = λ x. Keeps-statement _ _ λ d _ t. untouched d _ refl t;
  insert_provider_law = λ x. Keeps-statement _ _ λ d _ t. untouched d _ refl t;
  insert_model_law = λ x. Keeps-statement _ _ λ d _ t. untouched d _ refl t;
  insert_account_law = λ x. Keeps-statement _ _ λ d _ t. untouched d _ refl t;
  insert_endpoint_law = λ x. Keeps-statement _ _ λ d _ t. untouched d _ refl t;
  insert_consumer_law = λ x. Keeps-statement _ _ λ d _ t. untouched d _ refl t;
  insert_consumer_key_law = λ x. Keeps-statement _ _ λ d _ t. untouched d _ refl t;
  insert_policy_profile_law = λ x. Keeps-statement _ _ λ d _ t. untouched d _ refl t;
  insert_incident_law = λ x. Keeps-statement _ _ λ d _ t. untouched d _ refl t;
  insert_rollout_law = λ x. Keeps-statement _ _ λ d _ t. untouched d _ refl t;
  delete_provider_row_law = λ x. Keeps-statement _ _ λ d _ t. untouched d _ refl t;
  delete_model_row_law = λ x. Keeps-statement _ _ λ d _ t. untouched d _ refl t;
  delete_account_row_law = λ x. Keeps-statement _ _ λ d _ t. untouched d _ refl t;
  delete_node_row_law = λ x. Keeps-modify _ λ d t. untouched d _ refl t;
  delete_endpoint_row_law = λ x. Keeps-modify _ λ d t. untouched d _ refl t;
  delete_consumer_row_law = λ x. Keeps-modify _ λ d t. untouched d _ refl t;
  delete_policy_profile_row_law = λ x. Keeps-modify _ λ d t. untouched d _ refl t;
  write_consumer = λ id fields. Keeps-statement _ _ λ d _ t. untouched d _ refl t;
  write_node = λ a b. Keeps-modify _ λ x t. untouched x _ refl t;
  write_provider = λ a b. Keeps-modify _ λ x t. untouched x _ refl t;
  write_model = λ a b. Keeps-modify _ λ x t. untouched x _ refl t;
  write_account = λ a b. Keeps-modify _ λ x t. untouched x _ refl t;
  cool_account = λ a b. Keeps-modify _ λ x t. untouched x _ refl t;
  count_account = λ a. Keeps-modify _ λ x t. untouched x _ refl t;
  clear_account = λ a. Keeps-modify _ λ x t. untouched x _ refl t;
  route_endpoint = λ a b c. Keeps-modify _ λ x t. untouched x _ refl t;
  write_endpoint = λ a b c. Keeps-modify _ λ x t. untouched x _ refl t;
  cool_endpoint = λ a b. Keeps-modify _ λ x t. untouched x _ refl t;
  count_endpoint = λ a. Keeps-modify _ λ x t. untouched x _ refl t;
  clear_endpoint = λ a. Keeps-modify _ λ x t. untouched x _ refl t;
  write_key_status = λ a b c. Keeps-modify _ λ x t. untouched x _ refl t;
  write_virtual_key = λ a b c d. Keeps-modify _ λ x t. untouched x _ refl t;
  delete_keys = λ a b. Keeps-modify _ λ x t. untouched x _ refl t;
  write_profile = λ a b. Keeps-modify _ λ x t. untouched x _ refl t;
  write_rollout = λ a b c. Keeps-modify _ λ x t. untouched x _ refl t;
}
