-- ===== src/Policy/Selection.antt =====
-- Which endpoints the policy engine of src/policy/engine.py hands to a consumer.
use litellm_control_plane.Common.{
  String, Bool, true, false, none, some, ◌≡◌, ◌≢◌, refl, sym, ◌∙◌, ◌==◌, eq_iff, Option-cases, inl,
  inr, ◌&&◌, ◌↔◌,
}
use mathlib.Core.List.{Memᴰ}
use litellm_control_plane.Table.{by, first}
use litellm_control_plane.Table.Members.{select_mem, select_from}
use litellm_control_plane.Models.{Status, Override, Endpoint, Model, Account}
use litellm_control_plane.World.{Db}
use litellm_control_plane.Policy.{is_routable, in_group, is_candidate, candidates_of}

-- The account serves at all; `force_disabled` always wins; without an override the endpoint has to
-- be out of the three bad states, and the account out of cooldown.
pub record Routable (override : Override) (endpoint account : Status) : Type 0 where
  pub enabled : override ≢ Override.force_disabled
  pub account_enabled : account ≢ Status.disabled
  pub account_used : account ≢ Status.inactive
  pub endpoint_enabled : override ≡ Override.unset → endpoint ≢ Status.disabled
  pub endpoint_warm : override ≡ Override.unset → endpoint ≢ Status.cooldown
  pub endpoint_sound : override ≡ Override.unset → endpoint ≢ Status.degraded
  pub account_warm : override ≡ Override.unset → account ≢ Status.cooldown

is_routable_sound :
    (override : Override) (endpoint account : Status)
    → is_routable override endpoint account ≡ true
    → Routable override endpoint account
unfolding is_routable
is_routable_sound Override.force_disabled endpoint account h = cc
is_routable_sound Override.force_active endpoint Status.disabled h = cc
is_routable_sound Override.force_active endpoint Status.inactive h = cc
is_routable_sound Override.force_active endpoint _ h = record {
  enabled = λ e. cc;
  account_enabled = λ e. cc;
  account_used = λ e. cc;
  endpoint_enabled = λ e e'. cc;
  endpoint_warm = λ e e'. cc;
  endpoint_sound = λ e e'. cc;
  account_warm = λ e e'. cc;
}
is_routable_sound Override.unset Status.disabled account h = cc
is_routable_sound Override.unset Status.cooldown account h = cc
is_routable_sound Override.unset Status.degraded account h = cc
is_routable_sound Override.unset _ Status.disabled h = cc
is_routable_sound Override.unset _ Status.inactive h = cc
is_routable_sound Override.unset _ Status.cooldown h = cc
is_routable_sound Override.unset _ _ h = record {
  enabled = λ e. cc;
  account_enabled = λ e. cc;
  account_used = λ e. cc;
  endpoint_enabled = λ e e'. cc;
  endpoint_warm = λ e e'. cc;
  endpoint_sound = λ e e'. cc;
  account_warm = λ e e'. cc;
}

is_routable_complete :
    (override : Override) (endpoint account : Status)
    → Routable override endpoint account
    → is_routable override endpoint account ≡ true
unfolding is_routable
is_routable_complete Override.force_disabled endpoint account r = elim (r.enabled refl) [ ]
is_routable_complete Override.force_active endpoint Status.disabled r =
    elim (r.account_enabled refl) [ ]
is_routable_complete Override.force_active endpoint Status.inactive r =
    elim (r.account_used refl) [ ]
is_routable_complete Override.force_active endpoint _ r = refl
is_routable_complete Override.unset Status.disabled account r =
    elim (r.endpoint_enabled refl refl) [ ]
is_routable_complete Override.unset Status.cooldown account r = elim (r.endpoint_warm refl refl) [ ]
is_routable_complete Override.unset Status.degraded account r =
    elim (r.endpoint_sound refl refl) [ ]
is_routable_complete Override.unset _ Status.disabled r = elim (r.account_enabled refl) [ ]
is_routable_complete Override.unset _ Status.inactive r = elim (r.account_used refl) [ ]
is_routable_complete Override.unset _ Status.cooldown r = elim (r.account_warm refl refl) [ ]
is_routable_complete Override.unset _ _ r = refl

-- The endpoint is one of the group's, and is not excluded.
pub record MayServe (d : Db) (group : String) (e : Endpoint) : Type 0 where
  pub model : Model
  pub model_found : first (by (λ m. m.id) e.model_id) d.models ≡ some model
  pub grouped : model.logical_group ≡ group
  pub account : Account
  pub account_found : first (by (λ a. a.id) e.account_id) d.accounts ≡ some account
  pub open_to_traffic : Routable e.manual_override e.status account.status

&&-true : (b : Bool) → (b && true) ≡ b
&&-true true = refl
&&-true false = refl

module _ (d : Db) (group : String) (e : Endpoint) where
  no_model : first (by (λ m. m.id) e.model_id) d.models ≡ none → in_group d group e ≡ false
  unfolding in_group
  no_model h = rw (h, in_group) refl

  no_account : first (by (λ a. a.id) e.account_id) d.accounts ≡ none → is_candidate d e ≡ false
  unfolding is_candidate
  no_account h = rw (h, is_candidate) refl

  in_group_lem :
      (m : Model) (a : Account)
      → first (by (λ m. m.id) e.model_id) d.models ≡ some m
      → first (by (λ a. a.id) e.account_id) d.accounts ≡ some a
      → in_group d group e ≡ (m.logical_group == group)
  unfolding in_group
  in_group_lem m a h k = rw (h, k, in_group) (&&-true _)

  is_candidate_lem :
      (a : Account)
      → first (by (λ a. a.id) e.account_id) d.accounts ≡ some a
      → is_candidate d e ≡ is_routable e.manual_override e.status a.status
  unfolding is_candidate
  is_candidate_lem a h = rw (h, is_candidate) refl

  candidate-MayServe : in_group d group e ≡ true → is_candidate d e ≡ true → MayServe d group e
  candidate-MayServe grouped open_to =
      elim (Option-cases (first (by (λ m. m.id) e.model_id) d.models)) [
        | inl missing ↦ let bad = no_model missing in cc
        | inr (m, m_found) ↦ elim (Option-cases (first (by (λ a. a.id) e.account_id) d.accounts)) [
          | inl missing ↦ let bad = no_account missing in cc
          | inr (a, a_found) ↦ record {
            model = m;
            model_found = m_found;
            grouped =
                (eq_iff m.logical_group group).0 (sym (in_group_lem m a m_found a_found) ∙ grouped);
            account = a;
            account_found = a_found;
            open_to_traffic = is_routable_sound _ _ _ (sym (is_candidate_lem a a_found) ∙ open_to);
          }
        ]
      ]

  MayServe-candidate : MayServe d group e → (in_group d group e ≡ true) × (is_candidate d e ≡ true)
  MayServe-candidate s = (
    in_group_lem s.model s.account s.model_found s.account_found
        ∙ (eq_iff s.model.logical_group group).1 s.grouped,
    is_candidate_lem s.account s.account_found ∙ is_routable_complete _ _ _ s.open_to_traffic,
  )

  -- An endpoint of the list is handed out just where it may serve.
  pub candidates_of-Mem : Memᴰ e (candidates_of d group) ↔ (Memᴰ e d.endpoints × MayServe d group e)
  unfolding candidates_of
  candidates_of-Mem = (
    λ m.
        let open_to = select_from (is_candidate d) e _ m in
        let grouped = select_from (in_group d group) e _ open_to.member in
        (grouped.member, candidate-MayServe grouped.passes open_to.passes),
    λ (m, s).
        let (grouped, open_to) = MayServe-candidate s in
        select_mem (is_candidate d) e _ (select_mem (in_group d group) e _ m grouped) open_to,
  )
