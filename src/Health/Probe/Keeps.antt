-- ===== src/Health/Probe/Keeps.antt =====
-- An invariant that every statement of the store keeps is kept by the probes and by the
-- reconciliation of cooldowns.
use litellm_control_plane.Common.{String, Bool, true, false, List, [], ◌∷◌}
use litellm_control_plane.Models.{Model, Account}
use litellm_control_plane.World.{Db, Outcome, returned, raised, Exec}
use litellm_control_plane.World.Keeps.{Keeps, keeps_rules}
use litellm_control_plane.Store.Accounts.{get_account}
use litellm_control_plane.Store.Endpoints.{get_endpoint}
use litellm_control_plane.Store.Models.{get_model}
use litellm_control_plane.Store.Keeps.{KeepsStatements}
use litellm_control_plane.Health.StateMachine.Keeps.{
  transition_account_state-Keeps, transition_endpoint_state-Keeps, handle_endpoint_failure-Keeps,
  handle_endpoint_success-Keeps,
}
use litellm_control_plane.Health.Probe.{
  Upstream, Reply, response, broken, Resolved, key, refused, rescue, except_exception, pass_probe,
  connection_failed, judge_reply, probe_with, probe_resolved, probe_endpoint, probe_all,
  conclude_account, reconcile_account, reconcile_accounts, reconcile_cooldowns,
}

module _ {P : Db → Type 0} (s : KeepsStatements P) (upstream : Upstream) where
  rescue-Keeps :
      {A : Type 0} (handler : String → Exec A) (r : Outcome A)
      → ((text : String) → Keeps P (handler text))
      → Keeps P (rescue upstream handler r)
  rescue-Keeps handler (returned a) k = record { at = λ w h. h }
  rescue-Keeps handler (raised e) k = record { at = λ w h. (k (upstream.error_text e)).at w h }

  except_exception-Keeps :
      {A : Type 0} (body : Exec A) (handler : String → Exec A)
      → Keeps P body
      → ((text : String) → Keeps P (handler text))
      → Keeps P (except_exception upstream body handler)
  unfolding except_exception
  except_exception-Keeps body handler kb kh = record {
    at = λ w h. let (r, w') = body w in (rescue-Keeps handler r kh).at w' (kb.at w h);
  }

  pass_probe-Keeps : (id reason actor : String) → Keeps P (pass_probe upstream id reason actor)
  unfolding pass_probe
  pass_probe-Keeps id reason actor =
      search (keeps_rules, transition_endpoint_state-Keeps s, handle_endpoint_success-Keeps s) depth
        20

  connection_failed-Keeps :
      (id actor text : String) → Keeps P (connection_failed upstream id actor text)
  unfolding connection_failed
  connection_failed-Keeps id actor text =
      search (keeps_rules, handle_endpoint_failure-Keeps s) depth 20

  judge_reply-Keeps : (id actor : String) (r : Reply) → Keeps P (judge_reply upstream id actor r)
  unfolding judge_reply
  judge_reply-Keeps id actor (broken text) = connection_failed-Keeps id actor text
  judge_reply-Keeps id actor (response status_code text) =
      search
        (
          keeps_rules,
          except_exception-Keeps,
          pass_probe-Keeps,
          connection_failed-Keeps,
          handle_endpoint_failure-Keeps s,
        )
        depth 20

  probe_with-Keeps :
      (id : String) (acc : Account) (model : Model) (actor api_key : String)
      → Keeps P (probe_with upstream id acc model actor api_key)
  unfolding probe_with
  probe_with-Keeps id acc model actor api_key =
      search (keeps_rules, pass_probe-Keeps, judge_reply-Keeps, transition_endpoint_state-Keeps s)
        depth 20

  probe_resolved-Keeps :
      (id : String) (acc : Account) (model : Model) (actor : String) (r : Resolved)
      → Keeps P (probe_resolved upstream id acc model actor r)
  probe_resolved-Keeps id acc model actor (refused text) =
      search (keeps_rules, handle_endpoint_failure-Keeps s) depth 20
  probe_resolved-Keeps id acc model actor (key api_key) =
      probe_with-Keeps id acc model actor api_key

  probe_endpoint-Keeps : (id actor : String) → Keeps P (probe_endpoint upstream id actor)
  unfolding probe_endpoint get_endpoint get_account get_model
  probe_endpoint-Keeps id actor = search (keeps_rules, probe_resolved-Keeps) depth 20

  probe_all-Keeps : (ids : List String) (actor : String) → Keeps P (probe_all upstream ids actor)
  unfolding probe_all
  probe_all-Keeps [] actor = search keeps_rules
  probe_all-Keeps (id ∷ ids) actor =
      search (keeps_rules, probe_endpoint-Keeps, probe_all-Keeps ids) depth 20

  conclude_account-Keeps :
      (id actor : String) (passed : Bool) → Keeps P (conclude_account upstream id actor passed)
  unfolding conclude_account
  conclude_account-Keeps id actor true = transition_account_state-Keeps s id _ actor _ _
  conclude_account-Keeps id actor false = transition_account_state-Keeps s id _ actor _ _

  reconcile_account-Keeps : (id actor : String) → Keeps P (reconcile_account upstream id actor)
  unfolding reconcile_account
  reconcile_account-Keeps id actor =
      search
        (
          keeps_rules,
          transition_account_state-Keeps s,
          probe_endpoint-Keeps,
          conclude_account-Keeps,
        )
        depth 20

  reconcile_accounts-Keeps :
      (ids : List String) (actor : String) → Keeps P (reconcile_accounts upstream ids actor)
  unfolding reconcile_accounts
  reconcile_accounts-Keeps [] actor = search keeps_rules
  reconcile_accounts-Keeps (id ∷ ids) actor =
      search (keeps_rules, reconcile_account-Keeps, reconcile_accounts-Keeps ids) depth 20

  pub reconcile_cooldowns-Keeps : (actor : String) → Keeps P (reconcile_cooldowns upstream actor)
  unfolding reconcile_cooldowns
  reconcile_cooldowns-Keeps actor =
      search (keeps_rules, probe_all-Keeps, reconcile_accounts-Keeps) depth 20
