-- ===== src/Health/Probe/Outcomes.antt =====
-- What a probe of src/health/probe.py leaves behind.
use litellm_control_plane.Common.{
  ℕ, suc, String, true, false, Option, none, some, ◌≡◌, refl, eqb, leb,
}
use litellm_control_plane.Common.Text.{concat, decimal}
use litellm_control_plane.Table.{by, first}
use litellm_control_plane.Models.{Status, Override, Model, Account, Endpoint}
use litellm_control_plane.World.{World, returned, ◌>>=◌}
use litellm_control_plane.Store.Accounts.{get_account}
use litellm_control_plane.Store.Endpoints.{
  get_endpoint, count_endpoint_failure, write_endpoint_status,
}
use litellm_control_plane.Store.Models.{get_model}
use litellm_control_plane.Store.Consistency.{IsConsistent}
use litellm_control_plane.Store.Consistency.Writes.{IsConsistent-statements}
use litellm_control_plane.Policy.{is_routable}
use litellm_control_plane.Health.StateMachine.{
  other, classify, failure_threshold, status_eq, handle_endpoint_failure, fail_endpoint,
  degrade_endpoint,
}
use litellm_control_plane.Health.StateMachine.Vocabulary.{endpoint_of, FreshId, moved_endpoint}
use litellm_control_plane.Health.StateMachine.Endpoints.{
  transition_endpoint_lem, endpoint_of-update, endpoint_moved,
}
use litellm_control_plane.Health.StateMachine.EndpointSteps.{moved_endpoint-id}
use litellm_control_plane.Health.StateMachine.EndpointSignals.{
  counted, found_counted, increment_endpoint_failure_lem,
}
use litellm_control_plane.Health.Probe.{
  Upstream, response, key, except_exception, judge_reply, probe_with, probe_endpoint,
  reconcile_cooldowns, is_mock,
}
use litellm_control_plane.Health.Probe.Requests.{ProbeRequest}
use litellm_control_plane.Health.Probe.Keeps.{reconcile_cooldowns-Keeps}

-- The reconciliation of cooldowns, whatever the resolver and the providers answer and whether it
-- returns or raises, keeps the PRIMARY KEY and FOREIGN KEY constraints.
pub reconcile_cooldowns-IsConsistent :
    (upstream : Upstream) (actor : String) (w : World)
    → IsConsistent w.db
    → IsConsistent (reconcile_cooldowns upstream actor w).1.db
reconcile_cooldowns-IsConsistent upstream actor w h =
    (reconcile_cooldowns-Keeps IsConsistent-statements upstream actor).at w h

-- A generic failure below the threshold counts, and needs no incident.
counted_failure :
    (id : String) (w : World) (ep : Endpoint) (found : endpoint_of id w.db ≡ some ep) (code : ℕ)
    (message actor : String) (raw : Option String)
    → classify code message ≡ other
    → leb failure_threshold (suc ep.failure_count) ≡ false
    → handle_endpoint_failure id code message actor raw w ≡ (returned tt, counted id w ep found)
unfolding handle_endpoint_failure fail_endpoint degrade_endpoint ◌>>=◌
counted_failure id w ep found code message actor raw generic low =
    rw generic (rw (increment_endpoint_failure_lem id w ep found) (rw low refl))

module _ (upstream : Upstream) (id actor : String) (w : World) (ep : Endpoint) (acc : Account)
    (model : Model) (k : String) (code : ℕ) (text : String) where
  -- The message of a reply that is not 200.
  abbrev pub reply_message : String
  reply_message = concat "Probe HTTP " (concat (decimal code) (concat ": " text))

  abbrev probed : Endpoint
  probed = moved_endpoint Status.probe (w.clock (suc w.readings)) ep ep

  abbrev probing : World
  probing = endpoint_moved id Status.probe actor (some "Starting active health probe") none ep w

  probed-failures : probed.failure_count ≡ ep.failure_count
  unfolding moved_endpoint write_endpoint_status
  probed-failures = refl

  -- An endpoint that is not in `probe` and has less than two failures, a key that is not a mock,
  -- and a provider that answers with a code and a text that are neither 200, an authentication
  -- error nor a rate limit, and a new incident id: the probe answers `false` and leaves the
  -- endpoint in the state `probe` with one failure more, in which the policy engine routes to an
  -- endpoint that has no override and an active account.
  pub failed_probe-routable :
      endpoint_of id w.db ≡ some ep
      → first (by (λ a. a.id) ep.account_id) w.accounts ≡ some acc
      → first (by (λ m. m.id) ep.model_id) w.models ≡ some model
      → FreshId w
      → status_eq ep.status Status.probe ≡ false
      → leb failure_threshold (suc ep.failure_count) ≡ false
      → upstream.resolve w acc.secret_ref ≡ key k
      → is_mock upstream k ≡ false
      → ((w' : World) (r : ProbeRequest) → upstream.post w' r ≡ response code text)
      → eqb code 200 ≡ false
      → classify code reply_message ≡ other
      → let m = probe_endpoint upstream id actor w in
        (m.0 ≡ returned false)
        × (ep' : Endpoint) × (endpoint_of id m.1.db ≡ some ep')
        × (ep'.status ≡ Status.probe)
        × (ep'.failure_count ≡ suc ep.failure_count)
        × (is_routable Override.unset ep'.status Status.active ≡ true)
  unfolding moved_endpoint write_endpoint_status
  failed_probe-routable found acc_found model_found fresh elsewhere few resolves real answers not_ok
        generic =
      let now_probed : endpoint_of id probing.db ≡ some probed =
        endpoint_of-update id w ep found (moved_endpoint Status.probe (w.clock (suc w.readings)) ep)
          (moved_endpoint-id Status.probe (w.clock (suc w.readings)) ep) in
      let result : probe_endpoint upstream id actor w
          ≡ (returned false, counted id probing probed now_probed) =
        unfold probe_endpoint get_endpoint get_account get_model ◌>>=◌ probe_with judge_reply
          except_exception in
        rw found (
          rw acc_found (
            rw model_found (
              rw resolves (
                rw
                  (transition_endpoint_lem id w ep found Status.probe actor
                    (some "Starting active health probe") none elsewhere fresh)
                  (rw real (
                    rw (answers probing _) (
                      rw not_ok (
                        rw
                          (counted_failure id probing probed now_probed code reply_message actor
                            none generic few)
                          refl)))))))) in
      rw result (
        refl,
        _,
        found_counted id probing probed now_probed,
        unfold count_endpoint_failure in refl,
        unfold count_endpoint_failure in refl,
        unfold count_endpoint_failure is_routable in refl,
      )
