-- ===== src/Health/StateMachine/EndpointCooldown.antt =====
-- What takes an endpoint out of service, and what a success does to it there.
use litellm_control_plane.Common.{
  ℕ, suc, ◌+◌, String, true, false, Option, none, some, List, [], ◌∷◌, ◌≡◌, ◌≢◌, refl, arith,
  Bool-cases, inl, inr,
}
use litellm_control_plane.Models.{Status, Endpoint}
use litellm_control_plane.World.{World, returned, pure, ◌>>=◌}
use litellm_control_plane.Store.Endpoints.{get_endpoint, in_endpoint_cooldown}
use litellm_control_plane.Health.StateMachine.{
  auth, rate_limit, classify, is_auth_error, is_rate_limit, status_eq, handle_endpoint_failure,
  handle_endpoint_success, succeed_endpoint,
}
use litellm_control_plane.Health.StateMachine.Signals.{status_eq_sound, IsExcluded, successes}
use litellm_control_plane.Health.StateMachine.Vocabulary.{endpoint_of, FreshId, moved_endpoint}
use litellm_control_plane.Health.StateMachine.EndpointSteps.{
  to_endpoint_state, to_endpoint_state-status,
}
use litellm_control_plane.Health.StateMachine.EndpointSignals.{
  failed_endpoint, handle_endpoint_failure_lem, signal_returns, signal_moves,
}
use litellm_control_plane.Health.StateMachine.EndpointRuns.{signal_all, signal_endpoint}

-- An authentication error, by the code 401 or 403 or by the words of the message, whatever the
-- state of the endpoint, with a new incident id: the handler returns, and the endpoint is
-- `disabled`.
pub endpoint_auth_failure-disables :
    (id : String) (w : World) (ep : Endpoint) (code : ℕ) (message actor : String)
    (raw : Option String)
    → endpoint_of id w.db ≡ some ep
    → FreshId w
    → is_auth_error code message ≡ true
    → ((handle_endpoint_failure id code message actor raw w).0 ≡ returned tt)
      × (ep' : Endpoint) × (endpoint_of id
            (handle_endpoint_failure id code message actor raw w).1.db
          ≡ some ep')
      × (ep'.status ≡ Status.disabled)
unfolding classify
endpoint_auth_failure-disables id w ep code message actor raw found fresh is_auth =
    let s = handle_endpoint_failure_lem id w ep found code message actor raw fresh in
    let e : classify code message ≡ auth = unfold classify in rw is_auth refl in
    (
      signal_returns s,
      _,
      signal_moves s,
      unfold failed_endpoint in
          rw e (to_endpoint_state-status Status.disabled (w.clock (suc w.readings)) ep),
    )

-- What a rate limit at the time `now` makes of the endpoint `a`.
pub record CoolsDown (now : ℕ) (ep ep' : Endpoint) : Type 0 where
  pub cold : ep'.status ≡ Status.cooldown
  pub failures_kept : ep'.failure_count ≡ ep.failure_count
  pub not_extended : ep.status ≡ Status.cooldown → ep' ≡ ep
  pub until : ep.status ≢ Status.cooldown → ep'.cooldown_until ≡ some (now + 30000000)

cooled : (now : ℕ) (ep : Endpoint) → CoolsDown now ep (failed_endpoint rate_limit now ep)
unfolding failed_endpoint to_endpoint_state moved_endpoint in_endpoint_cooldown
cooled now ep = elim (Bool-cases (status_eq ep.status Status.cooldown)) [
  | inl same ↦
      let e = status_eq_sound ep.status Status.cooldown same in
      rw same (record {
        cold = e;
        failures_kept = refl;
        not_extended = λ _. refl;
        until = λ ne. elim (ne e) [ ];
      })
  | inr different ↦
      rw different
        (record { cold = refl; failures_kept = refl; not_extended = λ e. cc; until = λ _. refl })
]

-- A rate limit that is not an authentication error, with a new incident id: the handler returns,
-- and the endpoint is in cooldown. One that was not in cooldown stays there until 30 seconds after
-- the second reading of the clock from there on; one that was is left as it was, and its cooldown
-- is not extended. Its failures are as before.
pub endpoint_rate_limit-CoolsDown :
    (id : String) (w : World) (ep : Endpoint) (code : ℕ) (message actor : String)
    (raw : Option String)
    → endpoint_of id w.db ≡ some ep
    → FreshId w
    → is_auth_error code message ≡ false
    → is_rate_limit code message ≡ true
    → ((handle_endpoint_failure id code message actor raw w).0 ≡ returned tt)
      × (ep' : Endpoint) × (endpoint_of id
            (handle_endpoint_failure id code message actor raw w).1.db
          ≡ some ep')
      × CoolsDown (w.clock (suc w.readings)) ep ep'
endpoint_rate_limit-CoolsDown id w ep code message actor raw found fresh no_auth limited =
    let s = handle_endpoint_failure_lem id w ep found code message actor raw fresh in
    let e : classify code message ≡ rate_limit = unfold classify in rw no_auth (rw limited refl) in
    (signal_returns s, _, signal_moves s, rw e (cooled (w.clock (suc w.readings)) ep))

excluded-success :
    (s : Status) (failures : ℕ) (id actor : String)
    → IsExcluded s
    → succeed_endpoint s failures id actor ≡ pure tt
unfolding succeed_endpoint
excluded-success Status.cooldown failures id actor h = refl
excluded-success Status.disabled failures id actor h = refl
excluded-success Status.inactive failures id actor h = refl
excluded-success _ failures id actor h = ground arith

-- In cooldown, disabled or inactive, an endpoint does not notice successes: whoever signals them
-- and however many, every handler returns and nothing at all changes.
pub endpoint_success-keeps_excluded :
    (id : String) (actors : List String) (w : World) (ep : Endpoint)
    → endpoint_of id w.db ≡ some ep
    → IsExcluded ep.status
    → signal_all id (successes actors) w ≡ (returned tt, w)
unfolding signal_all signal_endpoint handle_endpoint_success get_endpoint ◌>>=◌
endpoint_success-keeps_excluded id [] w ep found out = refl
endpoint_success-keeps_excluded id (actor ∷ actors) w ep found out = rw found (
    rw (excluded-success ep.status ep.failure_count id actor out)
      (endpoint_success-keeps_excluded id actors w ep found out))

record IsBack (ep : Endpoint) : Type 0 where
  active : ep.status ≡ Status.active
  warm : ep.cooldown_until ≡ none
