-- ===== src/Health/StateMachine/EndpointSignals.antt =====
-- What a failure or a success does to an endpoint: the handlers of src/health/state_machine.py
-- against a table of the states.
use litellm_control_plane.Common.{
  ℕ, suc, String, Option, none, some, ◌≡◌, refl, ◌∙◌, sym, ap, Bool-cases, inl, inr, if◌then◌else◌,
  ◌==◌, leb, ltb,
}
use mathlib.Core.List.{append-nil}
use litellm_control_plane.Models.{Status, Endpoint}
use litellm_control_plane.World.{World, returned, Exec, pure, ◌>>=◌, modify}
use litellm_control_plane.Store.Endpoints.{
  get_endpoint, update_endpoints, increment_endpoint_failure, count_endpoint_failure,
  clear_endpoint_failures,
}
use litellm_control_plane.Health.StateMachine.{
  Failure, auth, rate_limit, other, classify, auth_reason, rate_limit_reason, failure_reason,
  failure_threshold, degrade_endpoint, fail_endpoint, handle_endpoint_failure, succeed_endpoint,
  handle_endpoint_success, transition_endpoint_state,
}
use litellm_control_plane.Health.StateMachine.Signals.{status_eq_refl, reason_of, success_reason}
use litellm_control_plane.Health.StateMachine.Vocabulary.{endpoint_of, FreshId}
use litellm_control_plane.Health.StateMachine.Endpoints.{endpoint_of-update, rows_written}
use litellm_control_plane.Health.StateMachine.EndpointSteps.{
  EndpointStep, to_endpoint_state, transition_endpoint-step, same_step, update-others,
}

-- The table for a failure: an authentication error disables, a rate limit cools down, and the third
-- of the other failures degrades.
unfoldable pub failed_endpoint : Failure → ℕ → Endpoint → Endpoint
failed_endpoint auth now ep = to_endpoint_state Status.disabled now ep
failed_endpoint rate_limit now ep = to_endpoint_state Status.cooldown now ep
failed_endpoint other now ep =
    if leb failure_threshold (suc ep.failure_count)
    then to_endpoint_state Status.degraded now (count_endpoint_failure ep)
    else count_endpoint_failure ep

-- A signal that returns, and takes the endpoint `a` to `a'`.
pub record EndpointSignal (id : String) (reason raw : Option String) (w : World) (ep ep' : Endpoint)
    (m : Exec (Unit {0})) : Type 0 where
  pub after : World
  pub returns : m w ≡ (returned tt, after)
  pub step : EndpointStep id reason raw w ep ep' after

pub signal_returns :
    {id : String} {reason raw : Option String} {w : World} {ep ep' : Endpoint} {m : Exec (Unit {0})}
    → EndpointSignal id reason raw w ep ep' m
    → (m w).0 ≡ returned tt
signal_returns s = ap (λ p. p.0) s.returns

pub signal_moves :
    {id : String} {reason raw : Option String} {w : World} {ep ep' : Endpoint} {m : Exec (Unit {0})}
    → EndpointSignal id reason raw w ep ep' m
    → endpoint_of id (m w).1.db ≡ some ep'
signal_moves s = rw s.returns s.step.moved

module _ (id : String) (w : World) (ep : Endpoint) (found : endpoint_of id w.db ≡ some ep)
    (actor : String) (raw : Option String) where
  transition_signal :
      (next : Status) (reason : Option String)
      → FreshId w
      → EndpointSignal id reason raw w ep
          (to_endpoint_state next (w.clock (suc w.readings)) ep)
          (transition_endpoint_state id next actor reason raw >>= λ _. pure tt)
  unfolding ◌>>=◌
  transition_signal next reason fresh =
      let (after, (eq, step)) =
        transition_endpoint-step id w ep found next actor reason raw fresh in
      record { after = after; returns = rw eq refl; step = step }

module _ (id : String) (w : World) (ep : Endpoint) (found : endpoint_of id w.db ≡ some ep) where
  abbrev pub counted : World
  counted = rows_written id count_endpoint_failure w

  counted-id : (x : Endpoint) → (count_endpoint_failure x).id ≡ x.id
  unfolding count_endpoint_failure
  counted-id x = refl

  pub found_counted : endpoint_of id counted.db ≡ some (count_endpoint_failure ep)
  found_counted = endpoint_of-update id w ep found count_endpoint_failure counted-id

  pub increment_endpoint_failure_lem :
      increment_endpoint_failure id w ≡ (returned (suc ep.failure_count), counted)
  unfolding increment_endpoint_failure update_endpoints modify get_endpoint ◌>>=◌
  increment_endpoint_failure_lem = rw found_counted (unfold count_endpoint_failure in refl)

  -- A step from the counted endpoint is a step from the endpoint.
  counted_step :
      {reason raw : Option String} {ep' : Endpoint} {after : World}
      → EndpointStep id reason raw counted (count_endpoint_failure ep) ep' after
      → EndpointStep id reason raw w ep ep' after
  unfolding count_endpoint_failure
  counted_step s = record {
    moved = s.moved;
    others =
        λ j ne. s.others j ne ∙ update-others id j count_endpoint_failure w.endpoints counted-id ne;
    accounts_kept = s.accounts_kept;
    recorded = s.recorded;
  }

  fail_endpoint_lem :
      (f : Failure) (code : ℕ) (message actor : String) (raw : Option String)
      → FreshId w
      → EndpointSignal id
          (reason_of f code (suc ep.failure_count) message)
          raw
          w
          ep
          (failed_endpoint f (w.clock (suc w.readings)) ep)
          (fail_endpoint f id code message actor raw)
  unfolding reason_of failed_endpoint fail_endpoint
  fail_endpoint_lem auth code message actor raw fresh =
      transition_signal id w ep found actor raw Status.disabled (auth_reason code message) fresh
  fail_endpoint_lem rate_limit code message actor raw fresh =
      transition_signal id w ep found actor raw Status.cooldown (rate_limit_reason message) fresh
  fail_endpoint_lem other code message actor raw fresh =
      let reason : Option String = failure_reason (suc ep.failure_count) message in
      elim (Bool-cases (leb failure_threshold (suc ep.failure_count))) [
        | inl high ↦
            let s : EndpointSignal id reason raw counted (count_endpoint_failure ep)
                (to_endpoint_state Status.degraded (w.clock (suc w.readings))
                  (count_endpoint_failure ep))
                (transition_endpoint_state id Status.degraded actor reason raw >>= λ _. pure tt) =
              transition_signal id counted (count_endpoint_failure ep) found_counted actor raw
                Status.degraded reason fresh in
            rw high (record {
              after = s.after;
              returns =
                  unfold ◌>>=◌ degrade_endpoint in
                  rw increment_endpoint_failure_lem (rw high s.returns);
              step = counted_step s.step;
            })
        | inr low ↦ rw low (record {
          after = counted;
          returns =
              unfold ◌>>=◌ degrade_endpoint in rw increment_endpoint_failure_lem (rw low refl);
          step =
              counted_step
                (same_step id counted (count_endpoint_failure ep) found_counted reason raw);
        })
      ]

  -- An endpoint that is there and a new incident id: a failure returns, and takes the endpoint
  -- through the table for its kind, leaving the other endpoints and the accounts alone, with an
  -- incident just where the state changes.
  pub handle_endpoint_failure_lem :
      (code : ℕ) (message actor : String) (raw : Option String)
      → FreshId w
      → EndpointSignal id
          (reason_of (classify code message) code (suc ep.failure_count) message)
          raw
          w
          ep
          (failed_endpoint (classify code message) (w.clock (suc w.readings)) ep)
          (handle_endpoint_failure id code message actor raw)
  unfolding handle_endpoint_failure
  handle_endpoint_failure_lem code message actor raw fresh =
      fail_endpoint_lem (classify code message) code message actor raw fresh

-- The table for a success: in each state, what becomes of the endpoint.
unfoldable pub succeeded_in : Status → String → ℕ → Endpoint → Endpoint
succeeded_in Status.probe actor now ep =
    if actor == "probe" then to_endpoint_state Status.active now ep else ep
succeeded_in Status.degraded actor now ep = to_endpoint_state Status.active now ep
succeeded_in Status.recovered actor now ep = to_endpoint_state Status.active now ep
succeeded_in Status.active actor now ep =
    if ltb 0 ep.failure_count then clear_endpoint_failures ep else ep
succeeded_in _ actor now ep = ep

module _ (id : String) (w : World) (ep : Endpoint) (found : endpoint_of id w.db ≡ some ep) where
  same_signal : (reason raw : Option String) → EndpointSignal id reason raw w ep ep (pure tt)
  unfolding pure
  same_signal reason raw = record {
    after = w;
    returns = refl;
    step = same_step id w ep found reason raw;
  }

  clear_signal :
      (reason raw : Option String)
      → EndpointSignal id reason raw w ep
          (clear_endpoint_failures ep)
          (update_endpoints id clear_endpoint_failures)
  unfolding update_endpoints modify
  clear_signal reason raw =
      let keep : (x : Endpoint) → (clear_endpoint_failures x).id ≡ x.id =
        λ x. unfold clear_endpoint_failures in refl in
      record {
        after = rows_written id clear_endpoint_failures w;
        returns = refl;
        step = record {
          moved = endpoint_of-update id w ep found clear_endpoint_failures keep;
          others = λ j ne. update-others id j clear_endpoint_failures w.endpoints keep ne;
          accounts_kept = refl;
          recorded =
              unfold clear_endpoint_failures in
              rw (status_eq_refl ep.status) (sym (append-nil w.incidents));
        };
      }

  succeed_endpoint_lem :
      (s : Status) (actor : String)
      → FreshId w
      → EndpointSignal id
          (success_reason s)
          none
          w
          ep
          (succeeded_in s actor (w.clock (suc w.readings)) ep)
          (succeed_endpoint s ep.failure_count id actor)
  unfolding succeed_endpoint succeeded_in success_reason
  succeed_endpoint_lem Status.probe actor fresh = elim (Bool-cases (actor == "probe")) [
    | inl probe ↦
        rw probe
          (transition_signal id w ep found actor none Status.active (some "Probe success") fresh)
    | inr straggler ↦ rw straggler (same_signal _ _)
  ]
  succeed_endpoint_lem Status.degraded actor fresh =
      transition_signal id w ep found actor none Status.active _ fresh
  succeed_endpoint_lem Status.recovered actor fresh =
      transition_signal id w ep found actor none Status.active _ fresh
  succeed_endpoint_lem Status.active actor fresh = elim (Bool-cases (ltb 0 ep.failure_count)) [
    | inl some_failures ↦ rw some_failures (clear_signal _ _)
    | inr no_failures ↦ rw no_failures (same_signal _ _)
  ]
  succeed_endpoint_lem _ actor fresh = same_signal _ _

  pub handle_endpoint_success_lem :
      (actor : String)
      → FreshId w
      → EndpointSignal id
          (success_reason ep.status)
          none
          w
          ep
          (succeeded_in ep.status actor (w.clock (suc w.readings)) ep)
          (handle_endpoint_success id actor)
  unfolding handle_endpoint_success get_endpoint ◌>>=◌
  handle_endpoint_success_lem actor fresh =
      let s = succeed_endpoint_lem ep.status actor fresh in
      record { after = s.after; returns = rw found s.returns; step = s.step }
