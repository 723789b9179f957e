-- ===== src/Health/StateMachine/AccountSignals.antt =====
-- What a failure or a success does to an account: the handlers of src/health/state_machine.py
-- against a table of the states.
use litellm_control_plane.Common.{
  ℕ, suc, String, Option, none, some, ◌≡◌, refl, ◌∙◌, sym, ap, Bool-cases, inl, inr, if◌then◌else◌,
  ◌==◌, leb, ltb,
}
use mathlib.Core.List.{append-nil}
use litellm_control_plane.Models.{Status, Account}
use litellm_control_plane.World.{World, returned, Exec, pure, ◌>>=◌, modify}
use litellm_control_plane.Store.Accounts.{
  get_account, update_accounts, increment_account_failure, count_account_failure,
  clear_account_failures,
}
use litellm_control_plane.Health.StateMachine.{
  Failure, auth, rate_limit, other, classify, auth_reason, rate_limit_reason, failure_reason,
  failure_threshold, degrade_account, fail_account, handle_account_failure, succeed_account,
  handle_account_success, transition_account_state,
}
use litellm_control_plane.Health.StateMachine.Signals.{status_eq_refl, reason_of, success_reason}
use litellm_control_plane.Health.StateMachine.Vocabulary.{account_of, FreshId}
use litellm_control_plane.Health.StateMachine.Accounts.{account_of-update, rows_written}
use litellm_control_plane.Health.StateMachine.AccountSteps.{
  AccountStep, to_account_state, transition_account-step, same_step, update-others,
}

-- The table for a failure: an authentication error disables, a rate limit cools down, and the third
-- of the other failures degrades.
unfoldable pub failed_account : Failure → ℕ → Account → Account
failed_account auth now a = to_account_state Status.disabled now a
failed_account rate_limit now a = to_account_state Status.cooldown now a
failed_account other now a =
    if leb failure_threshold (suc a.failure_count)
    then to_account_state Status.degraded now (count_account_failure a)
    else count_account_failure a

-- A signal that returns, and takes the account `a` to `a'`.
pub record AccountSignal (id : String) (reason raw : Option String) (w : World) (a a' : Account)
    (m : Exec (Unit {0})) : Type 0 where
  pub after : World
  pub returns : m w ≡ (returned tt, after)
  pub step : AccountStep id reason raw w a a' after

pub signal_returns :
    {id : String} {reason raw : Option String} {w : World} {a a' : Account} {m : Exec (Unit {0})}
    → AccountSignal id reason raw w a a' m
    → (m w).0 ≡ returned tt
signal_returns s = ap (λ p. p.0) s.returns

pub signal_moves :
    {id : String} {reason raw : Option String} {w : World} {a a' : Account} {m : Exec (Unit {0})}
    → AccountSignal id reason raw w a a' m
    → account_of id (m w).1.db ≡ some a'
signal_moves s = rw s.returns s.step.moved

module _ (id : String) (w : World) (a : Account) (found : account_of id w.db ≡ some a)
    (actor : String) (raw : Option String) where
  transition_signal :
      (next : Status) (reason : Option String)
      → FreshId w
      → AccountSignal id reason raw w a
          (to_account_state next (w.clock (suc w.readings)) a)
          (transition_account_state id next actor reason raw >>= λ _. pure tt)
  unfolding ◌>>=◌
  transition_signal next reason fresh =
      let (after, (eq, step)) = transition_account-step id w a found next actor reason raw fresh in
      record { after = after; returns = rw eq refl; step = step }

module _ (id : String) (w : World) (a : Account) (found : account_of id w.db ≡ some a) where
  abbrev counted : World
  counted = rows_written id count_account_failure w

  counted-id : (x : Account) → (count_account_failure x).id ≡ x.id
  unfolding count_account_failure
  counted-id x = refl

  found_counted : account_of id counted.db ≡ some (count_account_failure a)
  found_counted = account_of-update id w a found count_account_failure counted-id

  increment_account_failure_lem :
      increment_account_failure id w ≡ (returned (suc a.failure_count), counted)
  unfolding increment_account_failure update_accounts modify get_account ◌>>=◌
  increment_account_failure_lem = rw found_counted (unfold count_account_failure in refl)

  -- A step from the counted account is a step from the account.
  counted_step :
      {reason raw : Option String} {a' : Account} {after : World}
      → AccountStep id reason raw counted (count_account_failure a) a' after
      → AccountStep id reason raw w a a' after
  unfolding count_account_failure
  counted_step s = record {
    moved = s.moved;
    others =
        λ j ne. s.others j ne ∙ update-others id j count_account_failure w.accounts counted-id ne;
    endpoints_kept = s.endpoints_kept;
    recorded = s.recorded;
  }

  fail_account_lem :
      (f : Failure) (code : ℕ) (message actor : String) (raw : Option String)
      → FreshId w
      → AccountSignal id
          (reason_of f code (suc a.failure_count) message)
          raw
          w
          a
          (failed_account f (w.clock (suc w.readings)) a)
          (fail_account f id code message actor raw)
  unfolding reason_of failed_account fail_account
  fail_account_lem auth code message actor raw fresh =
      transition_signal id w a found actor raw Status.disabled (auth_reason code message) fresh
  fail_account_lem rate_limit code message actor raw fresh =
      transition_signal id w a found actor raw Status.cooldown (rate_limit_reason message) fresh
  fail_account_lem other code message actor raw fresh =
      let reason : Option String = failure_reason (suc a.failure_count) message in
      elim (Bool-cases (leb failure_threshold (suc a.failure_count))) [
        | inl high ↦
            let s : AccountSignal id reason raw counted (count_account_failure a)
                (to_account_state Status.degraded (w.clock (suc w.readings))
                  (count_account_failure a))
                (transition_account_state id Status.degraded actor reason raw >>= λ _. pure tt) =
              transition_signal id counted (count_account_failure a) found_counted actor raw
                Status.degraded reason fresh in
            rw high (record {
              after = s.after;
              returns =
                  unfold ◌>>=◌ degrade_account in
                  rw increment_account_failure_lem (rw high s.returns);
              step = counted_step s.step;
            })
        | inr low ↦ rw low (record {
          after = counted;
          returns = unfold ◌>>=◌ degrade_account in rw increment_account_failure_lem (rw low refl);
          step =
              counted_step
                (same_step id counted (count_account_failure a) found_counted reason raw);
        })
      ]

  -- An account that is there and a new incident id: a failure returns, and takes the account
  -- through the table for its kind, leaving the other accounts and the endpoints alone, with an
  -- incident just where the state changes.
  pub handle_account_failure_lem :
      (code : ℕ) (message actor : String) (raw : Option String)
      → FreshId w
      → AccountSignal id
          (reason_of (classify code message) code (suc a.failure_count) message)
          raw
          w
          a
          (failed_account (classify code message) (w.clock (suc w.readings)) a)
          (handle_account_failure id code message actor raw)
  unfolding handle_account_failure
  handle_account_failure_lem code message actor raw fresh =
      fail_account_lem (classify code message) code message actor raw fresh

-- The table for a success: in each state, what becomes of the account.
unfoldable pub succeeded_in : Status → String → ℕ → Account → Account
succeeded_in Status.probe actor now a =
    if actor == "probe" then to_account_state Status.active now a else a
succeeded_in Status.degraded actor now a = to_account_state Status.active now a
succeeded_in Status.recovered actor now a = to_account_state Status.active now a
succeeded_in Status.active actor now a =
    if ltb 0 a.failure_count then clear_account_failures a else a
succeeded_in _ actor now a = a

module _ (id : String) (w : World) (a : Account) (found : account_of id w.db ≡ some a) where
  same_signal : (reason raw : Option String) → AccountSignal id reason raw w a a (pure tt)
  unfolding pure
  same_signal reason raw = record {
    after = w;
    returns = refl;
    step = same_step id w a found reason raw;
  }

  clear_signal :
      (reason raw : Option String)
      → AccountSignal id reason raw w a
          (clear_account_failures a)
          (update_accounts id clear_account_failures)
  unfolding update_accounts modify
  clear_signal reason raw =
      let keep : (x : Account) → (clear_account_failures x).id ≡ x.id =
        λ x. unfold clear_account_failures in refl in
      record {
        after = rows_written id clear_account_failures w;
        returns = refl;
        step = record {
          moved = account_of-update id w a found clear_account_failures keep;
          others = λ j ne. update-others id j clear_account_failures w.accounts keep ne;
          endpoints_kept = refl;
          recorded =
              unfold clear_account_failures in
              rw (status_eq_refl a.status) (sym (append-nil w.incidents));
        };
      }

  succeed_account_lem :
      (s : Status) (actor : String)
      → FreshId w
      → AccountSignal id
          (success_reason s)
          none
          w
          a
          (succeeded_in s actor (w.clock (suc w.readings)) a)
          (succeed_account s a.failure_count id actor)
  unfolding succeed_account succeeded_in success_reason
  succeed_account_lem Status.probe actor fresh = elim (Bool-cases (actor == "probe")) [
    | inl probe ↦
        rw probe
          (transition_signal id w a found actor none Status.active (some "Probe success") fresh)
    | inr straggler ↦ rw straggler (same_signal _ _)
  ]
  succeed_account_lem Status.degraded actor fresh =
      transition_signal id w a found actor none Status.active _ fresh
  succeed_account_lem Status.recovered actor fresh =
      transition_signal id w a found actor none Status.active _ fresh
  succeed_account_lem Status.active actor fresh = elim (Bool-cases (ltb 0 a.failure_count)) [
    | inl some_failures ↦ rw some_failures (clear_signal _ _)
    | inr no_failures ↦ rw no_failures (same_signal _ _)
  ]
  succeed_account_lem _ actor fresh = same_signal _ _

  -- An account that is there and a new incident id: a success returns, and takes the account
  -- through the table for its state, leaving the other accounts and the endpoints alone, with an
  -- incident just where the state changes.
  pub handle_account_success_lem :
      (actor : String)
      → FreshId w
      → AccountSignal id
          (success_reason a.status)
          none
          w
          a
          (succeeded_in a.status actor (w.clock (suc w.readings)) a)
          (handle_account_success id actor)
  unfolding handle_account_success get_account ◌>>=◌
  handle_account_success_lem actor fresh =
      let s = succeed_account_lem a.status actor fresh in
      record { after = s.after; returns = rw found s.returns; step = s.step }
