-- ===== src/Health/StateMachine/AccountCooldown.antt =====
-- What takes an account out of service, and what a success does to it there.
use litellm_control_plane.Common.{
  ℕ, suc, ◌+◌, ◌≤◌, String, true, false, Option, none, some, List, [], ◌∷◌, ◌≡◌, ◌≢◌, refl, arith,
  leb, Bool-cases, inl, inr,
}
use litellm_control_plane.Models.{Status, Account}
use litellm_control_plane.World.{World, returned, pure, ◌>>=◌}
use litellm_control_plane.Store.Accounts.{
  get_account, count_account_failure, with_account_status, in_account_cooldown,
}
use litellm_control_plane.Health.StateMachine.{
  Failure, other, auth, rate_limit, classify, is_auth_error, is_rate_limit, failure_threshold,
  status_eq, handle_account_failure, handle_account_success, succeed_account,
}
use litellm_control_plane.Health.StateMachine.Signals.{
  status_eq_sound, Signal, failed, succeeded, IsExcluded, successes,
}
use litellm_control_plane.Health.StateMachine.Vocabulary.{account_of, FreshId, moved_account}
use litellm_control_plane.Health.StateMachine.AccountSteps.{
  to_account_state, to_account_state-status,
}
use litellm_control_plane.Health.StateMachine.AccountSignals.{
  failed_account, succeeded_in, handle_account_failure_lem, signal_returns, signal_moves,
}
use litellm_control_plane.Health.StateMachine.AccountRuns.{
  signal_all, signal_account, FreshRun, signalled, account_after, signal_all_lem,
}

-- An authentication error, by the code 401 or 403 or by the words of the message, whatever the
-- state of the account, with a new incident id: the handler returns, and the account is `disabled`.
pub auth_failure-disables :
    (id : String) (w : World) (a : Account) (code : ℕ) (message actor : String)
    (raw : Option String)
    → account_of id w.db ≡ some a
    → FreshId w
    → is_auth_error code message ≡ true
    → ((handle_account_failure id code message actor raw w).0 ≡ returned tt)
      × (a' : Account) × (account_of id (handle_account_failure id code message actor raw w).1.db
          ≡ some a')
      × (a'.status ≡ Status.disabled)
unfolding classify
auth_failure-disables id w a code message actor raw found fresh is_auth =
    let s = handle_account_failure_lem id w a found code message actor raw fresh in
    let e : classify code message ≡ auth = unfold classify in rw is_auth refl in
    (
      signal_returns s,
      _,
      signal_moves s,
      unfold failed_account in
          rw e (to_account_state-status Status.disabled (w.clock (suc w.readings)) a),
    )

-- What a rate limit at the time `now` makes of the account `a`.
pub record CoolsDown (now : ℕ) (a a' : Account) : Type 0 where
  pub cold : a'.status ≡ Status.cooldown
  pub failures_kept : a'.failure_count ≡ a.failure_count
  pub not_extended : a.status ≡ Status.cooldown → a' ≡ a
  pub until : a.status ≢ Status.cooldown → a'.cooldown_until ≡ some (now + 30000000)

cooled : (now : ℕ) (a : Account) → CoolsDown now a (failed_account rate_limit now a)
unfolding failed_account to_account_state moved_account in_account_cooldown
cooled now a = elim (Bool-cases (status_eq a.status Status.cooldown)) [
  | inl same ↦
      let e = status_eq_sound a.status Status.cooldown same in
      rw same (record {
        cold = e;
        failures_kept = refl;
        not_extended = λ _. refl;
        until = λ ne. elim (ne e) [ ];
      })
  | inr different ↦
      rw different
        (record { cold = refl; failures_kept = refl; not_extended = λ e. cc; until = λ _. refl })
]

-- A rate limit that is not an authentication error, with a new incident id: the handler returns,
-- and the account is in cooldown. One that was not in cooldown stays there until 30 seconds after
-- the second reading of the clock from there on; one that was is left as it was, and its cooldown
-- is not extended. Its failures are as before.
pub rate_limit-CoolsDown :
    (id : String) (w : World) (a : Account) (code : ℕ) (message actor : String)
    (raw : Option String)
    → account_of id w.db ≡ some a
    → FreshId w
    → is_auth_error code message ≡ false
    → is_rate_limit code message ≡ true
    → ((handle_account_failure id code message actor raw w).0 ≡ returned tt)
      × (a' : Account) × (account_of id (handle_account_failure id code message actor raw w).1.db
          ≡ some a')
      × CoolsDown (w.clock (suc w.readings)) a a'
rate_limit-CoolsDown id w a code message actor raw found fresh no_auth limited =
    let s = handle_account_failure_lem id w a found code message actor raw fresh in
    let e : classify code message ≡ rate_limit = unfold classify in rw no_auth (rw limited refl) in
    (signal_returns s, _, signal_moves s, rw e (cooled (w.clock (suc w.readings)) a))

excluded-success :
    (s : Status) (failures : ℕ) (id actor : String)
    → IsExcluded s
    → succeed_account s failures id actor ≡ pure tt
unfolding succeed_account
excluded-success Status.cooldown failures id actor h = refl
excluded-success Status.disabled failures id actor h = refl
excluded-success Status.inactive failures id actor h = refl
excluded-success _ failures id actor h = ground arith

-- In cooldown, disabled or inactive, an account does not notice successes: whoever signals them and
-- however many, every handler returns and nothing at all changes.
pub success-keeps_excluded :
    (id : String) (actors : List String) (w : World) (a : Account)
    → account_of id w.db ≡ some a
    → IsExcluded a.status
    → signal_all id (successes actors) w ≡ (returned tt, w)
unfolding signal_all signal_account handle_account_success get_account ◌>>=◌
success-keeps_excluded id [] w a found out = refl
success-keeps_excluded id (actor ∷ actors) w a found out = rw found (
    rw (excluded-success a.status a.failure_count id actor out)
      (success-keeps_excluded id actors w a found out))

evicted :
    (now : ℕ) (a : Account)
    → IsExcluded a.status
    → 2 ≤ a.failure_count
    → (failed_account other now a).status ≡ Status.degraded
unfolding failed_account
evicted now a out enough =
    let high : leb failure_threshold (suc a.failure_count) ≡ true = ground arith in
    rw high (to_account_state-status Status.degraded now (count_account_failure a))

record IsBack (a : Account) : Type 0 where
  active : a.status ≡ Status.active
  warm : a.cooldown_until ≡ none

activated :
    (now : ℕ) (who : String) (a : Account)
    → a.status ≡ Status.degraded
    → IsBack (succeeded_in a.status who now a)
unfolding to_account_state moved_account with_account_status succeeded_in
activated now who a h = rw h (record { active = refl; warm = refl })

reentered :
    (now later : ℕ) (f : Failure) (a : Account) (who : String)
    → f ≡ other
    → IsExcluded a.status
    → 2 ≤ a.failure_count
    → IsBack (succeeded_in (failed_account f now a).status who later (failed_account f now a))
reentered now later f a who e out enough =
    rw e (activated later who (failed_account other now a) (evicted now a out enough))

-- An account in cooldown, disabled or inactive that has two failures or more, with new incident
-- ids, leaves that state without a probe and without waiting for the end of its cooldown: one more
-- failure that is neither an authentication error nor a rate limit, then one success, whoever
-- signals it, and it is `active`, its cooldown cleared.
pub failure-ends_exclusion :
    (id : String) (w : World) (a : Account) (code : ℕ) (message actor who : String)
    (raw : Option String)
    → account_of id w.db ≡ some a
    → IsExcluded a.status
    → 2 ≤ a.failure_count
    → classify code message ≡ other
    → FreshRun id (failed code message actor raw ∷ succeeded who ∷ []) w
    → let m = signal_all id (failed code message actor raw ∷ succeeded who ∷ []) in
      ((m w).0 ≡ returned tt)
      × (a' : Account) × (account_of id (m w).1.db ≡ some a')
      × (a'.status ≡ Status.active)
      × (a'.cooldown_until ≡ none)
failure-ends_exclusion id w a code message actor who raw found out enough generic fresh =
    let ss : List Signal = failed code message actor raw ∷ succeeded who ∷ [] in
    let run = signal_all_lem id ss w a found fresh in
    let back : IsBack (account_after id ss w a) =
      unfold account_after signalled in
      reentered _ _ (classify code message) a who generic out enough in
    (run.returns, account_after id ss w a, run.moved, back.active, back.warm)
