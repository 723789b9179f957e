-- ===== src/Tests/Accounts.antt =====
-- The statements on accounts, at one account.
use litellm_control_plane.Common.{ℕ, none, some, ◌≡◌, refl, any}
use litellm_control_plane.Table.{by, first, has}
use litellm_control_plane.Models.{Status, Account}
use litellm_control_plane.World.{returned}
use litellm_control_plane.Health.StateMachine.{classify, is_auth_error, handle_account_failure}
use litellm_control_plane.Health.StateMachine.Vocabulary.{account_of, FreshId}
use litellm_control_plane.Health.StateMachine.Signals.{Signal, failed, reason_of}
use litellm_control_plane.Health.StateMachine.AccountSignals.{
  AccountSignal, failed_account, handle_account_failure_lem,
}
use litellm_control_plane.Health.StateMachine.AccountCooldown.{auth_failure-disables}
use litellm_control_plane.Tests.Fixtures.{account_in, account_world}

there :
    (status : Status) (n : ℕ)
    → account_of "a1" (account_world status n).db ≡ some (account_in status n)
unfolding first by
there status n = refl

new_id : (status : Status) (n : ℕ) → FreshId (account_world status n)
unfolding has any
new_id status n = refl

account_failure_example :
    AccountSignal "a1"
      (reason_of (classify 500 "boom") 500 3 "boom")
      none
      (account_world Status.active 2)
      (account_in Status.active 2)
      (failed_account (classify 500 "boom") 1 (account_in Status.active 2))
      (handle_account_failure "a1" 500 "boom" "proxy" none)
account_failure_example =
    handle_account_failure_lem "a1" (account_world Status.active 2) (account_in Status.active 2)
      (there Status.active 2) 500 "boom" "proxy" none (new_id Status.active 2)

abbrev boom : Signal
boom = failed 500 "boom" "proxy" none

auth_example :
    ((handle_account_failure "a1" 401 "no" "proxy" none (account_world Status.cooldown 0)).0
      ≡ returned tt)
    × (a' : Account) × (account_of "a1"
          (handle_account_failure "a1" 401 "no" "proxy" none (account_world Status.cooldown 0)).1.db
        ≡ some a')
    × (a'.status ≡ Status.disabled)
unfolding is_auth_error
auth_example =
    auth_failure-disables "a1" (account_world Status.cooldown 0) (account_in Status.cooldown 0) 401
      "no" "proxy" none (there Status.cooldown 0) (new_id Status.cooldown 0) refl
