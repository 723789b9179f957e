-- ===== src/Health/StateMachine/AccountThreshold.antt =====
-- How many failures degrade an account, and what makes it active again.
use litellm_control_plane.Common.{
  ℕ, zero, suc, String, true, some, List, [], ◌∷◌, ◌≡◌, refl, ◌∙◌, arith, if◌then◌else◌, leb,
  length, All, ◌+◌,
}
use litellm_control_plane.Models.{Status, Account}
use litellm_control_plane.World.{World, returned}
use litellm_control_plane.Store.Accounts.{count_account_failure, with_account_status}
use litellm_control_plane.Health.StateMachine.{other, classify, failure_threshold}
use litellm_control_plane.Health.StateMachine.Signals.{
  Signal, failed, succeeded, kind, tally_status,
}
use litellm_control_plane.Health.StateMachine.Vocabulary.{account_of, moved_account}
use litellm_control_plane.Health.StateMachine.AccountSteps.{to_account_state}
use litellm_control_plane.Health.StateMachine.AccountSignals.{failed_account}
use litellm_control_plane.Health.StateMachine.AccountRuns.{
  signal_all, FreshRun, signalled, account_after, signal_all_lem,
}

record Tallied (n : ℕ) (a : Account) : Type 0 where
  count : a.failure_count ≡ n
  state : a.status ≡ tally_status n

failed-Tallied :
    (n now : ℕ) (a : Account) → Tallied n a → Tallied (suc n) (failed_account other now a)
unfolding failed_account to_account_state count_account_failure moved_account with_account_status
failed-Tallied zero now a t = rw t.count (record { count = refl; state = t.state })
failed-Tallied (suc zero) now a t = rw t.count (record { count = refl; state = t.state })
failed-Tallied (suc (suc zero)) now a t =
    rw t.count (rw t.state (record { count = refl; state = refl }))
failed-Tallied (suc (suc (suc n))) now a t =
    let past : leb failure_threshold (suc (suc (suc n))) ≡ true = ground arith in
    let past_next : leb failure_threshold (suc (suc (suc (suc n)))) ≡ true = ground arith in
    let degraded : a.status ≡ Status.degraded = t.state ∙ (rw past refl) in
    rw t.count (rw past_next (rw degraded (record { count = refl; state = rw past_next refl })))

signalled-Tallied :
    (n now : ℕ) (s : Signal) (a : Account)
    → kind s ≡ some other
    → Tallied n a
    → Tallied (suc n) (signalled s now a)
unfolding kind signalled
signalled-Tallied n now (failed code message actor raw) a h t =
    let e : classify code message ≡ other = cc in rw e (failed-Tallied n now a t)
signalled-Tallied n now (succeeded actor) a h t = cc

account_after-Tallied :
    (id : String) (ss : List Signal) (w : World) (n m : ℕ) (a : Account)
    → All (λ s. kind s ≡ some other) ss
    → m ≡ n + length ss
    → Tallied n a
    → Tallied m (account_after id ss w a)
unfolding account_after
account_after-Tallied id [] w n m a h e t = let same : m ≡ n = omega (arith, e) in rw same t
account_after-Tallied id (s ∷ ss) w n m a (h, hs) e t =
    account_after-Tallied id ss _ (suc n) m _ hs (omega (arith, e)) (signalled-Tallied n _ s a h t)

-- An account that is active and has no failures, after any number of failures that are neither
-- authentication errors nor rate limits, each with a new incident id: every handler returns, the
-- failure count is that number, and the account is `degraded` from the third failure on and
-- `active` before.
pub failures-degrade :
    (id : String) (ss : List Signal) (w : World) (a : Account)
    → account_of id w.db ≡ some a
    → a.status ≡ Status.active
    → a.failure_count ≡ 0
    → All (λ s. kind s ≡ some other) ss
    → FreshRun id ss w
    → ((signal_all id ss w).0 ≡ returned tt)
      × (a' : Account) × (account_of id (signal_all id ss w).1.db ≡ some a')
      × (a'.failure_count ≡ length ss)
      × (a'.status ≡ (if leb 3 (length ss) then Status.degraded else Status.active))
failures-degrade id ss w a found is_active no_failures all_other fresh =
    let run = signal_all_lem id ss w a found fresh in
    let t =
      account_after-Tallied id ss w 0 (length ss) a all_other (omega arith)
        (record { count = no_failures; state = is_active }) in
    (run.returns, account_after id ss w a, run.moved, t.count, t.state)
