-- ===== src/Health/StateMachine/Accounts.antt =====
-- What a transition of an account writes, on every branch.
use litellm_control_plane.Common.{
  ℕ, suc, ◌+◌, String, true, false, Option, none, some, ◌≡◌, refl, Bool-cases, inl, inr,
}
use litellm_control_plane.Table.{by, first, update}
use litellm_control_plane.Table.Laws.{first-update}
use litellm_control_plane.Models.{Status, Account, Incident, Changes, Dump}
use litellm_control_plane.World.{World, returned, ◌>>=◌, modify, utc_now}
use litellm_control_plane.Audit.{insert_audit, log_audit, entry_at, with_entry}
use litellm_control_plane.Store.Accounts.{
  get_account, update_accounts, with_account_status, update_account_status, in_account_cooldown,
  set_account_cooldown,
}
use litellm_control_plane.Health.StateMachine.{
  status_eq, is_cooldown, cooldown_duration, write_account_state, transition_account_state,
}
use litellm_control_plane.Health.StateMachine.Vocabulary.{
  account_of, FreshId, incident_at, with_incident, moved_account, clocked, readings_at,
}
use litellm_control_plane.Health.StateMachine.Incident.{create_incident_lem}

with_account_status-id : (status : Status) (a : Account) → (with_account_status status a).id ≡ a.id
unfolding with_account_status
with_account_status-id Status.active a = refl
with_account_status-id _ a = refl

abbrev pub rows_written : String → (Account → Account) → World → World
rows_written id f w = record w {
  db = record w.db { accounts = update (by (λ a. a.id) id) f w.accounts };
}

-- The world after the writes of a transition of the account `a`.
abbrev pub account_written : String → Status → String → Option String → Account → World → World
account_written id next actor reason a w =
    let moved = moved_account next (w.clock w.readings) in
    with_entry
      (entry_at (clocked next w) actor "update_status" "account" id
        (Changes.diff (Dump.account a) (Dump.account (moved a))) reason)
      (rows_written id moved (clocked next w))

module _ (id : String) (w : World) (a : Account) (found : account_of id w.db ≡ some a) where
  -- A write that keeps the id is read back.
  pub account_of-update :
      (f : Account → Account)
      → ((x : Account) → (f x).id ≡ x.id)
      → first (by (λ a. a.id) id) (update (by (λ a. a.id) id) f w.accounts) ≡ some (f a)
  account_of-update f keep =
      first-update (by (λ a. a.id) id) f a w.accounts (λ x. unfold by in rw (keep x)) found

  update_account_status_lem :
      (status : Status) (actor : String) (reason : Option String)
      → update_account_status id status actor reason w ≡ (
        returned (some (with_account_status status a)),
        with_entry
            (entry_at w actor "update_status" "account" id
              (Changes.diff (Dump.account a) (Dump.account (with_account_status status a)))
              reason)
            (rows_written id (with_account_status status) w),
      )
  unfolding update_account_status get_account update_accounts ◌>>=◌ modify log_audit insert_audit
      utc_now
  update_account_status_lem status actor reason =
      rw found
        (rw (account_of-update (with_account_status status) (with_account_status-id status)) refl)

  set_account_cooldown_lem :
      (until : ℕ) (actor : String) (reason : Option String)
      → set_account_cooldown id until actor reason w ≡ (
        returned (some (in_account_cooldown until a)),
        with_entry
            (entry_at w actor "update_status" "account" id
              (Changes.diff (Dump.account a) (Dump.account (in_account_cooldown until a)))
              reason)
            (rows_written id (in_account_cooldown until) w),
      )
  unfolding set_account_cooldown get_account update_accounts ◌>>=◌ modify log_audit insert_audit
      utc_now
  set_account_cooldown_lem until actor reason = rw found (
      rw (account_of-update (in_account_cooldown until) (λ x. unfold in_account_cooldown in refl))
        refl)

module _ (id : String) (w : World) (a : Account) (found : account_of id w.db ≡ some a) where
  write_account_state_lem :
      (next : Status) (actor : String) (reason : Option String)
      → write_account_state id next actor reason w ≡ (
        returned (some (moved_account next (w.clock w.readings) a)),
        account_written id next actor reason a w,
      )
  unfolding write_account_state moved_account readings_at get_account ◌>>=◌ utc_now
  write_account_state_lem next actor reason = elim (Bool-cases (is_cooldown next)) [
    | inl cold ↦
        let later : World = record w { readings = suc w.readings } in
        let until : ℕ = w.clock w.readings + cooldown_duration in
        rw (cold, moved_account)
          (rw (set_account_cooldown_lem id later a found until actor reason) (
            rw
              (account_of-update id later a found (in_account_cooldown until)
                (λ x. unfold in_account_cooldown in refl))
              refl))
    | inr warm ↦ rw (warm, moved_account) (update_account_status_lem id w a found next actor reason)
  ]

-- The world after a transition of the account `a` to another state: the incident, the row and the
-- audit entry.
abbrev pub account_moved :
    String → Status → String → (reason raw : Option String) → Account → World → World
account_moved id next actor reason raw a w =
    account_written id next actor reason a
      (with_incident (incident_at w "account" id a.status next reason raw) w)

-- A transition to another state of an account that is there, with a new incident id: the call
-- returns the account after the transition, and what it writes is the incident, the row and one
-- audit entry, whose `changes` are the account before and after.
pub transition_account_lem :
    (id : String) (w : World) (a : Account)
    → account_of id w.db ≡ some a
    → (next : Status) (actor : String) (reason raw : Option String)
    → status_eq a.status next ≡ false
    → FreshId w
    → transition_account_state id next actor reason raw w ≡ (
      returned (some (moved_account next (w.clock (suc w.readings)) a)),
      account_moved id next actor reason raw a w,
    )
unfolding transition_account_state get_account ◌>>=◌
transition_account_lem id w a found next actor reason raw other fresh =
    let i : Incident = incident_at w "account" id a.status next reason raw in
    rw found (
      rw other (
        rw (create_incident_lem w "account" id a.status next reason raw fresh)
          (write_account_state_lem id (with_incident i w) a found next actor reason)))

pub transition_account-same :
    (id : String) (w : World) (a : Account)
    → account_of id w.db ≡ some a
    → (next : Status) (actor : String) (reason raw : Option String) → status_eq a.status next ≡ true
    → transition_account_state id next actor reason raw w ≡ (returned (some a), w)
unfolding transition_account_state get_account ◌>>=◌
transition_account-same id w a found next actor reason raw same = rw found (rw same refl)

pub transition_account-missing :
    (id : String) (w : World)
    → account_of id w.db ≡ none
    → (next : Status) (actor : String) (reason raw : Option String)
    → transition_account_state id next actor reason raw w ≡ (returned none, w)
unfolding transition_account_state get_account ◌>>=◌
transition_account-missing id w missing next actor reason raw = rw missing refl
