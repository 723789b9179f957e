-- ===== src/Health/StateMachine/AccountSteps.antt =====
-- A transition of an account, as a step of the account and of the incidents.
use litellm_control_plane.Common.{
  ℕ, suc, String, true, false, Option, some, List, ◌++◌, ◌≡◌, ◌≢◌, refl, arith, sym, Bool-cases,
  inl, inr, if◌then◌else◌, eq_iff,
}
use mathlib.Core.List.{append-nil}
use litellm_control_plane.Table.{by, first, update}
use litellm_control_plane.Table.Laws.{first-update_other}
use litellm_control_plane.Models.{Status, Account}
use litellm_control_plane.World.{World, returned}
use litellm_control_plane.Store.Accounts.{with_account_status, in_account_cooldown}
use litellm_control_plane.Health.StateMachine.{status_eq, transition_account_state}
use litellm_control_plane.Health.StateMachine.Signals.{
  incidents_of, status_eq_refl, status_eq_sound,
}
use litellm_control_plane.Health.StateMachine.Vocabulary.{account_of, FreshId, moved_account}
use litellm_control_plane.Health.StateMachine.Accounts.{
  account_of-update, transition_account_lem, transition_account-same, account_moved,
}

-- The account after a transition that the state machine asks for.
unfoldable pub to_account_state : Status → ℕ → Account → Account
to_account_state next now a = if status_eq a.status next then a else moved_account next now a

-- A step that takes the account `a`, whose id is `id`, to `a'`: it is the row that is read, the
-- other accounts and the endpoints are as before, and an incident tells of a change of state.
pub record AccountStep (id : String) (reason raw : Option String) (w : World) (a a' : Account)
    (after : World) : Type 0 where
  pub moved : account_of id after.db ≡ some a'
  pub others : (j : String) → j ≢ id → account_of j after.db ≡ account_of j w.db
  pub endpoints_kept : after.endpoints ≡ w.endpoints
  pub recorded :
      after.incidents ≡ w.incidents ++ incidents_of w "account" id a.status a'.status reason raw

pub moved_account-status :
    (next : Status) (now : ℕ) (a : Account) → (moved_account next now a).status ≡ next
unfolding moved_account with_account_status in_account_cooldown
moved_account-status Status.active now a = refl
moved_account-status Status.inactive now a = refl
moved_account-status Status.cooldown now a = refl
moved_account-status Status.disabled now a = refl
moved_account-status Status.degraded now a = refl
moved_account-status Status.probe now a = refl
moved_account-status Status.recovered now a = refl

pub moved_account-id :
    (next : Status) (now : ℕ) (a : Account) → (moved_account next now a).id ≡ a.id
unfolding moved_account with_account_status in_account_cooldown
moved_account-id Status.active now a = refl
moved_account-id Status.inactive now a = refl
moved_account-id Status.cooldown now a = refl
moved_account-id Status.disabled now a = refl
moved_account-id Status.degraded now a = refl
moved_account-id Status.probe now a = refl
moved_account-id Status.recovered now a = refl

id_other :
    (id j : String) (f : Account → Account) (x : Account)
    → (f x).id ≡ x.id
    → j ≢ id
    → by (λ a. a.id) id x ≡ true
    → (by (λ a. a.id) j x ≡ false) × (by (λ a. a.id) j (f x) ≡ false)
unfolding by
id_other id j f x keep other at = (
  ground (arith, eq_iff x.id id, eq_iff x.id j),
  rw keep (ground (arith, eq_iff x.id id, eq_iff x.id j)),
)

-- An update of one account is no update of another.
pub update-others :
    (id j : String) (f : Account → Account) (rows : List Account)
    → ((x : Account) → (f x).id ≡ x.id)
    → j ≢ id
    → first (by (λ a. a.id) j) (update (by (λ a. a.id) id) f rows) ≡ first (by (λ a. a.id) j) rows
update-others id j f rows keep other =
    first-update_other _ _ f rows λ x at. id_other id j f x (keep x) other at

pub same_step :
    (id : String) (w : World) (a : Account)
    → account_of id w.db ≡ some a
    → (reason raw : Option String) → AccountStep id reason raw w a a w
same_step id w a found reason raw = record {
  moved = found;
  others = λ j other. refl;
  endpoints_kept = refl;
  recorded = rw (status_eq_refl a.status) (sym (append-nil w.incidents));
}

moved_step :
    (id : String) (w : World) (a : Account)
    → account_of id w.db ≡ some a
    → (next : Status) (actor : String) (reason raw : Option String)
    → status_eq a.status next ≡ false
    → AccountStep id reason raw w a
        (moved_account next (w.clock (suc w.readings)) a)
        (account_moved id next actor reason raw a w)
moved_step id w a found next actor reason raw other =
    let now : ℕ = w.clock (suc w.readings) in
    record {
      moved = account_of-update id w a found (moved_account next now) (moved_account-id next now);
      others = λ j ne.
          update-others id j (moved_account next now) w.accounts (moved_account-id next now) ne;
      endpoints_kept = refl;
      recorded = rw (moved_account-status next now a) (rw other refl);
    }

pub to_account_state-status :
    (next : Status) (now : ℕ) (a : Account) → (to_account_state next now a).status ≡ next
unfolding to_account_state
to_account_state-status next now a = elim (Bool-cases (status_eq a.status next)) [
  | inl same ↦ rw same (status_eq_sound a.status next same)
  | inr different ↦ rw different (moved_account-status next now a)
]

pub transition_account-step :
    (id : String) (w : World) (a : Account)
    → account_of id w.db ≡ some a
    → (next : Status) (actor : String) (reason raw : Option String) → FreshId w
    → (after : World) × ((transition_account_state id next actor reason raw w
          ≡ (returned (some (to_account_state next (w.clock (suc w.readings)) a)), after))
        × AccountStep id reason raw w a (to_account_state next (w.clock (suc w.readings)) a) after)
unfolding to_account_state
transition_account-step id w a found next actor reason raw fresh =
    elim (Bool-cases (status_eq a.status next)) [
      | inl same ↦ rw same (
        w,
        (
          transition_account-same id w a found next actor reason raw same,
          same_step id w a found reason raw,
        ),
      )
      | inr other ↦ rw other (
        account_moved id next actor reason raw a w,
        (
          transition_account_lem id w a found next actor reason raw other fresh,
          moved_step id w a found next actor reason raw other,
        ),
      )
    ]
