-- ===== src/Store/Creation.antt =====
-- `create_account` and `create_endpoint` of src/registry/store.py, on every branch.
use litellm_control_plane.Common.{
  String, Bool, true, false, Option, none, [], ◌∷◌, ◌++◌, ◌≡◌, refl, not, ◌||◌, Bool-cases, inl,
  inr, if◌then◌else◌,
}
use litellm_control_plane.Table.{has}
use litellm_control_plane.Table.Laws.{first-insert}
use litellm_control_plane.Models.{Account, Endpoint, Changes, Dump}
use litellm_control_plane.World.{
  Db, World, returned, raised, value_error, integrity_error, ◌>>=◌, statement, utc_now, modify,
}
use litellm_control_plane.Audit.{log_audit, insert_audit, entry_at, with_entry}
use litellm_control_plane.Store.Statements.{insert_account, insert_endpoint}
use litellm_control_plane.Store.Accounts.{get_account, create_account, account_row}
use litellm_control_plane.Store.Endpoints.{get_endpoint, create_endpoint, endpoint_row}

or_false : (a b : Bool) → (a || b) ≡ false → (a ≡ false) × (b ≡ false)
or_false false b h = (refl, h)
or_false true b h = cc

pub refused :
    (violates : Db → Bool) (f : Db → Db) (w : World)
    → violates w.db ≡ true
    → statement violates f w ≡ (raised integrity_error, w)
unfolding statement
refused violates f w h = rw (h, statement) refl

pub accepted :
    (violates : Db → Bool) (f : Db → Db) (w : World)
    → violates w.db ≡ false
    → statement violates f w ≡ (returned tt, record w { db = f w.db })
unfolding statement
accepted violates f w h = rw (h, statement) refl

-- The id is taken, or the provider is not there.
abbrev pub account_rejected : Account → Db → Bool
account_rejected a d =
    has (λ b. b.id) a.id d.accounts || not (has (λ p. p.id) a.provider_id d.providers)

-- A new account raises a `ValueError` and writes nothing where its id is taken or its provider is
-- not there; otherwise it is added behind the others and returned, with one audit entry, and
-- whatever the request says it has no cooldown and no failures.
pub create_account_lem :
    (a : Account) (actor : String) (reason : Option String) (w : World)
    → let row = record a { cooldown_until = none; failure_count = 0 } in
      create_account a actor reason w ≡ (
        if account_rejected a w.db
        then (raised (value_error "Account constraints violated. Make sure provider_id exists"), w)
        else (
          returned row,
          with_entry
              (entry_at w actor "create" "account" a.id (Changes.row (Dump.account row)) reason)
              (record w { db = record w.db { accounts = w.accounts ++ row ∷ [] } }),
        ))
unfolding create_account insert_account ◌>>=◌ get_account account_row log_audit insert_audit utc_now
    modify
create_account_lem a actor reason w = elim (Bool-cases (account_rejected a w.db)) [
  | inl bad ↦ rw bad (rw (refused _ _ w bad) refl)
  | inr good ↦ rw good (
      rw (accepted _ _ w good)
        (rw (first-insert (λ b. b.id) (account_row a) w.accounts (or_false _ _ good).0) refl))
]

-- The id is taken, or the node, the account or the model is not there.
abbrev pub endpoint_rejected : Endpoint → Db → Bool
endpoint_rejected e d =
    has (λ f. f.id) e.id d.endpoints
    || (not (has (λ n. n.id) e.node_id d.nodes)
        || (not (has (λ a. a.id) e.account_id d.accounts)
            || not (has (λ m. m.id) e.model_id d.models)))

-- A new endpoint raises a `ValueError` and writes nothing where its id is taken or its node, its
-- account or its model is not there; otherwise it is added behind the others and returned, with one
-- audit entry, and whatever the request says it has no cooldown and no failures.
pub create_endpoint_lem :
    (e : Endpoint) (actor : String) (reason : Option String) (w : World)
    → let row = record e { cooldown_until = none; failure_count = 0 } in
      create_endpoint e actor reason w ≡ (
        if endpoint_rejected e w.db
        then (
          raised (
              value_error
                "Endpoint constraints violated. Make sure node_id, account_id, and model_id exist"),
          w,
        )
        else (
          returned row,
          with_entry
              (entry_at w actor "create" "endpoint" e.id (Changes.row (Dump.endpoint row)) reason)
              (record w { db = record w.db { endpoints = w.endpoints ++ row ∷ [] } }),
        ))
unfolding create_endpoint insert_endpoint ◌>>=◌ get_endpoint endpoint_row log_audit insert_audit
    utc_now modify
create_endpoint_lem e actor reason w = elim (Bool-cases (endpoint_rejected e w.db)) [
  | inl bad ↦ rw bad (rw (refused _ _ w bad) refl)
  | inr good ↦ rw good (
      rw (accepted _ _ w good)
        (rw (first-insert (λ f. f.id) (endpoint_row e) w.endpoints (or_false _ _ good).0) refl))
]
