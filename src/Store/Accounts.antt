-- ===== src/Store/Accounts.antt =====
-- The accounts of src/registry/store.py, with the account's part of the state machine's helpers.
use litellm_control_plane.Common.{ℕ, suc, String, Bool, true, false, Option, none, some, List}
use litellm_control_plane.Table.{by, first, update}
use litellm_control_plane.Models.{Status, Account, Dump, Changes}
use litellm_control_plane.World.{
  value_error, Exec, pure, gets, assert_some, except_integrity, or_else, ◌>>=◌, ◌>>◌, modify,
}
use litellm_control_plane.Audit.{log_audit}
use litellm_control_plane.Store.Statements.{insert_account, delete_account_row}

unfoldable pub get_account : String → Exec (Option Account)
get_account account_id = gets λ d. first (by (λ a. a.id) account_id) d.accounts

unfoldable pub list_accounts : Exec (List Account)
list_accounts = gets λ d. d.accounts

-- `UPDATE accounts SET f WHERE id = ?`
unfoldable pub update_accounts : String → (Account → Account) → Exec (Unit {0})
update_accounts account_id f =
    modify λ d. record d { accounts = update (by (λ a. a.id) account_id) f d.accounts }

-- The row that the INSERT writes: its other columns take their defaults, whatever the request says.
unfoldable pub account_row : Account → Account
account_row a = record a { cooldown_until = none; failure_count = 0 }

unfoldable pub create_account : Account → String → Option String → Exec Account
create_account account actor reason =
    except_integrity (value_error "Account constraints violated. Make sure provider_id exists") do
      insert_account (account_row account)
      found ← get_account account.id
      created ← assert_some found
      log_audit actor "create" "account" account.id (Changes.row (Dump.account created)) reason
      pure created

-- What the UPDATE writes: `active` also clears the cooldown and the failures.
unfoldable pub with_account_status : Status → Account → Account
with_account_status Status.active a = record a {
  status = Status.active;
  cooldown_until = none;
  failure_count = 0;
}
with_account_status status a = record a { status = status }

unfoldable pub update_account_status :
    String → Status → String → Option String → Exec (Option Account)
update_account_status account_id status actor reason = do
  old ← get_account account_id
  or_else old (pure none) λ before. do
    update_accounts account_id (with_account_status status)
    log_audit actor "update_status" "account" account_id
        (Changes.diff (Dump.account before) (Dump.account (with_account_status status before)))
        reason
    get_account account_id

unfoldable pub delete_account : String → String → Option String → Exec Bool
delete_account account_id actor reason = do
  found ← get_account account_id
  or_else found (pure false) λ account.
      except_integrity
        (value_error "Cannot delete account; it may be referenced by active endpoints")
        do
          delete_account_row account_id
          log_audit actor "delete" "account" account_id (Changes.row (Dump.account account)) reason
          pure true

unfoldable pub in_account_cooldown : ℕ → Account → Account
in_account_cooldown until a = record a { status = Status.cooldown; cooldown_until = some until }

unfoldable pub set_account_cooldown : String → ℕ → String → Option String → Exec (Option Account)
set_account_cooldown account_id cooldown_until actor reason = do
  old ← get_account account_id
  or_else old (pure none) λ before. do
    update_accounts account_id (in_account_cooldown cooldown_until)
    log_audit actor "update_status" "account" account_id
        (Changes.diff (Dump.account before)
          (Dump.account (in_account_cooldown cooldown_until before)))
        reason
    get_account account_id

-- `row[0] if row else 0`
abbrev pub account_failures : Option Account → ℕ
account_failures none = 0
account_failures (some a) = a.failure_count

-- `SET failure_count = failure_count + 1`
unfoldable pub count_account_failure : Account → Account
count_account_failure a = record a { failure_count = suc a.failure_count }

-- `SET failure_count = 0`, in `handle_account_success` of src/health/state_machine.py
unfoldable pub clear_account_failures : Account → Account
clear_account_failures a = record a { failure_count = 0 }

unfoldable pub increment_account_failure : String → Exec ℕ
increment_account_failure account_id = do
  update_accounts account_id count_account_failure
  row ← get_account account_id
  pure (account_failures row)
