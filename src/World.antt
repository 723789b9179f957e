-- ===== src/World.antt =====
-- The database of src/config/schema.sql, what a request reads besides it, and a function that may
-- raise. What was written before a raise stays written until `get_db` of src/config/db.py rolls
-- the transaction back, so the world comes back beside the exception too.
pub mod Keeps
pub mod Runs
pub mod Raises
pub mod Quiet
use litellm_control_plane.Common.{
  ℕ, suc, String, Bool, true, false, Option, none, some, List, [], ◌∷◌,
}
use litellm_control_plane.Models.{
  Node, Provider, Model, Account, Endpoint, Consumer, ConsumerKey, PolicyProfile, Rollout, Incident,
  AuditEntry,
}
use litellm_control_plane.Process.{Process, Request}

-- A list for each table of src/config/schema.sql.
pub record Db : Type 0 where
  pub nodes : List Node
  pub providers : List Provider
  pub models : List Model
  pub accounts : List Account
  pub endpoints : List Endpoint
  pub audit_logs : List AuditEntry
  pub consumers : List Consumer
  pub consumer_keys : List ConsumerKey
  pub incidents : List Incident
  pub policy_profiles : List PolicyProfile
  pub rollouts : List Rollout

-- The clock and the random numbers are streams that the environment chooses: the n-th reading of
-- the clock is `clock n`, and the n-th `uuid.uuid4().hex[:8]` is `uuids n`.
pub record World : Type 0 where
  pub db : Db
  pub open db use *
  pub clock : ℕ → ℕ
  pub readings : ℕ
  pub uuids : ℕ → String
  pub draws : ℕ
  pub process : Process

-- `integrity_error` is `sqlite3.IntegrityError` and `library_error` an exception of another library;
-- a `ValueError` and a `RuntimeError` have the fixed part of their text. `out_of_fuel` is no exception
-- of the program: a loop has not ended within the fuel of a run. `http_error` is `HTTPException`.
pub data Error : Type 0 where
  integrity_error assertion_error type_error : Error
  value_error : String → Error
  runtime_error : String → Error
  library_error out_of_fuel : Error
  http_error : ℕ → String → Error

pub data Outcome (A : Type 0) : Type 0 where
  returned : A → Outcome A
  raised : Error → Outcome A

abbrev pub Exec : Type 0 → Type 0
Exec A = World → Outcome A × World

module _ {A : Type 0} where
  unfoldable pub pure : A → Exec A
  pure a w = (returned a, w)

  unfoldable pub raise : Error → Exec A
  raise e w = (raised e, w)

  -- A `SELECT`.
  unfoldable pub gets : (Db → A) → Exec A
  gets f w = (returned (f w.db), w)

  -- What the environment answers, which may depend on all of the world.
  unfoldable pub asks : (World → A) → Exec A
  asks f w = (returned (f w), w)

  -- `assert row is not None`
  unfoldable pub assert_some : Option A → Exec A
  unfolding pure raise
  assert_some none = raise assertion_error
  assert_some (some a) = pure a

  abbrev pub on_integrity : Error → Outcome A → Outcome A
  on_integrity e (raised integrity_error) = raised e
  on_integrity e r = r

  -- `try: body` / `except sqlite3.IntegrityError: raise e`
  unfoldable pub except_integrity : Error → Exec A → Exec A
  except_integrity e body w = let (r, w') = body w in (on_integrity e r, w')

  abbrev pub handle : (Error → Exec A) → Outcome A → Exec A
  handle handler (returned a) w = (returned a, w)
  handle handler (raised e) w = handler e w

  -- `try: body` / `except Exception as e: handler`
  unfoldable pub except_any : Exec A → (Error → Exec A) → Exec A
  except_any body handler w = let (r, w') = body w in handle handler r w'

module _ {A B : Type 0} where
  -- `if row is None: early`, and the rest with the row
  unfoldable pub or_else : Option A → Exec B → (A → Exec B) → Exec B
  or_else none early rest = early
  or_else (some a) early rest = rest a

  abbrev pub and_then : Outcome A → (A → Exec B) → Exec B
  and_then (returned a) f w = f a w
  and_then (raised e) f w = (raised e, w)

  infixl 10 ◌>>=◌ ◌>>◌
  -- Opening this opens the other ways to build an `Exec` too.
  unfoldable pub ◌>>=◌ : Exec A → (A → Exec B) → Exec B
  unfolding pure raise gets asks assert_some except_integrity or_else
  ◌>>=◌ m f w = let (r, w') = m w in and_then r f w'

  abbrev pub ◌>>◌ : Exec A → Exec B → Exec B
  m >> k = m >>= λ _. k

-- An `INSERT`, an `UPDATE` or a `DELETE` that meets its constraints.
unfoldable pub modify : (Db → Db) → Exec (Unit {0})
modify f w = (returned tt, record w { db = f w.db })

-- A statement that raises where the test on the database says so.
unfoldable pub statement : (Db → Bool) → (Db → Db) → Exec (Unit {0})
statement violates f w = elim (violates w.db) [
  | true ↦ (raised integrity_error, w)
  | false ↦ (returned tt, record w { db = f w.db })
]

-- `datetime.now(timezone.utc)`, and `strftime('now')` in a column's default
unfoldable pub utc_now : Exec ℕ
utc_now w = (returned (w.clock w.readings), record w { readings = suc w.readings })

-- `uuid.uuid4().hex[:8]`
unfoldable pub uuid_hex8 : Exec String
uuid_hex8 w = (returned (w.uuids w.draws), record w { draws = suc w.draws })

-- `get_db` of src/config/db.py: the transaction commits, or is rolled back if the body raised.
abbrev pub settle : {A : Type 0} → Db → Outcome A → World → World
settle before (returned _) w = w
settle before (raised _) w = record w { db = before }

unfoldable pub get_db : {A : Type 0} → Exec A → Exec A
get_db body w = let (r, w') = body w in (r, settle w.db r w')

-- A request that goes out, and what the other side answers in the world before it.
unfoldable pub send : {A : Type 0} → (World → Request → A) → Request → Exec A
send answer r w =
    (returned (answer w r), record w { process = record w.process { sent = r ∷ w.process.sent } })

-- A change of the process.
unfoldable pub set_process : (Process → Process) → Exec (Unit {0})
set_process f w = (returned tt, record w { process = f w.process })
