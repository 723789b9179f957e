-- ===== src/Table.antt =====
-- What the SQL statements of src/registry/store.py do to a table: a list of rows in the order of
-- insertion, which is the order in which SQLite scans a table that has no `ORDER BY`.
pub mod Laws
pub mod Pairs
pub mod Sort
pub mod Members
pub mod References
use litellm_control_plane.Common.{
  String, Bool, true, false, Option, none, some, List, [], ◌∷◌, ◌≡◌, ◌==◌, any, if◌then◌else◌,
}

-- `WHERE column = k` on a column that may be NULL: a NULL equals nothing.
abbrev pub by_option : Option String → String → Bool
by_option none k = false
by_option (some j) k = j == k

module _ {A : Type 0} where
  -- `WHERE column = k`
  unfoldable pub by : (A → String) → String → A → Bool
  by column k row = column row == k

  -- `SELECT * FROM t WHERE p`, then `fetchone()`
  unfoldable pub first : (A → Bool) → List A → Option A
  first p [] = none
  first p (row ∷ rows) = if p row then some row else first p rows

  -- `UPDATE t SET f WHERE p`
  unfoldable pub update : (A → Bool) → (A → A) → List A → List A
  update p f [] = []
  update p f (row ∷ rows) = (if p row then f row else row) ∷ update p f rows

  -- `DELETE FROM t WHERE p`
  unfoldable pub delete : (A → Bool) → List A → List A
  delete p [] = []
  delete p (row ∷ rows) = let rest = delete p rows in if p row then rest else row ∷ rest

  -- `k` stands in the column: what a FOREIGN KEY and a PRIMARY KEY ask of a row.
  unfoldable pub has : (A → String) → String → List A → Bool
  unfolding any by
  has column k rows = any (by column k) rows
