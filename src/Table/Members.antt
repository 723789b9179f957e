-- ===== src/Table/Members.antt =====
-- Which rows a selection and a deletion leave.
use litellm_control_plane.Common.{
  String, Bool, true, false, List, [], ◌∷◌, ◌≡◌, ◌≢◌, refl, arith, not, select, eq_iff, Bool-cases,
  inl, inr, if◌then◌else◌, ◌↔◌,
}
use mathlib.Core.List.{Memᴰ}
use litellm_control_plane.Table.{by, delete}

-- What holds of the first and of the others holds of all.
pub every :
    {A : Type 0} (P : A → Type 0) {y : A} {ys : List A}
    → P y
    → ((x : A) → Memᴰ x ys → P x)
    → (x : A) → Memᴰ x (y ∷ ys)
    → P x
every P h k x (Memᴰ.head e) = rw e h
every P h k x (Memᴰ.tail m) = k x m

pub select_mem :
    {A : Type 0} (p : A → Bool) (x : A) (xs : List A)
    → Memᴰ x xs
    → p x ≡ true
    → Memᴰ x (select p xs)
unfolding select
select_mem p x [] m h = elim m [ ]
select_mem p x (y ∷ ys) (Memᴰ.head e) h = let hy : p y ≡ true = rw (← e) h in rw hy (Memᴰ.head e)
select_mem p x (y ∷ ys) (Memᴰ.tail m) h = elim (Bool-cases (p y)) [
  | inl passes ↦ rw passes (Memᴰ.tail (select_mem p x ys m h))
  | inr fails ↦ rw fails (select_mem p x ys m h)
]

pub record Selected {A : Type 0} (p : A → Bool) (x : A) (xs : List A) : Type 0 where
  pub member : Memᴰ x xs
  pub passes : p x ≡ true

behind :
    {A : Type 0} {p : A → Bool} {x y : A} {ys : List A} → Selected p x ys → Selected p x (y ∷ ys)
behind s = record { member = Memᴰ.tail s.member; passes = s.passes }

kept :
    {A : Type 0} (p : A → Bool) (x y : A) (ys : List A) (b : Bool)
    → p y ≡ b
    → Memᴰ x (if b then y ∷ select p ys else select p ys)
    → (Memᴰ x (select p ys) → Selected p x ys)
    → Selected p x (y ∷ ys)
kept p x y ys true h (Memᴰ.head e) rest = record { member = Memᴰ.head e; passes = rw e h }
kept p x y ys true h (Memᴰ.tail m) rest = behind (rest m)
kept p x y ys false h m rest = behind (rest m)

pub select_from :
    {A : Type 0} (p : A → Bool) (x : A) (xs : List A) → Memᴰ x (select p xs) → Selected p x xs
unfolding select
select_from p x [] m = elim m [ ]
select_from p x (y ∷ ys) m = kept p x y ys (p y) refl m (select_from p x ys)

delete-eq-select :
    {A : Type 0} (p : A → Bool) (rows : List A) → delete p rows ≡ select (λ r. not (p r)) rows
unfolding delete select
delete-eq-select p [] = refl
delete-eq-select p (x ∷ rows) = ground (arith, delete-eq-select p rows)

-- A deletion leaves exactly the rows that do not meet its condition.
pub delete_iff :
    {A : Type 0} (p : A → Bool) (x : A) (rows : List A)
    → Memᴰ x (delete p rows) ↔ (Memᴰ x rows × (p x ≡ false))
delete_iff p x rows =
    let e = delete-eq-select p rows in
    (
      λ m.
          let s = select_from (λ r. not (p r)) x rows (rw (← e) m) in
          let passes = s.passes in (s.member, ground arith),
      λ (m, fails). rw e (select_mem (λ r. not (p r)) x rows m (ground arith)),
    )

-- A deletion by a key leaves exactly the rows with another key.
pub delete-Memᴰ :
    {A : Type 0} (column : A → String) (k : String) (x : A) (rows : List A)
    → Memᴰ x (delete (by column k) rows) ↔ (Memᴰ x rows × (column x ≢ k))
unfolding by
delete-Memᴰ column k x rows =
    let e = delete-eq-select (by column k) rows in
    (
      λ m.
          let s = select_from (λ r. not (by column k r)) x rows (rw (← e) m) in
          let passes = s.passes in (s.member, λ h. ground (arith, eq_iff (column x) k)),
      λ (m, ne).
          rw e
            (select_mem (λ r. not (by column k r)) x rows m (ground (arith, eq_iff (column x) k))),
    )
