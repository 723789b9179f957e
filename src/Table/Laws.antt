-- ===== src/Table/Laws.antt =====
-- The laws of the statements on a table: what a read finds after a write.
use litellm_control_plane.Common.{
  String, Bool, true, false, none, some, List, [], ◌∷◌, ◌++◌, ◌≡◌, refl, sym, ◌∙◌, Option, arith,
  eq_iff, eq_refl, is_some,
}
use litellm_control_plane.Table.{by, first, update, delete, has}

module _ {A : Type 0} where
  pub by_self : (column : A → String) (row : A) → by column (column row) row ≡ true
  unfolding by
  by_self column row = eq_refl (column row)

  -- A row that is found meets the condition.
  pub first_holds :
      (p : A → Bool) (row : A) (rows : List A) → first p rows ≡ some row → p row ≡ true
  unfolding first
  first_holds p row [] h = cc
  first_holds p row (x ∷ rows) h = ground (arith, first_holds p row rows)

  -- The key of a row found by its key.
  pub first_key :
      (column : A → String) (k : String) (row : A) (rows : List A)
      → first (by column k) rows ≡ some row
      → column row ≡ k
  unfolding by
  first_key column k row rows h = (eq_iff (column row) k).0 (first_holds (by column k) row rows h)

  pub has-eq-is_some-first :
      (column : A → String) (k : String) (rows : List A)
      → has column k rows ≡ is_some (first (by column k) rows)
  unfolding has first
  has-eq-is_some-first column k [] = refl
  has-eq-is_some-first column k (x ∷ rows) = ground (arith, has-eq-is_some-first column k rows)

  -- The row inserted last is found where no row before it was.
  pub first-append :
      (p : A → Bool) (row : A) (rows : List A)
      → first p rows ≡ none
      → p row ≡ true
      → first p (rows ++ row ∷ []) ≡ some row
  unfolding first
  first-append p row [] h e = ground arith
  first-append p row (x ∷ rows) h e = ground (arith, first-append p row rows)

  -- An inserted row hides no other.
  pub first-append_other :
      (p : A → Bool) (row : A) (rows : List A)
      → p row ≡ false
      → first p (rows ++ row ∷ []) ≡ first p rows
  unfolding first
  first-append_other p row [] e = ground arith
  first-append_other p row (x ∷ rows) e = ground (arith, first-append_other p row rows)

  -- Where an update leaves the condition as it was, it changes just the row found.
  pub first-update :
      (p : A → Bool) (f : A → A) (row : A) (rows : List A)
      → ((x : A) → p (f x) ≡ p x)
      → first p rows ≡ some row
      → first p (update p f rows) ≡ some (f row)
  unfolding first update
  first-update p f row [] keep h = cc
  first-update p f row (x ∷ rows) keep h = ground (arith, keep x, first-update p f row rows keep)

  pub first-update-none :
      (p : A → Bool) (f : A → A) (rows : List A) → first p rows ≡ none → update p f rows ≡ rows
  unfolding first update
  first-update-none p f [] h = refl
  first-update-none p f (x ∷ rows) h = ground (arith, first-update-none p f rows)

  -- An update leaves alone what a disjoint condition finds.
  pub first-update_other :
      (p q : A → Bool) (f : A → A) (rows : List A)
      → ((x : A) → p x ≡ true → (q x ≡ false) × (q (f x) ≡ false))
      → first q (update p f rows) ≡ first q rows
  unfolding first update
  first-update_other p q f [] apart = refl
  first-update_other p q f (x ∷ rows) apart =
      ground (arith, apart x, first-update_other p q f rows apart)

  pub first-delete : (p : A → Bool) (rows : List A) → first p (delete p rows) ≡ none
  unfolding first delete
  first-delete p [] = refl
  first-delete p (x ∷ rows) = ground (arith, first-delete p rows)

  pub first-delete_other :
      (p q : A → Bool) (rows : List A)
      → ((x : A) → p x ≡ true → q x ≡ false)
      → first q (delete p rows) ≡ first q rows
  unfolding first delete
  first-delete_other p q [] apart = refl
  first-delete_other p q (x ∷ rows) apart =
      ground (arith, apart x, first-delete_other p q rows apart)

  none_of_is_some : (o : Option A) → is_some o ≡ false → o ≡ none
  none_of_is_some none h = refl
  none_of_is_some (some a) h = cc

  -- A row inserted under a new key is read back.
  pub first-insert :
      (column : A → String) (row : A) (rows : List A)
      → has column (column row) rows ≡ false
      → first (by column (column row)) (rows ++ row ∷ []) ≡ some row
  first-insert column row rows fresh =
      first-append _ row rows
        (none_of_is_some _ (sym (has-eq-is_some-first column (column row) rows) ∙ fresh))
        (by_self column row)
