-- ===== src/Table/References.antt =====
-- PRIMARY KEY and FOREIGN KEY constraints as predicates, and how the statements keep them.
use litellm_control_plane.Common.{
  String, Bool, true, false, Option, none, some, List, [], ◌∷◌, ◌++◌, ◌≡◌, ◌≢◌, refl, ◌∙◌, arith,
  ◌==◌, eq_iff, All, Bool-cases, inl, inr,
}
use litellm_control_plane.Table.{by, by_option, update, delete, has}

-- No two rows have the same key.
abbrev pub Distinct : {A : Type 0} → (A → String) → List A → Type 0
Distinct key [] = Unit
Distinct key (x ∷ rows) = (has key (key x) rows ≡ false) × Distinct key rows

-- Each row's foreign key is the key of a row of the other table.
abbrev pub Refers : {A B : Type 0} → (A → String) → (B → String) → List A → List B → Type 0
Refers fk key xs ys = All (λ x. has key (fk x) ys ≡ true) xs

-- A key that may be NULL refers to nothing where it is NULL.
abbrev pub HasOption : {B : Type 0} → (B → String) → Option String → List B → Type 0
HasOption key none ys = Unit
HasOption key (some k) ys = has key k ys ≡ true

abbrev pub OptionRefers :
    {A B : Type 0} → (A → Option String) → (B → String) → List A → List B → Type 0
OptionRefers fk key xs ys = All (λ x. HasOption key (fk x) ys) xs

module _ {A : Type 0} where
  pub has-append :
      (key : A → String) (k : String) (y : A) (ys : List A)
      → has key k ys ≡ true
      → has key k (ys ++ y ∷ []) ≡ true
  unfolding has
  has-append key k y [] h = cc
  has-append key k y (x ∷ ys) h = ground (arith, has-append key k y ys)

  has-append_false :
      (key : A → String) (k : String) (y : A) (ys : List A)
      → has key k ys ≡ false
      → key y ≢ k
      → has key k (ys ++ y ∷ []) ≡ false
  unfolding has
  has-append_false key k y [] h ne = ground (arith, eq_iff (key y) k)
  has-append_false key k y (x ∷ ys) h ne = ground (arith, has-append_false key k y ys)

  -- An update that keeps the keys keeps which keys there are.
  pub has-update :
      (key : A → String) (p : A → Bool) (f : A → A) (k : String) (ys : List A)
      → ((y : A) → key (f y) ≡ key y)
      → has key k (update p f ys) ≡ has key k ys
  unfolding has update
  has-update key p f k [] keep = refl
  has-update key p f k (y ∷ ys) keep = ground (arith, keep y, has-update key p f k ys keep)

  has-delete-false :
      (key : A → String) (p : A → Bool) (k : String) (ys : List A)
      → has key k ys ≡ false
      → has key k (delete p ys) ≡ false
  unfolding has delete
  has-delete-false key p k [] h = refl
  has-delete-false key p k (y ∷ ys) h = ground (arith, has-delete-false key p k ys)

  -- A key that is not the deleted one stays.
  pub has-delete_ne :
      (key : A → String) (k j : String) (ys : List A)
      → has key j ys ≡ true
      → (j == k) ≡ false
      → has key j (delete (by key k) ys) ≡ true
  unfolding has delete
  has-delete_ne key k j [] h ne = cc
  has-delete_ne key k j (y ∷ ys) h ne =
      ground (arith, eq_iff (key y) k, eq_iff (key y) j, eq_iff j k, has-delete_ne key k j ys)

  pub Distinct-append :
      (key : A → String) (y : A) (ys : List A)
      → has key (key y) ys ≡ false
      → Distinct key ys
      → Distinct key (ys ++ y ∷ [])
  Distinct-append key y [] h d = unfold has in (refl, tt)
  Distinct-append key y (x ∷ ys) h d = (
    has-append_false key (key x) y ys d.0 (λ e. cc (head_differs e)),
    Distinct-append key y ys tail_free d.1,
  )
    where
      head_differs : key y ≡ key x → false ≡ true
      head_differs e = unfold has in ground (arith, eq_iff (key x) (key y))

      tail_free : has key (key y) ys ≡ false
      tail_free = unfold has in ground arith

  pub Distinct-update :
      (key : A → String) (p : A → Bool) (f : A → A) (ys : List A)
      → ((y : A) → key (f y) ≡ key y)
      → Distinct key ys
      → Distinct key (update p f ys)
  unfolding update
  Distinct-update key p f [] keep d = tt
  Distinct-update key p f (y ∷ ys) keep d =
      ground
        (arith, keep y, has-update key p f (key y) ys keep, Distinct-update key p f ys keep d.1)

  pub Distinct-delete :
      (key : A → String) (p : A → Bool) (ys : List A) → Distinct key ys → Distinct key (delete p ys)
  unfolding delete
  Distinct-delete key p [] d = tt
  Distinct-delete key p (y ∷ ys) d =
      ground (arith, has-delete-false key p (key y) ys d.0, Distinct-delete key p ys d.1)

module _ {A B : Type 0} where
  pub Refers-append_child :
      (fk : A → String) (key : B → String) (x : A) (xs : List A) (ys : List B)
      → has key (fk x) ys ≡ true
      → Refers fk key xs ys
      → Refers fk key (xs ++ x ∷ []) ys
  Refers-append_child fk key x [] ys h r = (h, tt)
  Refers-append_child fk key x (z ∷ xs) ys h r = (r.0, Refers-append_child fk key x xs ys h r.1)

  pub Refers-append_parent :
      (fk : A → String) (key : B → String) (xs : List A) (y : B) (ys : List B)
      → Refers fk key xs ys
      → Refers fk key xs (ys ++ y ∷ [])
  Refers-append_parent fk key [] y ys r = tt
  Refers-append_parent fk key (x ∷ xs) y ys r =
      (has-append key (fk x) y ys r.0, Refers-append_parent fk key xs y ys r.1)

  pub Refers-update_child :
      (fk : A → String) (key : B → String) (p : A → Bool) (f : A → A) (xs : List A) (ys : List B)
      → ((x : A) → fk (f x) ≡ fk x)
      → Refers fk key xs ys
      → Refers fk key (update p f xs) ys
  unfolding update
  Refers-update_child fk key p f [] ys keep r = tt
  Refers-update_child fk key p f (x ∷ xs) ys keep r =
      ground (arith, keep x, Refers-update_child fk key p f xs ys keep r.1)

  pub Refers-update_parent :
      (fk : A → String) (key : B → String) (p : B → Bool) (f : B → B) (xs : List A) (ys : List B)
      → ((y : B) → key (f y) ≡ key y)
      → Refers fk key xs ys
      → Refers fk key xs (update p f ys)
  Refers-update_parent fk key p f [] ys keep r = tt
  Refers-update_parent fk key p f (x ∷ xs) ys keep r =
      (has-update key p f (fk x) ys keep ∙ r.0, Refers-update_parent fk key p f xs ys keep r.1)

  pub Refers-delete_child :
      (fk : A → String) (key : B → String) (p : A → Bool) (xs : List A) (ys : List B)
      → Refers fk key xs ys
      → Refers fk key (delete p xs) ys
  unfolding delete
  Refers-delete_child fk key p [] ys r = tt
  Refers-delete_child fk key p (x ∷ xs) ys r =
      ground (arith, Refers-delete_child fk key p xs ys r.1)

  -- RESTRICT: a parent that nothing refers to may go.
  pub Refers-restrict :
      (fk : A → String) (key : B → String) (k : String) (xs : List A) (ys : List B)
      → has fk k xs ≡ false
      → Refers fk key xs ys
      → Refers fk key xs (delete (by key k) ys)
  Refers-restrict fk key k [] ys h r = tt
  Refers-restrict fk key k (x ∷ xs) ys h r = (
    has-delete_ne key k (fk x) ys r.0 (unfold has in ground arith),
    Refers-restrict fk key k xs ys (unfold has in ground arith) r.1,
  )

  -- CASCADE: a parent may go together with what refers to it.
  pub Refers-cascade :
      (fk : A → String) (key : B → String) (k : String) (xs : List A) (ys : List B)
      → Refers fk key xs ys
      → Refers fk key (delete (by fk k) xs) (delete (by key k) ys)
  unfolding delete by
  Refers-cascade fk key k [] ys r = tt
  Refers-cascade fk key k (x ∷ xs) ys r =
      ground (arith, has-delete_ne key k (fk x) ys r.0, Refers-cascade fk key k xs ys r.1)

module _ {B : Type 0} where
  HasOption-append :
      (key : B → String) (k : Option String) (y : B) (ys : List B)
      → HasOption key k ys
      → HasOption key k (ys ++ y ∷ [])
  HasOption-append key none y ys h = tt
  HasOption-append key (some k) y ys h = has-append key k y ys h

  HasOption-update :
      (key : B → String) (p : B → Bool) (f : B → B) (k : Option String) (ys : List B)
      → ((y : B) → key (f y) ≡ key y)
      → HasOption key k ys
      → HasOption key k (update p f ys)
  HasOption-update key p f none ys keep h = tt
  HasOption-update key p f (some k) ys keep h = has-update key p f k ys keep ∙ h

  HasOption-delete :
      (key : B → String) (k : String) (fk : Option String) (ys : List B)
      → HasOption key fk ys
      → by_option fk k ≡ false
      → HasOption key fk (delete (by key k) ys)
  HasOption-delete key k none ys h ne = tt
  HasOption-delete key k (some j) ys h ne = has-delete_ne key k j ys h ne

module _ {A B : Type 0} where
  pub OptionRefers-append_child :
      (fk : A → Option String) (key : B → String) (x : A) (xs : List A) (ys : List B)
      → HasOption key (fk x) ys
      → OptionRefers fk key xs ys
      → OptionRefers fk key (xs ++ x ∷ []) ys
  OptionRefers-append_child fk key x [] ys h r = (h, tt)
  OptionRefers-append_child fk key x (z ∷ xs) ys h r =
      (r.0, OptionRefers-append_child fk key x xs ys h r.1)

  pub OptionRefers-append_parent :
      (fk : A → Option String) (key : B → String) (xs : List A) (y : B) (ys : List B)
      → OptionRefers fk key xs ys
      → OptionRefers fk key xs (ys ++ y ∷ [])
  OptionRefers-append_parent fk key [] y ys r = tt
  OptionRefers-append_parent fk key (x ∷ xs) y ys r =
      (HasOption-append key (fk x) y ys r.0, OptionRefers-append_parent fk key xs y ys r.1)

  -- A new value of the foreign key is checked; a row that is not updated keeps its own.
  pub OptionRefers-update_child :
      (fk : A → Option String) (key : B → String) (p : A → Bool) (f : A → A) (xs : List A)
      (ys : List B)
      → ((x : A) → HasOption key (fk x) ys → HasOption key (fk (f x)) ys)
      → OptionRefers fk key xs ys
      → OptionRefers fk key (update p f xs) ys
  unfolding update
  OptionRefers-update_child fk key p f [] ys keep r = tt
  OptionRefers-update_child fk key p f (x ∷ xs) ys keep r = elim (Bool-cases (p x)) [
    | inl hit ↦ rw hit (keep x r.0, OptionRefers-update_child fk key p f xs ys keep r.1)
    | inr miss ↦ rw miss (r.0, OptionRefers-update_child fk key p f xs ys keep r.1)
  ]

  pub OptionRefers-update_parent :
      (fk : A → Option String) (key : B → String) (p : B → Bool) (f : B → B) (xs : List A)
      (ys : List B)
      → ((y : B) → key (f y) ≡ key y)
      → OptionRefers fk key xs ys
      → OptionRefers fk key xs (update p f ys)
  OptionRefers-update_parent fk key p f [] ys keep r = tt
  OptionRefers-update_parent fk key p f (x ∷ xs) ys keep r = (
    HasOption-update key p f (fk x) ys keep r.0,
    OptionRefers-update_parent fk key p f xs ys keep r.1,
  )

  pub OptionRefers-delete_child :
      (fk : A → Option String) (key : B → String) (p : A → Bool) (xs : List A) (ys : List B)
      → OptionRefers fk key xs ys
      → OptionRefers fk key (delete p xs) ys
  unfolding delete
  OptionRefers-delete_child fk key p [] ys r = tt
  OptionRefers-delete_child fk key p (x ∷ xs) ys r = elim (Bool-cases (p x)) [
    | inl hit ↦ rw hit (OptionRefers-delete_child fk key p xs ys r.1)
    | inr miss ↦ rw miss (r.0, OptionRefers-delete_child fk key p xs ys r.1)
  ]

  -- SET NULL: a parent goes, and what refers to it is cleared.
  pub OptionRefers-set_null :
      (fk : A → Option String) (key : B → String) (clear : A → A) (k : String) (xs : List A)
      (ys : List B)
      → ((x : A) → fk (clear x) ≡ none)
      → OptionRefers fk key xs ys
      → OptionRefers fk key (update (λ x. by_option (fk x) k) clear xs) (delete (by key k) ys)
  unfolding update
  OptionRefers-set_null fk key clear k [] ys cleared r = tt
  OptionRefers-set_null fk key clear k (x ∷ xs) ys cleared r =
      elim (Bool-cases (by_option (fk x) k)) [
        | inl hit ↦
            rw hit (rw (cleared x) tt, OptionRefers-set_null fk key clear k xs ys cleared r.1)
        | inr miss ↦ rw miss (
          HasOption-delete key k (fk x) ys r.0 miss,
          OptionRefers-set_null fk key clear k xs ys cleared r.1,
        )
      ]
