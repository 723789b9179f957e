-- ===== src/Table/Pairs.antt =====
-- A PRIMARY KEY of several columns: no two rows are the same under a test that compares them.
use litellm_control_plane.Common.{
  Bool, true, false, List, [], ◌∷◌, ◌++◌, ◌≡◌, refl, ◌∙◌, arith, any, if◌then◌else◌,
}
use litellm_control_plane.Table.{update, delete}

abbrev pub DistinctBy : {A : Type 0} → (A → A → Bool) → List A → Type 0
DistinctBy same [] = Unit
DistinctBy same (x ∷ rows) = (any (same x) rows ≡ false) × DistinctBy same rows

module _ {A : Type 0} where
  any-append :
      (p : A → Bool) (y : A) (ys : List A)
      → any p ys ≡ false
      → p y ≡ false
      → any p (ys ++ y ∷ []) ≡ false
  unfolding any
  any-append p y [] h e = ground arith
  any-append p y (x ∷ ys) h e = ground (arith, any-append p y ys)

  pub DistinctBy-append :
      (same : A → A → Bool) (y : A) (ys : List A)
      → ((a b : A) → same a b ≡ same b a)
      → any (same y) ys ≡ false
      → DistinctBy same ys
      → DistinctBy same (ys ++ y ∷ [])
  unfolding any
  DistinctBy-append same y [] symm h d = (refl, tt)
  DistinctBy-append same y (x ∷ ys) symm h d = (
    any-append (same x) y ys d.0 (ground (arith, symm x y)),
    DistinctBy-append same y ys symm (ground arith) d.1,
  )

  any-update :
      (p q : A → Bool) (f : A → A) (ys : List A)
      → ((y : A) → p (f y) ≡ p y)
      → any p (update q f ys) ≡ any p ys
  unfolding any update
  any-update p q f [] keep = refl
  any-update p q f (y ∷ ys) keep = ground (arith, keep y, any-update p q f ys keep)

  any_pointwise : (p q : A → Bool) (ys : List A) → ((y : A) → p y ≡ q y) → any p ys ≡ any q ys
  unfolding any
  any_pointwise p q [] e = refl
  any_pointwise p q (y ∷ ys) e = ground (arith, e y, any_pointwise p q ys e)

  -- An update that leaves alone what the test compares.
  pub DistinctBy-update :
      (same : A → A → Bool) (q : A → Bool) (f : A → A) (ys : List A)
      → ((a b : A) → same (f a) b ≡ same a b)
      → ((a b : A) → same a (f b) ≡ same a b)
      → DistinctBy same ys
      → DistinctBy same (update q f ys)
  unfolding update
  DistinctBy-update same q f [] left right d = tt
  DistinctBy-update same q f (y ∷ ys) left right d =
      (first_kept (q y), DistinctBy-update same q f ys left right d.1)
    where
      kept : any (same y) (update q f ys) ≡ false
      kept = any-update (same y) q f ys (right y) ∙ d.0

      kept_after : any (same (f y)) (update q f ys) ≡ false
      kept_after =
          any-update (same (f y)) q f ys (right (f y))
          ∙ any_pointwise (same (f y)) (same y) ys (left y)
          ∙ d.0

      first_kept : (b : Bool) → any (same (if b then f y else y)) (update q f ys) ≡ false
      first_kept true = kept_after
      first_kept false = kept

  any-delete : (p q : A → Bool) (ys : List A) → any p ys ≡ false → any p (delete q ys) ≡ false
  unfolding any delete
  any-delete p q [] h = refl
  any-delete p q (y ∷ ys) h = ground (arith, any-delete p q ys)

  pub DistinctBy-delete :
      (same : A → A → Bool) (q : A → Bool) (ys : List A)
      → DistinctBy same ys
      → DistinctBy same (delete q ys)
  unfolding delete
  DistinctBy-delete same q [] d = tt
  DistinctBy-delete same q (y ∷ ys) d =
      ground (arith, any-delete (same y) q ys d.0, DistinctBy-delete same q ys d.1)
