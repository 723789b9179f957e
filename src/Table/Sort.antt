-- ===== src/Table/Sort.antt =====
-- `ORDER BY t DESC LIMIT n`, and Python's `sort(key=…, reverse=True)`: rows with equal keys keep
-- the order in which they stood.
use litellm_control_plane.Common.{
  ℕ, suc, ◌≤◌, List, [], ◌∷◌, ◌++◌, leb, take, length, arith, ◌≡◌, inl, inr, Bool-cases, drop,
  take-append-drop, length-take-min, min, ap, ◌∙◌, All, refl, if◌then◌else◌,
}
use mathlib.Core.List.{Perm}
use mathlib.Core.List.Perm

module _ {A : Type 0} (key : A → ℕ) where
  -- In front of the rows whose key is not larger.
  unfoldable pub place : A → List A → List A
  place x [] = x ∷ []
  place x (y ∷ ys) = if leb (key y) (key x) then x ∷ y ∷ ys else y ∷ place x ys

  unfoldable pub sort_desc : List A → List A
  unfolding place
  sort_desc [] = []
  sort_desc (x ∷ xs) = place x (sort_desc xs)

  unfoldable pub newest : ℕ → List A → List A
  unfolding sort_desc
  newest limit rows = take limit (sort_desc rows)

  -- Each row's key is at least that of every row behind it.
  abbrev pub IsDescending : List A → Type 0
  IsDescending [] = Unit
  IsDescending (x ∷ xs) = All (λ y. key y ≤ key x) xs × IsDescending xs

  place-Perm : (x : A) (xs : List A) → Perm (place x xs) (x ∷ xs)
  unfolding place
  place-Perm x [] = Perm.refl _
  place-Perm x (y ∷ ys) = elim (Bool-cases (leb (key y) (key x))) [
    | inl here ↦ rw here (Perm.refl _)
    | inr later ↦ rw later (Perm.trans (Perm.cons y (place-Perm x ys)) (Perm.swap x y ys))
  ]

  sort_desc-Perm : (xs : List A) → Perm (sort_desc xs) xs
  unfolding sort_desc
  sort_desc-Perm [] = Perm.refl _
  sort_desc-Perm (x ∷ xs) =
      Perm.trans (place-Perm x (sort_desc xs)) (Perm.cons x (sort_desc-Perm xs))

  All-place : (P : A → Type 0) (x : A) (xs : List A) → P x → All P xs → All P (place x xs)
  unfolding place
  All-place P x [] h hs = (h, tt)
  All-place P x (y ∷ ys) h (hy, hs) = elim (Bool-cases (leb (key y) (key x))) [
    | inl here ↦ rw here (h, (hy, hs))
    | inr later ↦ rw later (hy, All-place P x ys h hs)
  ]

  All-below :
      (x y : A) (xs : List A)
      → key y ≤ key x
      → All (λ z. key z ≤ key y) xs
      → All (λ z. key z ≤ key x) xs
  All-below x y [] h hs = tt
  All-below x y (z ∷ zs) h (hz, hs) = (omega (arith, h, hz), All-below x y zs h hs)

  place-IsDescending : (x : A) (xs : List A) → IsDescending xs → IsDescending (place x xs)
  unfolding place
  place-IsDescending x [] h = (tt, tt)
  place-IsDescending x (y ∷ ys) (below, h) = elim (Bool-cases (leb (key y) (key x))) [
    | inl here ↦
        let le : key y ≤ key x = ground arith in
        rw here ((le, All-below x y ys le below), (below, h))
    | inr later ↦
        let le : key x ≤ key y = ground arith in
        rw later (All-place (λ z. key z ≤ key y) x ys le below, place-IsDescending x ys h)
  ]

  sort_desc-IsDescending : (xs : List A) → IsDescending (sort_desc xs)
  unfolding sort_desc
  sort_desc-IsDescending [] = tt
  sort_desc-IsDescending (x ∷ xs) = place-IsDescending x (sort_desc xs) (sort_desc-IsDescending xs)

  length-place : (x : A) (xs : List A) → length (place x xs) ≡ suc (length xs)
  unfolding place
  length-place x [] = refl
  length-place x (y ∷ ys) = ground (arith, length-place x ys)

  length-sort_desc : (xs : List A) → length (sort_desc xs) ≡ length xs
  unfolding sort_desc
  length-sort_desc [] = refl
  length-sort_desc (x ∷ xs) = length-place x (sort_desc xs) ∙ ap suc (length-sort_desc xs)

  -- `ys` are the `limit` rows of `xs` with the largest keys, or all of them where there are fewer,
  -- the largest first: in front of the rows left out they are a permutation of `xs` that falls.
  pub record IsNewest (limit : ℕ) (xs ys : List A) : Type 0 where
    pub left_out : List A
    pub permuted : Perm (ys ++ left_out) xs
    pub descending : IsDescending (ys ++ left_out)
    pub size : length ys ≡ min limit (length xs)

  pub newest-IsNewest : (limit : ℕ) (xs : List A) → IsNewest limit xs (newest limit xs)
  unfolding newest
  newest-IsNewest limit xs =
      let whole = take-append-drop limit (sort_desc xs) in
      record {
        left_out = drop limit (sort_desc xs);
        permuted = rw whole (sort_desc-Perm xs);
        descending = rw whole (sort_desc-IsDescending xs);
        size = length-take-min limit (sort_desc xs) ∙ ap (min limit) (length-sort_desc xs);
      }
