-- ===== src/World/Runs.antt =====
-- How a run of an action goes through its parts.
use litellm_control_plane.Common.{◌≡◌, refl, sym, ap, ◌∙◌, ◌⊎◌, inl, inr, Option, none, some}
use litellm_control_plane.World.{
  World, Outcome, returned, raised, Error, Exec, ◌>>=◌, ◌>>◌, and_then, except_any, or_else, raise,
  pure,
}

-- A run of `m >>= f` that returns goes through a run of `m` that returns.
pub record Passes {A B : Type 0} (m : Exec A) (f : A → Exec B) (w : World) : Type 0 where
  pub value : A
  pub first_part : (m w).0 ≡ returned value
  pub whole : (m >>= f) w ≡ f value (m w).1

module _ {A B : Type 0} where
  pub bind_run :
      (m : Exec A) (f : A → Exec B) (w : World) (a : A)
      → (m w).0 ≡ returned a
      → (m >>= f) w ≡ f a (m w).1
  unfolding ◌>>=◌
  bind_run m f w a h = rw h refl

  -- The same, with the world after the first part named.
  pub bind_to :
      (m : Exec A) {w w' : World} {a : A} (f : A → Exec B)
      → m w ≡ (returned a, w')
      → (m >>= f) w ≡ f a w'
  unfolding ◌>>=◌
  bind_to m f h = rw h refl

  pub bind_same :
      (m n : Exec A) {w v : World} (f : A → Exec B) → m w ≡ n v → (m >>= f) w ≡ (n >>= f) v
  unfolding ◌>>=◌
  bind_same m n f h = rw h refl

  pub bind_raises :
      (m : Exec A) {w w' : World} {e : Error} (f : A → Exec B)
      → m w ≡ (raised e, w')
      → (m >>= f) w ≡ (raised e, w')
  unfolding ◌>>=◌
  bind_raises m f h = rw h refl

  through :
      (r : Outcome A) (f : A → Exec B) (w' : World) (b : B)
      → (and_then r f w').0 ≡ returned b
      → (a : A) × (r ≡ returned a)
  through (returned a) f w' b h = (a, refl)
  through (raised e) f w' b h = cc

  pub bind-Passes :
      (m : Exec A) (f : A → Exec B) (w : World) (b : B)
      → ((m >>= f) w).0 ≡ returned b
      → Passes m f w
  unfolding ◌>>=◌
  bind-Passes m f w b h =
      let (a, e) = through (m w).0 f (m w).1 b h in
      record { value = a; first_part = e; whole = bind_run m f w a e }

-- The same with the run of the rest, which returns what the whole returns.
pub record Steps {A B : Type 0} (m : Exec A) (f : A → Exec B) (w : World) (b : B) : Type 0 where
  pub value : A
  pub first_part : (m w).0 ≡ returned value
  pub world : ((m >>= f) w).1 ≡ (f value (m w).1).1
  pub rest : (f value (m w).1).0 ≡ returned b

pub bind-Steps :
    {A B : Type 0} (m : Exec A) (f : A → Exec B) (w : World) (b : B)
    → ((m >>= f) w).0 ≡ returned b
    → Steps m f w b
bind-Steps m f w b h =
    let p = bind-Passes m f w b h in
    record {
      value = p.value;
      first_part = p.first_part;
      world = ap (λ m. m.1) p.whole;
      rest = ap (λ m. m.0) (sym p.whole) ∙ h;
    }

-- A value that is there, or else an exception.
pub or_raise_run :
    {A : Type 0} (o : Option A) (e : Error) (w : World) (a : A)
    → (or_else o (raise e) pure w).0 ≡ returned a
    → (o ≡ some a) × (or_else o (raise e) pure w ≡ (returned a, w))
unfolding or_else raise pure
or_raise_run none e w a h = cc
or_raise_run (some b) e w a h = (cc, cc)

-- A run that a handler of exceptions guards.
pub handled :
    {A : Type 0} (m : Exec A) (handler : Error → Exec A) (w : World)
    → ((a : A) × ((m w).0 ≡ returned a) × (except_any m handler w ≡ (returned a, (m w).1)))
      ⊎ ((e : Error) × ((m w).0 ≡ raised e) × (except_any m handler w ≡ handler e (m w).1))
unfolding except_any
handled {A = A} m handler w = split (m w).0 refl
  where
    split :
        (r : Outcome A)
        → (m w).0 ≡ r
        → ((a : A) × ((m w).0 ≡ returned a) × (except_any m handler w ≡ (returned a, (m w).1)))
          ⊎ ((e : Error) × ((m w).0 ≡ raised e) × (except_any m handler w ≡ handler e (m w).1))
    split (returned a) h = inl (a, h, rw h refl)
    split (raised e) h = inr (e, h, rw h refl)

module _ {A : Type 0} (m : Exec A) {w w' : World} where
  pub except_returns :
      {a : A} (handler : Error → Exec A)
      → m w ≡ (returned a, w')
      → except_any m handler w ≡ (returned a, w')
  unfolding except_any
  except_returns handler h = rw h refl

  pub except_handles :
      {e : Error} (handler : Error → Exec A)
      → m w ≡ (raised e, w')
      → except_any m handler w ≡ handler e w'
  unfolding except_any
  except_handles handler h = rw h refl

module _ {A : Type 0} where
  pub returned_injective : {a b : A} → returned a ≡ returned b → a ≡ b
  returned_injective h = cc

  pub raised-returned : {B : Type 0} {e : Error} {a : A} → raised e ≡ returned a → B
  raised-returned h = cc

-- An action whose exceptions are only logged.
pub swallow_run :
    {A : Type 0} (m : Exec A) (w : World)
    → except_any (m >> pure {A = Unit {0}} tt) (λ e. pure tt) w ≡ (returned tt, (m w).1)
unfolding except_any ◌>>=◌ pure
swallow_run {A = A} m w = go (m w).0 (m w).1
  where
    go :
        (r : Outcome A) (w' : World)
        → except_any {A = Unit {0}} ((λ v. (r, w')) >> pure tt) (λ e. pure tt) w ≡ (returned tt, w')
    go (returned a) w' = refl
    go (raised e) w' = refl

-- A handler that changes nothing leaves the world as the body left it.
pub except_world :
    {A : Type 0} (m : Exec A) (a : A) (w : World) → (except_any m (λ e. pure a) w).1 ≡ (m w).1
unfolding except_any pure
except_world {A = A} m a w = go (m w).0 (m w).1
  where
    go : (r : Outcome A) (w' : World) → (except_any (λ v. (r, w')) (λ e. pure a) w).1 ≡ w'
    go (returned b) w' = refl
    go (raised e) w' = refl

pub except_unit :
    (m : Exec (Unit {0})) (w : World) → (except_any m (λ e. pure tt) w).0 ≡ returned tt
unfolding except_any pure
except_unit m w = go (m w).0 (m w).1
  where
    go :
        (r : Outcome (Unit {0})) (w' : World)
        → (except_any (λ v. (r, w')) (λ e. pure tt) w).0 ≡ returned tt
    go (returned a) w' = refl
    go (raised e) w' = refl
