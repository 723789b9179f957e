-- ===== src/World/Quiet.antt =====
-- Actions that leave the process as it is: they send no request, write no file and keep the cache.
use litellm_control_plane.Common.{
  Bool, true, false, Option, none, some, ◌≡◌, refl, ◌∙◌, if◌then◌else◌, Bool-cases, inl, inr,
}
use litellm_control_plane.World.{
  Db, World, Error, Outcome, returned, raised, Exec, pure, raise, gets, asks, or_else, ◌>>=◌,
  modify, statement, utc_now, uuid_hex8, and_then, except_any, handle,
}

pub record Quiet {A : Type 0} (m : Exec A) : Type 0 where
  pub at : (w : World) → (m w).1.process ≡ w.process

module _ {A : Type 0} where
  pub Quiet-pure : (a : A) → Quiet (pure a)
  unfolding pure
  Quiet-pure a = record { at = λ w. refl }

  pub Quiet-raise : (e : Error) → Quiet (raise {A = A} e)
  unfolding raise
  Quiet-raise e = record { at = λ w. refl }

  pub Quiet-gets : (f : Db → A) → Quiet (gets f)
  unfolding gets
  Quiet-gets f = record { at = λ w. refl }

  pub Quiet-asks : (f : World → A) → Quiet (asks f)
  unfolding asks
  Quiet-asks f = record { at = λ w. refl }

  pub Quiet-if : (b : Bool) (m n : Exec A) → Quiet m → Quiet n → Quiet (if b then m else n)
  Quiet-if true m n km kn = km
  Quiet-if false m n km kn = kn

  handle-at :
      (handler : Error → Exec A) (r : Outcome A) (w : World)
      → ((e : Error) → Quiet (handler e))
      → (handle handler r w).1.process ≡ w.process
  handle-at handler (returned a) w k = refl
  handle-at handler (raised e) w k = (k e).at w

  pub Quiet-except_any :
      (m : Exec A) (handler : Error → Exec A)
      → Quiet m
      → ((e : Error) → Quiet (handler e))
      → Quiet (except_any m handler)
  unfolding except_any
  Quiet-except_any m handler km kh = record {
    at = λ w. handle-at handler (m w).0 (m w).1 kh ∙ km.at w;
  }

pub Quiet-modify : (f : Db → Db) → Quiet (modify f)
unfolding modify
Quiet-modify f = record { at = λ w. refl }

pub Quiet-statement : (violates : Db → Bool) (f : Db → Db) → Quiet (statement violates f)
unfolding statement
Quiet-statement violates f = record {
  at = λ w. elim (Bool-cases (violates w.db)) [
    | inl bad ↦ rw (bad, statement) refl
    | inr good ↦ rw (good, statement) refl
  ];
}

pub Quiet-utc_now : Quiet utc_now
unfolding utc_now
Quiet-utc_now = record { at = λ w. refl }

pub Quiet-uuid_hex8 : Quiet uuid_hex8
unfolding uuid_hex8
Quiet-uuid_hex8 = record { at = λ w. refl }

module _ {A B : Type 0} where
  pub Quiet-or_else :
      (o : Option A) (early : Exec B) (rest : A → Exec B)
      → Quiet early
      → ((a : A) → Quiet (rest a))
      → Quiet (or_else o early rest)
  unfolding or_else
  Quiet-or_else none early rest ke kr = ke
  Quiet-or_else (some a) early rest ke kr = kr a

  bind-at :
      (r : Outcome A) (f : A → Exec B) (w : World)
      → ((a : A) → Quiet (f a))
      → (and_then r f w).1.process ≡ w.process
  bind-at (returned a) f w k = (k a).at w
  bind-at (raised e) f w k = refl

  pub Quiet-bind :
      (m : Exec A) (f : A → Exec B) → Quiet m → ((a : A) → Quiet (f a)) → Quiet (m >>= f)
  unfolding ◌>>=◌
  Quiet-bind m f km kf = record { at = λ w. bind-at (m w).0 f (m w).1 kf ∙ km.at w }

pub ruleset quiet_rules = (
  Quiet-pure, Quiet-raise, Quiet-gets, Quiet-asks, Quiet-if, Quiet-except_any, Quiet-modify,
  Quiet-statement, Quiet-utc_now, Quiet-uuid_hex8, Quiet-or_else, Quiet-bind,
)
