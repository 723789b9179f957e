-- ===== src/World/Keeps.antt =====
-- Properties of the database that an action keeps, with a rule for each way to build an action.
use litellm_control_plane.Common.{
  Bool, true, false, Option, none, some, ◌≡◌, Bool-cases, inl, inr, if◌then◌else◌,
}
use litellm_control_plane.World.{
  Db, World, Error, Outcome, returned, raised, Exec, pure, raise, gets, asks, assert_some,
  except_integrity, except_any, handle, or_else, ◌>>=◌, modify, statement, utc_now, uuid_hex8,
  get_db, settle, send, set_process,
}
use litellm_control_plane.Process.{Process, Request}

-- `m` keeps `P`, whether it returns or raises.
pub record Keeps {A : Type 0} (P : Db → Type 0) (m : Exec A) : Type 0 where
  pub at : (w : World) → P w.db → P (m w).1.db

settle-Keeps :
    (P : Db → Type 0) {A : Type 0} (before : Db) (r : Outcome A) (w : World)
    → P before
    → P w.db
    → P (settle before r w).db
settle-Keeps P before (returned a) w h k = k
settle-Keeps P before (raised e) w h k = h

module _ {P : Db → Type 0} where
  module _ {A : Type 0} where
    pub Keeps-pure : (a : A) → Keeps P (pure a)
    unfolding pure
    Keeps-pure a = record { at = λ w h. h }

    pub Keeps-raise : (e : Error) → Keeps P (raise {A = A} e)
    unfolding raise
    Keeps-raise e = record { at = λ w h. h }

    pub Keeps-gets : (f : Db → A) → Keeps P (gets f)
    unfolding gets
    Keeps-gets f = record { at = λ w h. h }

    pub Keeps-asks : (f : World → A) → Keeps P (asks f)
    unfolding asks
    Keeps-asks f = record { at = λ w h. h }

    pub Keeps-send : (answer : World → Request → A) (r : Request) → Keeps P (send answer r)
    unfolding send
    Keeps-send answer r = record { at = λ w h. h }

    pub Keeps-assert_some : (o : Option A) → Keeps P (assert_some o)
    unfolding assert_some
    Keeps-assert_some none = record { at = λ w h. h }
    Keeps-assert_some (some a) = record { at = λ w h. h }

    pub Keeps-except_integrity :
        (e : Error) (m : Exec A) → Keeps P m → Keeps P (except_integrity e m)
    unfolding except_integrity
    Keeps-except_integrity e m k = record { at = λ w h. k.at w h }

    handle-at :
        (handler : Error → Exec A) (r : Outcome A) (w : World)
        → ((e : Error) → Keeps P (handler e))
        → P w.db
        → P (handle handler r w).1.db
    handle-at handler (returned a) w k h = h
    handle-at handler (raised e) w k h = (k e).at w h

    pub Keeps-except_any :
        (m : Exec A) (handler : Error → Exec A)
        → Keeps P m
        → ((e : Error) → Keeps P (handler e))
        → Keeps P (except_any m handler)
    unfolding except_any
    Keeps-except_any m handler km kh = record {
      at = λ w h. let (r, w') = m w in handle-at handler r w' kh (km.at w h);
    }

    pub Keeps-if : (b : Bool) (m n : Exec A) → Keeps P m → Keeps P n → Keeps P (if b then m else n)
    Keeps-if true m n km kn = km
    Keeps-if false m n km kn = kn

    pub Keeps-get_db : (m : Exec A) → Keeps P m → Keeps P (get_db m)
    unfolding get_db
    Keeps-get_db m k = record {
      at = λ w h. let (r, w') = m w in settle-Keeps P w.db r w' h (k.at w h);
    }

  pub Keeps-modify : (f : Db → Db) → ((d : Db) → P d → P (f d)) → Keeps P (modify f)
  unfolding modify
  Keeps-modify f k = record { at = λ w h. k w.db h }

  pub Keeps-statement :
      (violates : Db → Bool) (f : Db → Db)
      → ((d : Db) → violates d ≡ false → P d → P (f d))
      → Keeps P (statement violates f)
  unfolding statement
  Keeps-statement violates f k = record {
    at = λ w h. elim (Bool-cases (violates w.db)) [
      | inl bad ↦ rw (bad, statement) h
      | inr good ↦ rw (good, statement) (k w.db good h)
    ];
  }

  pub Keeps-set_process : (f : Process → Process) → Keeps P (set_process f)
  unfolding set_process
  Keeps-set_process f = record { at = λ w h. h }

  pub Keeps-utc_now : Keeps P utc_now
  unfolding utc_now
  Keeps-utc_now = record { at = λ w h. h }

  pub Keeps-uuid_hex8 : Keeps P uuid_hex8
  unfolding uuid_hex8
  Keeps-uuid_hex8 = record { at = λ w h. h }

module _ {P : Db → Type 0} {A B : Type 0} where
  bind-at :
      (r : Outcome A) (f : A → Exec B) (w : World)
      → ((a : A) → Keeps P (f a))
      → P w.db
      → P (((λ v. (r, v)) >>= f) w).1.db
  unfolding ◌>>=◌
  bind-at (returned a) f w k h = (k a).at w h
  bind-at (raised e) f w k h = h

  pub Keeps-or_else :
      (o : Option A) (early : Exec B) (rest : A → Exec B)
      → Keeps P early
      → ((a : A) → Keeps P (rest a))
      → Keeps P (or_else o early rest)
  unfolding or_else
  Keeps-or_else none early rest ke kr = ke
  Keeps-or_else (some a) early rest ke kr = kr a

  pub Keeps-bind :
      (m : Exec A) (f : A → Exec B) → Keeps P m → ((a : A) → Keeps P (f a)) → Keeps P (m >>= f)
  unfolding ◌>>=◌
  Keeps-bind m f km kf = record { at = λ w h. let (r, w') = m w in bind-at r f w' kf (km.at w h) }

pub ruleset keeps_rules = (
  Keeps-pure, Keeps-raise, Keeps-gets, Keeps-asks, Keeps-assert_some, Keeps-except_integrity,
  Keeps-except_any, Keeps-if, Keeps-or_else, Keeps-send, Keeps-set_process, Keeps-utc_now,
  Keeps-uuid_hex8, Keeps-bind,
)
