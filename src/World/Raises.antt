-- ===== src/World/Raises.antt =====
-- Which exceptions an action may raise, with a rule for each way to build an action.
use litellm_control_plane.Common.{Bool, true, false, Option, none, some, ◌≡◌, if◌then◌else◌, subst}
use litellm_control_plane.World.{
  World, Error, Outcome, returned, raised, Exec, pure, raise, or_else, ◌>>=◌, and_then, except_any,
  handle,
}

-- Whatever `m` raises is in `P`.
pub record Raises {A : Type 0} (P : Error → Type 0) (m : Exec A) : Type 0 where
  pub at : (w : World) (e : Error) → (m w).0 ≡ raised e → P e

module _ {P : Error → Type 0} where
  module _ {A : Type 0} where
    pub Raises-pure : (a : A) → Raises P (pure a)
    unfolding pure
    Raises-pure a = record { at = λ w e h. cc }

    pub Raises-raise : (e : Error) → P e → Raises P (raise {A = A} e)
    unfolding raise
    Raises-raise e p = record { at = λ w e' h. let same : e ≡ e' = cc in subst P same p }

    pub Raises-if :
        (b : Bool) (m n : Exec A) → Raises P m → Raises P n → Raises P (if b then m else n)
    Raises-if true m n km kn = km
    Raises-if false m n km kn = kn

    handle-at :
        (handler : Error → Exec A) (r : Outcome A) (w : World) (e : Error)
        → ((e : Error) → Raises P (handler e))
        → (handle handler r w).0 ≡ raised e
        → P e
    handle-at handler (returned a) w e k h = cc
    handle-at handler (raised e') w e k h = (k e').at w e h

    -- Only the handler raises.
    pub Raises-except_any :
        (m : Exec A) (handler : Error → Exec A)
        → ((e : Error) → Raises P (handler e))
        → Raises P (except_any m handler)
    unfolding except_any
    Raises-except_any m handler k = record {
      at = λ w e h. let (r, w') = m w in handle-at handler r w' e k h;
    }

  module _ {A B : Type 0} where
    pub Raises-or_else :
        (o : Option A) (early : Exec B) (rest : A → Exec B)
        → Raises P early
        → ((a : A) → Raises P (rest a))
        → Raises P (or_else o early rest)
    unfolding or_else
    Raises-or_else none early rest ke kr = ke
    Raises-or_else (some a) early rest ke kr = kr a

    bind-at :
        (r : Outcome A) (f : A → Exec B) (w w' : World) (e : Error)
        → ((e : Error) → r ≡ raised e → P e)
        → ((a : A) → Raises P (f a))
        → (and_then r f w').0 ≡ raised e
        → P e
    bind-at (returned a) f w w' e km kf h = (kf a).at w' e h
    bind-at (raised e') f w w' e km kf h = km e cc

    pub Raises-bind :
        (m : Exec A) (f : A → Exec B) → Raises P m → ((a : A) → Raises P (f a)) → Raises P (m >>= f)
    unfolding ◌>>=◌
    Raises-bind m f km kf = record { at = λ w e h. bind-at (m w).0 f w (m w).1 e (km.at w) kf h }

pub ruleset raises_rules =
    (Raises-pure, Raises-raise, Raises-if, Raises-except_any, Raises-or_else, Raises-bind)
