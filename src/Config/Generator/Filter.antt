-- ===== src/Config/Generator/Filter.antt =====
-- The exclusion filter of src/config/generator.py against that of src/policy/engine.py, and what a
-- configuration serves.
use litellm_control_plane.Common.{
  Option, none, some, List, [], ◌∷◌, ◌≡◌, refl, sym, ap, ◌∙◌, not, Option-cases, inl, inr,
}
use mathlib.Core.List.{Memᴰ}
use litellm_control_plane.Models.{Status, Override, Endpoint}
use litellm_control_plane.World.{Db}
use litellm_control_plane.Policy.{is_routable, account_blocked}
use litellm_control_plane.Policy as Policy
use litellm_control_plane.Config.Generator.{
  Row, is_excluded, join_row, join_rows, cons_row, account_off, account_down,
}

down : (a : Status) → account_down a ≡ not (not (account_blocked a))
down Status.disabled = refl
down Status.inactive = refl
down Status.cooldown = refl
down _ = refl

off : (a : Status) → account_off a ≡ not (not (Policy.account_off a))
off Status.disabled = refl
off Status.inactive = refl
off _ = refl

-- The two copies of the exclusion checks agree on every override and every two states.
pub is_excluded-eq-not-is_routable :
    (override : Override) (endpoint account : Status)
    → is_excluded override endpoint account ≡ not (is_routable override endpoint account)
unfolding is_excluded is_routable
is_excluded-eq-not-is_routable Override.force_disabled endpoint account = refl
is_excluded-eq-not-is_routable Override.force_active endpoint account = off account
is_excluded-eq-not-is_routable Override.unset Status.disabled account = refl
is_excluded-eq-not-is_routable Override.unset Status.cooldown account = refl
is_excluded-eq-not-is_routable Override.unset Status.degraded account = refl
is_excluded-eq-not-is_routable Override.unset _ account = down account

-- The row comes from an endpoint of the list.
pub record Joined (d : Db) (es : List Endpoint) (r : Row) : Type 0 where
  pub endpoint : Endpoint
  pub member : Memᴰ endpoint es
  pub joined : join_row d endpoint ≡ some r

Joined-behind :
    (d : Db) (e : Endpoint) (es : List Endpoint) (r : Row) → Joined d es r → Joined d (e ∷ es) r
Joined-behind d e es r j = record {
  endpoint = j.endpoint;
  member = Memᴰ.tail j.member;
  joined = j.joined;
}

cons_row-from :
    (d : Db) (e : Endpoint) (es : List Endpoint) (r : Row) (o : Option Row)
    → join_row d e ≡ o
    → Memᴰ r (cons_row o (join_rows d es))
    → (Memᴰ r (join_rows d es) → Joined d es r)
    → Joined d (e ∷ es) r
cons_row-from d e es r none h m rest = Joined-behind d e es r (rest m)
cons_row-from d e es r (some s) h (Memᴰ.head same) rest = record {
  endpoint = e;
  member = Memᴰ.head refl;
  joined = h ∙ ap some (sym same);
}
cons_row-from d e es r (some s) h (Memᴰ.tail m) rest = Joined-behind d e es r (rest m)

pub join_rows-from :
    (d : Db) (es : List Endpoint) (r : Row) → Memᴰ r (join_rows d es) → Joined d es r
unfolding join_rows
join_rows-from d [] r m = elim m [ ]
join_rows-from d (e ∷ es) r m = cons_row-from d e es r (join_row d e) refl m (join_rows-from d es r)

pub join_rows-to :
    (d : Db) (es : List Endpoint) (r : Row) (e : Endpoint)
    → Memᴰ e es
    → join_row d e ≡ some r
    → Memᴰ r (join_rows d es)
unfolding join_rows
join_rows-to d [] r e m h = elim m [ ]
join_rows-to d (f ∷ es) r e (Memᴰ.head same) h =
    let first_row : join_row d f ≡ some r = rw (← same) h in rw first_row (Memᴰ.head refl)
join_rows-to d (f ∷ es) r e (Memᴰ.tail m) h = elim (Option-cases (join_row d f)) [
  | inl skipped ↦ rw skipped (join_rows-to d es r e m h)
  | inr (s, kept) ↦ rw kept (Memᴰ.tail (join_rows-to d es r e m h))
]
