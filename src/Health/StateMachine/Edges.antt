-- ===== src/Health/StateMachine/Edges.antt =====
-- The diagram of the states under failures and successes, without operators and probes.
use litellm_control_plane.Common.{◌≡◌, ◌∙◌, ◌⊎◌, arith}
use litellm_control_plane.Models.{Status}

-- What one failure or one success may do to a state.
pub data Edge (from to : Status) : Type 0 where
  stays : to ≡ from → Edge from to
  auth_failed : to ≡ Status.disabled → Edge from to
  rate_limited : to ≡ Status.cooldown → Edge from to
  worn_out : to ≡ Status.degraded → Edge from to
  proven : from ≡ Status.probe → to ≡ Status.active → Edge from to
  cured : from ≡ Status.degraded → to ≡ Status.active → Edge from to
  settled : from ≡ Status.recovered → to ≡ Status.active → Edge from to

-- What a sequence of them may do.
pub data Reaches : Status → Status → Type 0 where
  done : (s t : Status) → t ≡ s → Reaches s t
  step : (s m t : Status) → Edge s m → Reaches m t → Reaches s t

-- The states that only operators and the probe engine set.
abbrev pub IsReserved : Status → Type 0
IsReserved s = (s ≡ Status.probe) ⊎ (s ≡ Status.recovered) ⊎ (s ≡ Status.inactive)

-- An edge into a reserved state comes from that state.
Edge-IsReserved : (s t : Status) → Edge s t → IsReserved t → t ≡ s
Edge-IsReserved s t (Edge.stays e) h = e
Edge-IsReserved s t (Edge.auth_failed e) h = ground arith
Edge-IsReserved s t (Edge.rate_limited e) h = ground arith
Edge-IsReserved s t (Edge.worn_out e) h = ground arith
Edge-IsReserved s t (Edge.proven f e) h = ground arith
Edge-IsReserved s t (Edge.cured f e) h = ground arith
Edge-IsReserved s t (Edge.settled f e) h = ground arith

pub Reaches-IsReserved : (s t : Status) → Reaches s t → IsReserved t → t ≡ s
Reaches-IsReserved s t (Reaches.done _ _ e) h = e
Reaches-IsReserved s t (Reaches.step _ m _ e r) h =
    let back : t ≡ m = Reaches-IsReserved m t r h in back ∙ Edge-IsReserved s m e (rw (← back) h)
