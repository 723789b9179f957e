-- ===== src/Health/StateMachine/EndpointSteps.antt =====
-- A transition of an endpoint, as a step of the endpoint and of the incidents.
use litellm_control_plane.Common.{
  ℕ, suc, String, true, false, Option, some, List, ◌++◌, ◌≡◌, ◌≢◌, refl, arith, sym, Bool-cases,
  inl, inr, if◌then◌else◌, eq_iff,
}
use mathlib.Core.List.{append-nil}
use litellm_control_plane.Table.{by, first, update}
use litellm_control_plane.Table.Laws.{first-update_other}
use litellm_control_plane.Models.{Status, Endpoint}
use litellm_control_plane.World.{World, returned}
use litellm_control_plane.Store.Endpoints.{write_endpoint_status, in_endpoint_cooldown}
use litellm_control_plane.Health.StateMachine.{status_eq, transition_endpoint_state}
use litellm_control_plane.Health.StateMachine.Signals.{
  incidents_of, status_eq_refl, status_eq_sound,
}
use litellm_control_plane.Health.StateMachine.Vocabulary.{endpoint_of, FreshId, moved_endpoint}
use litellm_control_plane.Health.StateMachine.Endpoints.{
  endpoint_of-update, transition_endpoint_lem, transition_endpoint-same, endpoint_moved,
}

-- The endpoint after a transition that the state machine asks for.
unfoldable pub to_endpoint_state : Status → ℕ → Endpoint → Endpoint
to_endpoint_state next now ep =
    if status_eq ep.status next then ep else moved_endpoint next now ep ep

-- A step that takes the endpoint `a`, whose id is `id`, to `a'`: it is the row that is read, the
-- other endpoints and the endpoints are as before, and an incident tells of a change of state.
pub record EndpointStep (id : String) (reason raw : Option String) (w : World) (ep ep' : Endpoint)
    (after : World) : Type 0 where
  pub moved : endpoint_of id after.db ≡ some ep'
  pub others : (j : String) → j ≢ id → endpoint_of j after.db ≡ endpoint_of j w.db
  pub accounts_kept : after.accounts ≡ w.accounts
  pub recorded :
      after.incidents ≡ w.incidents ++ incidents_of w "endpoint" id ep.status ep'.status reason raw

pub moved_endpoint-status :
    (next : Status) (now : ℕ) (ep : Endpoint) → (moved_endpoint next now ep ep).status ≡ next
unfolding moved_endpoint write_endpoint_status in_endpoint_cooldown
moved_endpoint-status Status.active now ep = refl
moved_endpoint-status Status.inactive now ep = refl
moved_endpoint-status Status.cooldown now ep = refl
moved_endpoint-status Status.disabled now ep = refl
moved_endpoint-status Status.degraded now ep = refl
moved_endpoint-status Status.probe now ep = refl
moved_endpoint-status Status.recovered now ep = refl

pub moved_endpoint-id :
    (next : Status) (now : ℕ) (b ep : Endpoint) → (moved_endpoint next now b ep).id ≡ ep.id
unfolding moved_endpoint write_endpoint_status in_endpoint_cooldown
moved_endpoint-id Status.active now b ep = refl
moved_endpoint-id Status.inactive now b ep = refl
moved_endpoint-id Status.cooldown now b ep = refl
moved_endpoint-id Status.disabled now b ep = refl
moved_endpoint-id Status.degraded now b ep = refl
moved_endpoint-id Status.probe now b ep = refl
moved_endpoint-id Status.recovered now b ep = refl

id_other :
    (id j : String) (f : Endpoint → Endpoint) (x : Endpoint)
    → (f x).id ≡ x.id
    → j ≢ id
    → by (λ ep. ep.id) id x ≡ true
    → (by (λ ep. ep.id) j x ≡ false) × (by (λ ep. ep.id) j (f x) ≡ false)
unfolding by
id_other id j f x keep other at = (
  ground (arith, eq_iff x.id id, eq_iff x.id j),
  rw keep (ground (arith, eq_iff x.id id, eq_iff x.id j)),
)

-- An update of one endpoint is no update of another.
pub update-others :
    (id j : String) (f : Endpoint → Endpoint) (rows : List Endpoint)
    → ((x : Endpoint) → (f x).id ≡ x.id)
    → j ≢ id
    → first (by (λ ep. ep.id) j) (update (by (λ ep. ep.id) id) f rows)
      ≡ first (by (λ ep. ep.id) j) rows
update-others id j f rows keep other =
    first-update_other _ _ f rows λ x at. id_other id j f x (keep x) other at

pub same_step :
    (id : String) (w : World) (ep : Endpoint)
    → endpoint_of id w.db ≡ some ep
    → (reason raw : Option String) → EndpointStep id reason raw w ep ep w
same_step id w ep found reason raw = record {
  moved = found;
  others = λ j other. refl;
  accounts_kept = refl;
  recorded = rw (status_eq_refl ep.status) (sym (append-nil w.incidents));
}

moved_step :
    (id : String) (w : World) (ep : Endpoint)
    → endpoint_of id w.db ≡ some ep
    → (next : Status) (actor : String) (reason raw : Option String)
    → status_eq ep.status next ≡ false
    → EndpointStep id reason raw w ep
        (moved_endpoint next (w.clock (suc w.readings)) ep ep)
        (endpoint_moved id next actor reason raw ep w)
moved_step id w ep found next actor reason raw other =
    let now : ℕ = w.clock (suc w.readings) in
    record {
      moved =
          endpoint_of-update id w ep found (moved_endpoint next now ep)
            (moved_endpoint-id next now ep);
      others = λ j ne.
          update-others id j (moved_endpoint next now ep) w.endpoints
            (moved_endpoint-id next now ep) ne;
      accounts_kept = refl;
      recorded = rw (moved_endpoint-status next now ep) (rw other refl);
    }

pub to_endpoint_state-status :
    (next : Status) (now : ℕ) (ep : Endpoint) → (to_endpoint_state next now ep).status ≡ next
unfolding to_endpoint_state
to_endpoint_state-status next now ep = elim (Bool-cases (status_eq ep.status next)) [
  | inl same ↦ rw same (status_eq_sound ep.status next same)
  | inr different ↦ rw different (moved_endpoint-status next now ep)
]

pub transition_endpoint-step :
    (id : String) (w : World) (ep : Endpoint)
    → endpoint_of id w.db ≡ some ep
    → (next : Status) (actor : String) (reason raw : Option String) → FreshId w
    → (after : World) × ((transition_endpoint_state id next actor reason raw w
          ≡ (returned (some (to_endpoint_state next (w.clock (suc w.readings)) ep)), after))
        × EndpointStep id reason raw w ep
            (to_endpoint_state next (w.clock (suc w.readings)) ep)
            after)
unfolding to_endpoint_state
transition_endpoint-step id w ep found next actor reason raw fresh =
    elim (Bool-cases (status_eq ep.status next)) [
      | inl same ↦ rw same (
        w,
        (
          transition_endpoint-same id w ep found next actor reason raw same,
          same_step id w ep found reason raw,
        ),
      )
      | inr other ↦ rw other (
        endpoint_moved id next actor reason raw ep w,
        (
          transition_endpoint_lem id w ep found next actor reason raw other fresh,
          moved_step id w ep found next actor reason raw other,
        ),
      )
    ]
