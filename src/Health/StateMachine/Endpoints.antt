-- ===== src/Health/StateMachine/Endpoints.antt =====
-- What a transition of an endpoint writes, on every branch.
use litellm_control_plane.Common.{
  ℕ, suc, ◌+◌, String, true, false, Option, none, some, ◌≡◌, refl, Bool-cases, inl, inr,
}
use litellm_control_plane.Table.{by, first, update}
use litellm_control_plane.Table.Laws.{first-update}
use litellm_control_plane.Models.{Status, Override, Endpoint, Incident, Changes, Dump}
use litellm_control_plane.World.{World, returned, ◌>>=◌, modify, utc_now}
use litellm_control_plane.Audit.{insert_audit, log_audit, entry_at, with_entry}
use litellm_control_plane.Store.Endpoints.{
  get_endpoint, update_endpoints, write_endpoint_status, update_endpoint_status,
  in_endpoint_cooldown, set_endpoint_cooldown,
}
use litellm_control_plane.Health.StateMachine.{
  status_eq, is_cooldown, cooldown_duration, write_endpoint_state, transition_endpoint_state,
}
use litellm_control_plane.Health.StateMachine.Vocabulary.{
  endpoint_of, FreshId, incident_at, with_incident, moved_endpoint, clocked, readings_at,
}
use litellm_control_plane.Health.StateMachine.Incident.{create_incident_lem}

write_endpoint_status-id :
    (status : Status) (override : Override) (e : Endpoint)
    → (write_endpoint_status status override e).id ≡ e.id
unfolding write_endpoint_status
write_endpoint_status-id Status.active override e = refl
write_endpoint_status-id _ override e = refl

abbrev pub rows_written : String → (Endpoint → Endpoint) → World → World
rows_written id f w = record w {
  db = record w.db { endpoints = update (by (λ ep. ep.id) id) f w.endpoints };
}

-- The world after the writes of a transition of the endpoint `a`.
abbrev pub endpoint_written : String → Status → String → Option String → Endpoint → World → World
endpoint_written id next actor reason ep w =
    let moved = moved_endpoint next (w.clock w.readings) ep in
    with_entry
      (entry_at (clocked next w) actor "update_status" "endpoint" id
        (Changes.diff (Dump.endpoint ep) (Dump.endpoint (moved ep))) reason)
      (rows_written id moved (clocked next w))

module _ (id : String) (w : World) (ep : Endpoint) (found : endpoint_of id w.db ≡ some ep) where
  -- A write that keeps the id is read back.
  pub endpoint_of-update :
      (f : Endpoint → Endpoint)
      → ((x : Endpoint) → (f x).id ≡ x.id)
      → first (by (λ ep. ep.id) id) (update (by (λ ep. ep.id) id) f w.endpoints) ≡ some (f ep)
  endpoint_of-update f keep =
      first-update (by (λ ep. ep.id) id) f ep w.endpoints (λ x. unfold by in rw (keep x)) found

  update_endpoint_status_lem :
      (status : Status) (actor : String) (reason : Option String)
      → update_endpoint_status id (some status) none actor reason w ≡ (
        returned (some (write_endpoint_status status ep.manual_override ep)),
        with_entry
            (entry_at w actor "update_status" "endpoint" id
              (Changes.diff
                (Dump.endpoint ep)
                (Dump.endpoint (write_endpoint_status status ep.manual_override ep)))
              reason)
            (rows_written id (write_endpoint_status status ep.manual_override) w),
      )
  unfolding update_endpoint_status get_endpoint update_endpoints ◌>>=◌ modify log_audit insert_audit
      utc_now
  update_endpoint_status_lem status actor reason = rw found (
      rw
        (endpoint_of-update (write_endpoint_status status ep.manual_override)
          (write_endpoint_status-id status ep.manual_override))
        refl)

  set_endpoint_cooldown_lem :
      (until : ℕ) (actor : String) (reason : Option String)
      → set_endpoint_cooldown id until actor reason w ≡ (
        returned (some (in_endpoint_cooldown until ep)),
        with_entry
            (entry_at w actor "update_status" "endpoint" id
              (Changes.diff (Dump.endpoint ep) (Dump.endpoint (in_endpoint_cooldown until ep)))
              reason)
            (rows_written id (in_endpoint_cooldown until) w),
      )
  unfolding set_endpoint_cooldown get_endpoint update_endpoints ◌>>=◌ modify log_audit insert_audit
      utc_now
  set_endpoint_cooldown_lem until actor reason = rw found (
      rw
        (endpoint_of-update (in_endpoint_cooldown until) (λ x. unfold in_endpoint_cooldown in refl))
        refl)

module _ (id : String) (w : World) (ep : Endpoint) (found : endpoint_of id w.db ≡ some ep) where
  write_endpoint_state_lem :
      (next : Status) (actor : String) (reason : Option String)
      → write_endpoint_state id next actor reason w ≡ (
        returned (some (moved_endpoint next (w.clock w.readings) ep ep)),
        endpoint_written id next actor reason ep w,
      )
  unfolding write_endpoint_state moved_endpoint readings_at get_endpoint ◌>>=◌ utc_now
  write_endpoint_state_lem next actor reason = elim (Bool-cases (is_cooldown next)) [
    | inl cold ↦
        let later : World = record w { readings = suc w.readings } in
        let until : ℕ = w.clock w.readings + cooldown_duration in
        rw (cold, moved_endpoint)
          (rw (set_endpoint_cooldown_lem id later ep found until actor reason) (
            rw
              (endpoint_of-update id later ep found (in_endpoint_cooldown until)
                (λ x. unfold in_endpoint_cooldown in refl))
              refl))
    | inr warm ↦
        rw (warm, moved_endpoint) (update_endpoint_status_lem id w ep found next actor reason)
  ]

-- The world after a transition of the endpoint `a` to another state: the incident, the row and the
-- audit entry.
abbrev pub endpoint_moved :
    String → Status → String → (reason raw : Option String) → Endpoint → World → World
endpoint_moved id next actor reason raw ep w =
    endpoint_written id next actor reason ep
      (with_incident (incident_at w "endpoint" id ep.status next reason raw) w)

pub transition_endpoint_lem :
    (id : String) (w : World) (ep : Endpoint)
    → endpoint_of id w.db ≡ some ep
    → (next : Status) (actor : String) (reason raw : Option String)
    → status_eq ep.status next ≡ false
    → FreshId w
    → transition_endpoint_state id next actor reason raw w ≡ (
      returned (some (moved_endpoint next (w.clock (suc w.readings)) ep ep)),
      endpoint_moved id next actor reason raw ep w,
    )
unfolding transition_endpoint_state get_endpoint ◌>>=◌
transition_endpoint_lem id w ep found next actor reason raw other fresh =
    let i : Incident = incident_at w "endpoint" id ep.status next reason raw in
    rw found (
      rw other (
        rw (create_incident_lem w "endpoint" id ep.status next reason raw fresh)
          (write_endpoint_state_lem id (with_incident i w) ep found next actor reason)))

pub transition_endpoint-same :
    (id : String) (w : World) (ep : Endpoint)
    → endpoint_of id w.db ≡ some ep
    → (next : Status) (actor : String) (reason raw : Option String)
    → status_eq ep.status next ≡ true
    → transition_endpoint_state id next actor reason raw w ≡ (returned (some ep), w)
unfolding transition_endpoint_state get_endpoint ◌>>=◌
transition_endpoint-same id w ep found next actor reason raw same = rw found (rw same refl)

pub transition_endpoint-missing :
    (id : String) (w : World)
    → endpoint_of id w.db ≡ none
    → (next : Status) (actor : String) (reason raw : Option String)
    → transition_endpoint_state id next actor reason raw w ≡ (returned none, w)
unfolding transition_endpoint_state get_endpoint ◌>>=◌
transition_endpoint-missing id w missing next actor reason raw = rw missing refl
