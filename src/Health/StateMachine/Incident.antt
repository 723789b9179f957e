-- ===== src/Health/StateMachine/Incident.antt =====
-- `create_incident` of src/registry/store.py, where its id is new.
use litellm_control_plane.Common.{String, Option, some, [], ◌∷◌, ◌++◌, ◌≡◌, refl}
use litellm_control_plane.Table.{by, first, has}
use litellm_control_plane.Table.Laws.{first-insert}
use litellm_control_plane.Models.{Status, Incident}
use litellm_control_plane.World.{World, returned, ◌>>=◌, statement, utc_now, uuid_hex8}
use litellm_control_plane.Store.Statements.{insert_incident}
use litellm_control_plane.Store.Incidents.{create_incident}
use litellm_control_plane.Health.StateMachine.Vocabulary.{
  FreshId, next_incident_id, incident_at, with_incident,
}

pub create_incident_lem :
    (w : World) (target_type target_id : String) (from to : Status) (reason raw : Option String)
    → FreshId w
    → create_incident target_type target_id from to reason raw w ≡ (
      returned (incident_at w target_type target_id from to reason raw),
      with_incident (incident_at w target_type target_id from to reason raw) w,
    )
unfolding create_incident insert_incident statement ◌>>=◌ utc_now uuid_hex8 has
create_incident_lem w target_type target_id from to reason raw fresh = rw fresh (rw found refl)
  where
    i : Incident
    i = incident_at w target_type target_id from to reason raw

    found : first (by (λ i. i.id) (next_incident_id w)) (w.incidents ++ i ∷ []) ≡ some i
    found = first-insert (λ i. i.id) i w.incidents fresh
