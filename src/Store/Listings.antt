-- ===== src/Store/Listings.antt =====
-- What the sorted listings of src/registry/store.py return.
use litellm_control_plane.Common.{ℕ, none, List, ◌++◌, map, select}
use litellm_control_plane.Table.Sort.{IsNewest}
use litellm_control_plane.Models.{Incident, AuditEntry, Rollout}
use litellm_control_plane.World.{World}
use litellm_control_plane.Store.Incidents.{incident_wanted}
use litellm_control_plane.Store.Timeline.{Event, audit_event, incident_event, rollout_event}

-- The parts of a timeline.
pub record IsTimeline (limit : ℕ) (w : World) (events : List Event) : Type 0 where
  pub logs : List AuditEntry
  pub newest_logs : IsNewest (λ a. a.id) limit w.audit_logs logs
  pub incidents : List Incident
  pub newest_incidents :
      IsNewest
        (λ i. i.timestamp)
        limit
        (select (incident_wanted none none none) w.incidents)
        incidents
  pub rollouts : List Rollout
  pub newest_rollouts : IsNewest (λ r. r.timestamp) limit w.rollouts rollouts
  pub newest_events :
      IsNewest
        (λ e. e.timestamp)
        limit
        ((map audit_event logs ++ map incident_event incidents) ++ map rollout_event rollouts)
        events
