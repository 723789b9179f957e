-- ===== src/Orchestrator/Recorded.antt =====
-- The rollouts that `deploy_config` of src/rollout/orchestrator.py puts on record.
use litellm_control_plane.Common.{String, Option, some, ◌≡◌, refl, Bool-cases, inl, inr}
use litellm_control_plane.Table.{by, first, has, update}
use litellm_control_plane.Table.Laws.{first-insert, first-update}
use litellm_control_plane.Models.{RolloutStatus, Rollout}
use litellm_control_plane.World.{Db, World, returned, ◌>>=◌, utc_now, gets, statement}
use litellm_control_plane.World.Runs.{raised-returned}
use litellm_control_plane.Store.Statements.{insert_rollout}
use litellm_control_plane.Store.Rollouts.{create_rollout, get_rollout, with_rollout_status}

-- The rollout `id` is on record with the status and the content.
pub record Recorded (id content : String) (status : RolloutStatus) (d : Db) : Type 0 where
  pub row : Rollout
  pub found : first (by (λ r. r.id) id) d.rollouts ≡ some row
  pub status_is : row.status ≡ status
  pub content_is : row.config_content ≡ content

-- The database, the process and the clock after an action.
pub record Records (id content : String) (status : RolloutStatus) (w w' : World) : Type 0 where
  pub recorded : Recorded id content status w'.db
  pub process_kept : w'.process ≡ w.process
  pub clock_kept : w'.clock ≡ w.clock

pub create_rollout-Records :
    (id node version : String) (status : RolloutStatus) (content : String) (error : Option String)
    (r : Rollout) (w : World)
    → (create_rollout id node version status content error w).0 ≡ returned r
    → Records id content status w (create_rollout id node version status content error w).1
unfolding create_rollout insert_rollout get_rollout utc_now gets statement ◌>>=◌ has
create_rollout-Records id node version status content error r w =
    elim (Bool-cases (has (λ s. s.id) id w.rollouts)) [
      | inl taken ↦ rw taken λ h. raised-returned h
      | inr fresh ↦ elim (Bool-cases (has (λ n. n.id) node w.nodes)) [
        | inl known ↦
            let row : Rollout = record {
              id = id;
              node_id = node;
              config_version = version;
              status = status;
              config_content = content;
              error_message = error;
              timestamp = w.clock w.readings;
            } in
            let found = first-insert (λ r. r.id) row w.rollouts fresh in
            rw (fresh, known, found)
              λ h. record {
                recorded = record { row = row; found = found; status_is = refl; content_is = refl };
                process_kept = refl;
                clock_kept = refl;
              }
        | inr unknown ↦ rw (fresh, unknown) λ h. raised-returned h
      ]
    ]

-- The world after `update_rollout_status`.
abbrev pub with_status : String → RolloutStatus → Option String → World → World
with_status id status error w = record w {
  db = record w.db {
    rollouts = update (by (λ r. r.id) id) (with_rollout_status status error) w.rollouts;
  };
}

pub with_status-Recorded :
    (id content : String) (old new : RolloutStatus) (error : Option String) (w : World)
    → Recorded id content old w.db
    → Recorded id content new (with_status id new error w).db
unfolding with_rollout_status by
with_status-Recorded id content old new error w r = record {
  row = with_rollout_status new error r.row;
  found =
      first-update (by (λ r. r.id) id) (with_rollout_status new error) r.row w.rollouts (λ x. refl)
        r.found;
  status_is = refl;
  content_is = r.content_is;
}
