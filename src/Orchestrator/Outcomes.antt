-- ===== src/Orchestrator/Outcomes.antt =====
-- What a failed verification leaves on the disk: `deploy_config` of src/rollout/orchestrator.py.
use litellm_control_plane.Common.{
  suc, String, Option, none, some, ◌≡◌, refl, ◌∙◌, ap, Option-cases, inl, inr, eq_refl, select,
}
use litellm_control_plane.Common.Text.{concat}
use litellm_control_plane.Table.{by, update}
use litellm_control_plane.Table.Sort.{sort_desc}
use litellm_control_plane.Models.{RolloutStatus, Rollout}
use litellm_control_plane.Process.{assign}
use litellm_control_plane.World.{
  Db, World, returned, raised, runtime_error, pure, raise, or_else, ◌>>=◌, ◌>>◌, set_process,
  uuid_hex8, modify,
}
use litellm_control_plane.World.Runs.{bind_to, except_world, except_unit}
use litellm_control_plane.World.Quiet.{Quiet, Quiet-bind, Quiet-pure, quiet_rules}
use litellm_control_plane.Store.Statements.{insert_rollout}
use litellm_control_plane.Store.Rollouts.{
  create_rollout, update_rollout_status, get_latest_success_rollout, get_rollout, update_rollouts,
  with_rollout_status, head?, success_on,
}
use litellm_control_plane.Orchestrator.{Site, written, write_file}
use litellm_control_plane.Orchestrator.Deploy.{restore, restore_backup, roll_back}

create_rollout-Quiet :
    (id node version : String) (status : RolloutStatus) (content : String) (error : Option String)
    → Quiet (create_rollout id node version status content error)
unfolding create_rollout insert_rollout get_rollout
create_rollout-Quiet id node version status content error = search (quiet_rules) depth 20

update_rollout_status-Quiet :
    (id : String) (status : RolloutStatus) (error : Option String)
    → Quiet (update_rollout_status id status error)
unfolding update_rollout_status update_rollouts get_rollout
update_rollout_status-Quiet id status error = search (quiet_rules) depth 20

-- Every write succeeds.
pub record Writes (site : Site) : Type 0 where
  pub at : (w : World) (path content : String) → site.write_result w path content ≡ written

-- What a rollback leaves in the file: the content of the latest successful rollout, else the backup, else what is there.
abbrev pub restored : Option Rollout → (backup current : Option String) → Option String
restored (some prev) backup current = some prev.config_content
restored none (some content) current = some content
restored none none current = current

pub assign_same :
    (path content : String) (files : String → Option String)
    → assign path content files path ≡ some content
assign_same path content files = rw (eq_refl path) refl

-- The latest successful rollout of the node.
abbrev pub latest : String → Db → Option Rollout
latest node_id d = head? (sort_desc (λ r. r.timestamp) (select (success_on node_id) d.rollouts))

-- The rollout marked failed.
abbrev pub timed_out : String → Db → Db
timed_out rollout_id d = record d {
  rollouts =
      update (by (λ r. r.id) rollout_id)
        (with_rollout_status RolloutStatus.failed (some "Verification timed out.")) d.rollouts;
}

module _ (site : Site) (writes : Writes site) (path : String) where
  write_file-run :
      (content : String) (w : World)
      → write_file site path content w ≡ (
        returned tt,
        record w { process = record w.process { files = assign path content w.process.files } },
      )
  unfolding write_file ◌>>=◌ set_process
  write_file-run content w = rw (writes.at w path content) refl

  restore-files :
      (node_id rollout_id rollback_id : String) (prev : Rollout) (w : World)
      → let m = restore site node_id path rollout_id rollback_id prev w in
        (m.0 ≡ returned tt) × (m.1.process.files ≡ assign path prev.config_content w.process.files)
  unfolding restore
  restore-files node_id rollout_id rollback_id prev w =
      let rest : Quiet (
          create_rollout rollback_id node_id prev.config_version RolloutStatus.rolled_back
            prev.config_content (some (concat "Rolled back from failed rollout " rollout_id))
          >> pure {A = Unit {0}} tt) =
        Quiet-bind _ _ (create_rollout-Quiet _ _ _ _ _ _) λ u. Quiet-pure tt in
      (
        except_unit _ w,
        ap (λ v. v.process.files)
              (except_world _ tt w
                ∙ ap (λ m. m.1) (bind_to _ _ (write_file-run prev.config_content w)))
            ∙ ap (λ p. p.files) (rest.at _),
      )

  restore_backup-files :
      (backup : Option String) (w : World)
      → let m = restore_backup site path backup w in
        (m.0 ≡ returned tt) × (m.1.process.files path ≡ restored none backup (w.process.files path))
  unfolding restore_backup or_else pure
  restore_backup-files none w = (refl, refl)
  restore_backup-files (some content) w = (
    except_unit _ w,
    ap (λ v. v.process.files path) (except_world _ tt w ∙ ap (λ m. m.1) (write_file-run content w))
        ∙ assign_same path content w.process.files,
  )

  -- Where the disk takes every write, a rollback raises after it has put into the file the content
  -- of the latest successful rollout of the node, or else the backup. Where there is neither, the
  -- configuration that failed stays.
  pub roll_back-restored :
      (node_id rollout_id : String) (backup : Option String) (w : World)
      → let m = roll_back site node_id path rollout_id backup w in
        (m.0
          ≡ raised
              (runtime_error "Rollout verification failed. Node rolled back to previous state."))
        × (m.1.process.files path
            ≡ restored (latest node_id (timed_out rollout_id w.db)) backup (w.process.files path))
  unfolding roll_back update_rollout_status update_rollouts get_rollout modify uuid_hex8
      get_latest_success_rollout ◌>>=◌ raise or_else
  roll_back-restored node_id rollout_id backup w =
      let w' : World = record w { db = timed_out rollout_id w.db; draws = suc w.draws } in
      elim (Option-cases (latest node_id (timed_out rollout_id w.db))) [
        | inl nothing ↦
            let (done, files) = restore_backup-files backup w' in rw (nothing, done) (refl, files)
        | inr (prev, found) ↦
            let (done, files) =
              restore-files node_id rollout_id (concat "roll-back-" (w.uuids w.draws)) prev w' in
            rw (found, done)
              (refl, ap (λ f. f path) files ∙ assign_same path prev.config_content w.process.files)
      ]
