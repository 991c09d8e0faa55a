-- ===== src/System/Posts.antt =====
-- What the requests of the system have in common: those for an action are all `post_action` with an
-- endpoint that submits its task, and those that read leave the actions and the queue alone.
use automated_actions.Prelude.{String, ◌≡◌, refl}
use automated_actions.Dict.{Dict}
use automated_actions.Errors.{Exc}
use automated_actions.Exec.{Exec, Result}
use automated_actions.Exec.Keeps.{Preserves, preserves_rules}
use automated_actions.Db.Schema.{Action, ActionSchemaOut, Arg, TaskName}
use automated_actions.Db.World.{Database, World}
use automated_actions.Auth.Untouched.{work}
use automated_actions.Auth.Request.{Request}
use automated_actions.Api.{Server, submit, post_action}
use automated_actions.Api.Submit.{authorized_user-Preserves}
use automated_actions.Api.General.{
  get_actions, get_action_detail, get_me, post_admin_token, no_op_endpoint,
}
use automated_actions.Api.Openshift.{
  openshift_workload_restart_endpoint, openshift_workload_delete_endpoint,
  openshift_trigger_cronjob_endpoint,
}
use automated_actions.Api.ExternalResource.{
  external_resource_rds_reboot_endpoint, external_resource_rds_start_endpoint,
  external_resource_rds_stop_endpoint, external_resource_rds_snapshot_endpoint,
  external_resource_flush_elasticache_endpoint,
}
use automated_actions.System.{
  IsPost, is_no_op, is_workload_restart, is_workload_delete, is_trigger_cronjob, is_rds_reboot,
  is_rds_start, is_rds_stop, is_rds_snapshot, is_flush, IsRead, lists, shows, shows_me,
  creates_token,
}
use automated_actions.System.Requests.{found_action}

module _ (D : Database) (server : Server D) where
  -- What holds of every endpoint that submits a task for its new action, holds of all endpoints.
  pub IsPost-elim :
      (P : (Request → Exec (World D) Exc ActionSchemaOut) → Type 0)
      → ((Args : Type 0) (name : String) (read_args : Request → Result Exc Args)
            (endpoint : Args → Action → Exec (World D) Exc ActionSchemaOut)
          → ((args : Args) (action : Action)
              → (task : TaskName) × (kwargs : Dict Arg) × (endpoint args action
                  ≡ submit D task kwargs action))
          → P (post_action D server name read_args endpoint))
      → {post : Request → Exec (World D) Exc ActionSchemaOut} → IsPost D server post
      → P post
  unfolding no_op_endpoint openshift_workload_restart_endpoint openshift_workload_delete_endpoint
      openshift_trigger_cronjob_endpoint external_resource_rds_reboot_endpoint
      external_resource_rds_start_endpoint external_resource_rds_stop_endpoint
      external_resource_rds_snapshot_endpoint external_resource_flush_elasticache_endpoint
  IsPost-elim P f is_no_op = f _ _ _ _ λ args action. (_, _, refl)
  IsPost-elim P f is_workload_restart = f _ _ _ _ λ args action. (_, _, refl)
  IsPost-elim P f is_workload_delete = f _ _ _ _ λ args action. (_, _, refl)
  IsPost-elim P f is_trigger_cronjob = f _ _ _ _ λ args action. (_, _, refl)
  IsPost-elim P f (is_rds_reboot read_bool) = f _ _ _ _ λ args action. (_, _, refl)
  IsPost-elim P f is_rds_start = f _ _ _ _ λ args action. (_, _, refl)
  IsPost-elim P f is_rds_stop = f _ _ _ _ λ args action. (_, _, refl)
  IsPost-elim P f is_rds_snapshot = f _ _ _ _ λ args action. (_, _, refl)
  IsPost-elim P f is_flush = f _ _ _ _ λ args action. (_, _, refl)

  kept :
      {A : Type 0} (m : Exec (World D) Exc A) (w : World D)
      → Preserves (work D) m
      → work D (m w).1 ≡ work D w
  kept m w p = p.at w

  pub IsRead-work :
      {read : World D → World D} (w : World D) → IsRead D server read → work D (read w) ≡ work D w
  IsRead-work w (lists status action_user max_age request) =
      kept (get_actions D server status action_user max_age request) w
        (search (preserves_rules, authorized_user-Preserves))
  IsRead-work w (shows action_id request) =
      kept (get_action_detail D server action_id request) w (search (preserves_rules, found_action))
  IsRead-work w (shows_me request) =
      kept (get_me D server request) w (search (preserves_rules, authorized_user-Preserves))
  IsRead-work w (creates_token param request) =
      kept (post_admin_token D server param request) w
        (search (preserves_rules, authorized_user-Preserves))
