-- ===== src/System.antt =====
-- The API and the workers over the state that they share: a step is a request, what a worker does
-- with a message, or the passing of time. Requests and hooks are taken one after the other.
pub mod Effects
pub mod Changes
pub mod Runs
pub mod Requests
pub mod Hooks
pub mod Invariant
pub mod Delivery
pub mod Answered
pub mod Lifecycle
pub mod Posts
pub mod Taken
use automated_actions.Prelude.{ℕ, ◌≤◌, String, ◌≡◌, Bool, Option, List, [], ◌∷◌, ◌++◌}
use automated_actions.Errors.{Exc}
use automated_actions.Exec.{Exec, Result}
use automated_actions.Db.Schema.{ActionStatus, ActionSchemaOut}
use automated_actions.Db.World.{Database, World, Message}
use automated_actions.Auth.Request.{Request}
use automated_actions.Api.{Server}
use automated_actions.Api.General.{
  CreateTokenParam, get_actions, get_action_detail, post_action_cancel, post_no_op, get_me,
  post_admin_token,
}
use automated_actions.Api.Openshift.{
  post_openshift_workload_restart, post_openshift_workload_delete, post_openshift_trigger_cronjob,
}
use automated_actions.Api.ExternalResource.{
  post_external_resource_rds_reboot, post_external_resource_rds_start,
  post_external_resource_rds_stop, post_external_resource_rds_snapshot,
  post_external_resource_flush_elasticache,
}
use automated_actions.Worker.Task.{before_start, on_success, on_failure, on_retry}

-- The messages that workers have taken stay at hand: the broker may deliver one again. It delivers
-- those that wait in any order.
pub record State (D : Database) : Type 0 where
  pub world : World D
  pub in_flight : List Message

pub data Among (m : Message) : List Message → Type 0 where
  here : {ms : List Message} → Among m (m ∷ ms)
  there : {n : Message} {ms : List Message} → Among m ms → Among m (n ∷ ms)

module _ (D : Database) where
  -- The hooks that a worker runs for a message, by what came of the task.
  pub data Hooked (m : Message) : (World D → World D) → Type 0 where
    starts : Hooked m (λ w. (before_start D m.action w).1)
    succeeds : Hooked m (λ w. (on_success D m.action m.kwargs w).1)
    fails : (e : Exc) → Hooked m (λ w. (on_failure D e m.action m.kwargs w).1)
    retries : Hooked m (λ w. (on_retry D m.action w).1)

module _ (D : Database) (server : Server D) where
  -- The endpoints that submit an action.
  pub data IsPost : (Request → Exec (World D) Exc ActionSchemaOut) → Type 0 where
    is_no_op : IsPost (post_no_op D server)
    is_workload_restart : IsPost (post_openshift_workload_restart D server)
    is_workload_delete : IsPost (post_openshift_workload_delete D server)
    is_trigger_cronjob : IsPost (post_openshift_trigger_cronjob D server)
    is_rds_reboot :
        (read_bool : String → Result Exc Bool)
        → IsPost (post_external_resource_rds_reboot D server read_bool)
    is_rds_start : IsPost (post_external_resource_rds_start D server)
    is_rds_stop : IsPost (post_external_resource_rds_stop D server)
    is_rds_snapshot : IsPost (post_external_resource_rds_snapshot D server)
    is_flush : IsPost (post_external_resource_flush_elasticache D server)

  -- The requests that answer and change no action.
  pub data IsRead : (World D → World D) → Type 0 where
    lists :
        (status : Option ActionStatus) (action_user : Option String) (max_age : Option ℕ)
        (request : Request)
        → IsRead (λ w. (get_actions D server status action_user max_age request w).1)
    shows :
        (action_id : String) (request : Request)
        → IsRead (λ w. (get_action_detail D server action_id request w).1)
    shows_me : (request : Request) → IsRead (λ w. (get_me D server request w).1)
    creates_token :
        (param : CreateTokenParam) (request : Request)
        → IsRead (λ w. (post_admin_token D server param request w).1)

  pub data Step : State D → State D → Type 0 where
    posts :
        {post : Request → Exec (World D) Exc ActionSchemaOut} {s : State D}
        → IsPost post
        → (request : Request) → Step s (record s { world = (post request s.world).1 })
    reads :
        {read : World D → World D} {s : State D}
        → IsRead read
        → Step s (record s { world = read s.world })
    cancels :
        {s : State D} (action_id : String) (request : Request)
        → Step s (record s { world = (post_action_cancel D server action_id request s.world).1 })
    takes :
        {s : State D} (m : Message) (front rest : List Message)
        → s.world.queue ≡ front ++ m ∷ rest
        → Step s (record {
          world = record s.world { queue = front ++ rest };
          in_flight = m ∷ s.in_flight;
        })
    works :
        {m : Message} {hook : World D → World D} {s : State D}
        → Among m s.in_flight
        → Hooked D m hook
        → Step s (record s { world = hook s.world })
    waits :
        {s : State D} (later : ℕ)
        → s.world.clock ≤ later
        → Step s (record s { world = record s.world { clock = later } })

  -- Some number of steps.
  pub data Steps : State D → State D → Type 0 where
    no_steps : {s : State D} → Steps s s
    one_step : {s t u : State D} → Step s t → Steps t u → Steps s u
