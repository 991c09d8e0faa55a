-- ===== src/Db/Schema.antt =====
-- packages/automated_actions/automated_actions/db/models/_action.py, _user.py: the attributes of
-- the two tables, their schemas and the values of task arguments.
use automated_actions.Prelude.{ℕ, String, Bool, true, false, Option, none, some, List, []}
use automated_actions.Dict.{Dict, without}

pub data ActionStatus : Type 0 where
  pending running success failure cancelled : ActionStatus

-- `a == b` on the enumeration
unfoldable pub status_eq : ActionStatus → ActionStatus → Bool
status_eq pending pending = true
status_eq running running = true
status_eq success success = true
status_eq failure failure = true
status_eq cancelled cancelled = true
status_eq _ _ = false

-- The values of a task's keyword arguments: strings, flags, and an Action object, by its identifier.
pub data Arg : Type 0 where
  text : String → Arg
  flag : Bool → Arg
  object : String → Arg

-- The Celery tasks of the worker.
pub data TaskName : Type 0 where
  no_op openshift_workload_restart openshift_workload_delete openshift_trigger_cronjob : TaskName
  external_resource_rds_reboot external_resource_rds_start external_resource_rds_stop : TaskName
  external_resource_rds_snapshot external_resource_flush_elasticache : TaskName

-- Times are numbers of microseconds, the resolution of `datetime`.
pub record Action : Type 0 where
  pub action_id : String
  pub name : String
  pub owner : String
  pub status : ActionStatus
  pub result : Option String
  pub task_args : Option (Dict Arg)
  pub created_at : ℕ
  pub updated_at : ℕ

abbrev pub action_key : Action → String
action_key a = a.action_id

pub record ActionSchemaIn : Type 0 where
  pub name : String
  pub owner : String
  pub status : ActionStatus

pub record ActionSchemaOut : Type 0 where
  pub name : String
  pub owner : String
  pub status : ActionStatus
  pub action_id : String
  pub result : Option String
  pub task_args : Option (Dict Arg)
  pub created_at : ℕ
  pub updated_at : ℕ

-- `ActionSchemaOut.compile_task_args` on the "task_args" item of its input, which may be absent,
-- be None, or hold the attributes of a dynamic map.
unfoldable pub compile_task_args : Option (Option (Dict Arg)) → Option (Dict Arg)
compile_task_args none = none
compile_task_args (some none) = some []
compile_task_args (some (some args)) = some (without "attribute_values" args)

pub record User : Type 0 where
  pub email : String
  pub name : String
  pub username : String
  pub allowed_actions : List String
  pub created_at : ℕ
  pub updated_at : ℕ

abbrev pub user_key : User → String
user_key u = u.email

pub record UserSchemaIn : Type 0 where
  pub name : String
  pub username : String
  pub email : String

pub record UserSchemaOut : Type 0 where
  pub name : String
  pub username : String
  pub email : String
  pub created_at : ℕ
  pub updated_at : ℕ
  pub allowed_actions : List String
