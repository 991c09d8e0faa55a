-- ===== src/Db/World.antt =====
-- The state that the API and the workers share: the two tables, the broker's queue, the clock and
-- the number of identifiers drawn so far. The tables and `uuid.uuid4` are parameters.
use automated_actions.Prelude.{ℕ, String, List}
use automated_actions.Dict.{Dict}
use automated_actions.Db.Dynamo.{Dynamo}
use automated_actions.Db.Schema.{Action, action_key, User, user_key, Arg, TaskName}

-- What `apply_async` hands to the broker: the task, its keyword arguments, the copy of the Action
-- object that is pickled with them, and the task's identifier.
pub record Message : Type 0 where
  pub task : TaskName
  pub kwargs : Dict Arg
  pub action : Action
  pub task_id : String

pub record Database : Type 1 where
  pub action_table : Dynamo Action action_key
  pub user_table : Dynamo User user_key
  -- the identifier of each draw
  pub uuid4 : ℕ → String

pub record World (D : Database) : Type 0 where
  pub actions : D.action_table.Rows
  pub users : D.user_table.Rows
  pub queue : List Message
  pub clock : ℕ
  pub drawn : ℕ
