-- ===== src/Db/Actions.antt =====
-- packages/automated_actions/automated_actions/db/models/_action.py: the methods of Action and of
-- ActionManager. A method that changes the object returns the object that it leaves.
pub mod Laws
pub mod Owned
use automated_actions.Prelude.{
  ℕ, String, ◌+◌, ◌-◌, ◌*◌, ◌/◌, Bool, Option, none, some, List, [], ◌∷◌, ◌==◌, leb,
}
use automated_actions.Dict.{Dict}
use automated_actions.Errors.{Exc}
use automated_actions.Exec.{Exec, Result, ok, err, ◌>>=◌}
use automated_actions.Db.Dynamo.{Dynamo}
use automated_actions.Db.Table
use automated_actions.Db.Schema.{
  Action, ActionStatus, pending, status_eq, Arg, ActionSchemaIn, ActionSchemaOut, compile_task_args,
  action_key,
}
use automated_actions.Db.World.{Database, World}

-- The update actions `Action.<attribute>.set(value)`.
abbrev pub put_status : ActionStatus → Action → Action
put_status s a = record a { status = s }

abbrev pub put_result : String → Action → Action
put_result r a = record a { result = some r }

abbrev pub put_task_args : Dict Arg → Action → Action
put_task_args args a = record a { task_args = some args }

abbrev pub put_updated_at : ℕ → Action → Action
put_updated_at now a = record a { updated_at = now }

-- Microseconds in a second.
abbrev pub second : ℕ
second = 1000000

-- `Action.dump`: an attribute that is not set is left out.
unfoldable pub dump : Action → ActionSchemaOut
unfolding compile_task_args
dump a = record {
  name = a.name;
  owner = a.owner;
  status = a.status;
  action_id = a.action_id;
  result = a.result;
  task_args = compile_task_args (elim a.task_args [ none ↦ none | some args ↦ some (some args) ]);
  created_at = a.created_at;
  updated_at = a.updated_at;
}

-- `cls.updated_at >= int(now - max_age)`, the age being in seconds. A time before the epoch is 0.
unfoldable pub is_recent : ℕ → ℕ → Action → Bool
is_recent now max_age a = leb ((now - max_age * second) / second * second) a.updated_at

-- The new item of `Action._pre_create` for the given time and draw.
unfoldable pub new_action : ActionSchemaIn → ℕ → String → Action
new_action item now id = record {
  action_id = id;
  name = item.name;
  owner = item.owner;
  status = item.status;
  result = none;
  task_args = none;
  created_at = now;
  updated_at = now;
}

module _ (D : Database) where
  open D use {action_table, uuid4}

  abbrev pub stored : World D → String → Option Action
  stored w k = D.action_table.get w.actions k

  -- `ActionManager.get_or_404`
  unfoldable pub get_or_404 : String → Exec (World D) Exc Action
  unfolding Table.get_or_404
  get_or_404 pk w = (Table.get_or_404 action_table w.actions pk, w)

  -- `Action.create`
  unfoldable pub create : ActionSchemaIn → Exec (World D) Exc Action
  unfolding new_action Table.create
  create item w =
      let (a, rows) =
        Table.create action_table (new_action item w.clock (uuid4 w.drawn)) w.actions in
      (ok a, record w { actions = rows; drawn = w.drawn + 1 })

  -- `ActionManager.create_action`
  unfoldable pub create_action : String → String → Exec (World D) Exc Action
  unfolding create
  create_action name owner = create (record { name = name; owner = owner; status = pending })

  -- `Action.update`
  unfoldable pub update_action : Action → List (Action → Action) → Exec (World D) Exc Action
  unfolding Table.update_item
  update_action a changes w =
      let (b, rows) = Table.update_item action_table put_updated_at w.clock a changes w.actions in
      (ok b, record w { actions = rows })

  -- `Action.set_status`
  unfoldable pub set_status : Action → ActionStatus → Exec (World D) Exc Action
  unfolding update_action
  set_status a s = update_action a (put_status s ∷ [])

  -- `Action.set_final_state`
  unfoldable pub set_final_state :
      Action → ActionStatus → String → Dict Arg → Exec (World D) Exc Action
  unfolding update_action
  set_final_state a s result args =
      update_action a (put_status s ∷ put_result result ∷ put_task_args args ∷ [])

  -- `Action.find_by_owner`; the last case of the source is never met.
  unfoldable pub find_by_owner : String → Option ActionStatus → Option ℕ → World D → List Action
  unfolding is_recent status_eq
  find_by_owner username none none w =
      action_table.query w.actions (λ a. a.owner == username) none none
  find_by_owner username none (some max_age) w =
      action_table.query w.actions (λ a. a.owner == username) (some (is_recent w.clock max_age))
        none
  find_by_owner username (some s) none w =
      action_table.query w.actions (λ a. a.owner == username) none
        (some (λ a. status_eq a.status s))
  find_by_owner username (some s) (some max_age) w =
      action_table.query w.actions (λ a. a.owner == username) (some (is_recent w.clock max_age))
        (some (λ a. status_eq a.status s))
