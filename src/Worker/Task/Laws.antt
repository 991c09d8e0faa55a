-- ===== src/Worker/Task/Laws.antt =====
-- What the hooks leave in the action's row.
use automated_actions.Prelude.{ℕ, String, ◌≡◌, none, some, ◌==◌, if◌then◌else◌}
use automated_actions.Dict.{Dict, lookup, lookup-without}
use automated_actions.Errors.{Exc, message}
use automated_actions.Db.Schema.{Action, ActionStatus, running, success, failure, Arg}
use automated_actions.Db.World.{Database, World}
use automated_actions.Db.Actions
use automated_actions.Db.Actions.Laws.{Writes, set_status-Writes, set_final_state-Writes}
use automated_actions.Worker.Task.{task_kwargs_to_store, before_start, on_success, on_failure}

-- The stored arguments are the keyword arguments without the Action object.
pub lookup-task_kwargs_to_store :
    (key : String) (kwargs : Dict Arg)
    → lookup key (task_kwargs_to_store kwargs)
      ≡ (if "action" == key then none else lookup key kwargs)
unfolding task_kwargs_to_store
lookup-task_kwargs_to_store key kwargs = lookup-without "action" key kwargs

-- The row of an action that a task has ended with a status and a result.
abbrev pub ended : ℕ → Action → ActionStatus → String → Dict Arg → Action
ended now b s result kwargs = record b {
  status = s;
  result = some result;
  task_args = some (task_kwargs_to_store kwargs);
  updated_at = now;
}

module _ (D : Database) (w : World D) (a b : Action)
    (found : Actions.stored D w a.action_id ≡ some b) where
  pub before_start-Writes :
      Writes D w (record b { status = running; updated_at = w.clock }) (before_start D a w)
  unfolding before_start
  before_start-Writes = set_status-Writes D w a b running found

  pub on_success-Writes :
      (kwargs : Dict Arg)
      → Writes D w (ended w.clock b success "ok" kwargs) (on_success D a kwargs w)
  unfolding on_success
  on_success-Writes kwargs =
      set_final_state-Writes D w a b success "ok" (task_kwargs_to_store kwargs) found

  pub on_failure-Writes :
      (exc : Exc) (kwargs : Dict Arg)
      → Writes D w (ended w.clock b failure (message exc) kwargs) (on_failure D exc a kwargs w)
  unfolding on_failure
  on_failure-Writes exc kwargs =
      set_final_state-Writes D w a b failure (message exc) (task_kwargs_to_store kwargs) found
