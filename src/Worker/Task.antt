-- ===== src/Worker/Task.antt =====
-- packages/automated_actions/automated_actions/celery/automated_action_task.py: the hooks that
-- write the progress of a task to its action. The metrics and the log are not modelled.
pub mod Laws
use automated_actions.Prelude.{
  ℕ, String, Bool, true, false, Option, none, some, List, [], ◌∷◌, if◌then◌else◌,
}
use automated_actions.Dict.{Dict, without}
use automated_actions.Errors.{Exc, http, api_exception, vault_error, raised, message}
use automated_actions.Exec.{Exec, Result, ok, err, pure}
use automated_actions.Db.Schema.{Action, ActionStatus, running, success, failure, Arg}
use automated_actions.Db.World.{Database, World}
use automated_actions.Db.Actions

-- `_task_kwargs_to_store`
unfoldable pub task_kwargs_to_store : Dict Arg → Dict Arg
task_kwargs_to_store kwargs = without "action" kwargs

-- `AutomatedActionTask.autoretry_for`: ApiException and VaultError
unfoldable pub is_autoretried : Exc → Bool
is_autoretried (api_exception status text) = true
is_autoretried (vault_error class text) = true
is_autoretried (http status detail headers) = false
is_autoretried (raised class text) = false
is_autoretried (Exc.library text) = false

-- `AutomatedActionTask.max_retries`
abbrev pub max_retries : ℕ
max_retries = 3

-- How the body of a task ends: it returns, raises, or asks to be retried with `self.retry`. The
-- last comes with the MaxRetriesExceededError that Celery raises in place of it when no retries are
-- left; its text, which names the task and its arguments, is Celery's.
pub data Exit : Type 0 where
  returned : Exit
  asked_retry : (exceeded : Exc) → Exit
  raising : Exc → Exit

-- What an ending means to Celery: done, failed, or again, with the exception that is raised when
-- no retries are left.
pub data Outcome : Type 0 where
  done : Outcome
  failed again : Exc → Outcome

unfoldable pub outcome : Exit → Outcome
unfolding is_autoretried
outcome returned = done
outcome (asked_retry exceeded) = again exceeded
outcome (raising e) = if is_autoretried e then again e else failed e

module _ (D : Database) where
  unfoldable pub before_start : Action → Exec (World D) Exc Action
  before_start action = Actions.set_status D action running

  unfoldable pub on_success : Action → Dict Arg → Exec (World D) Exc Action
  unfolding task_kwargs_to_store
  on_success action kwargs =
      Actions.set_final_state D action success "ok" (task_kwargs_to_store kwargs)

  unfoldable pub on_failure : Exc → Action → Dict Arg → Exec (World D) Exc Action
  unfolding task_kwargs_to_store message
  on_failure exc action kwargs =
      Actions.set_final_state D action failure (message exc) (task_kwargs_to_store kwargs)

  -- `on_retry` only logs.
  unfoldable pub on_retry : Action → Exec (World D) Exc Action
  on_retry action = pure action
