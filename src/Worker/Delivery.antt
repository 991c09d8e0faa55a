-- ===== src/Worker/Delivery.antt =====
-- A task from its first delivery to its end. Celery, which calls the hooks of
-- automated_action_task.py and delivers a task again to retry it, is a parameter: it decides what
-- follows an attempt. What else happens to the tables before each attempt, by the API or by other
-- workers, is a parameter too, and so is how the body of the task ends in each attempt.
pub mod Laws
use automated_actions.Prelude.{ℕ, zero, suc, ◌+◌, ◌≤◌, ◌<◌, ◌≡◌, String, Option, none, some, List}
use automated_actions.Dict.{Dict}
use automated_actions.Errors.{Exc}
use automated_actions.Exec.{Exec, Result}
use automated_actions.Db.Schema.{Action, Arg}
use automated_actions.Db.World.{Database, World}
use automated_actions.Worker.Task.{
  Exit, Outcome, done, failed, again, outcome, before_start, on_success, on_failure, on_retry,
}

-- The hook that follows an attempt.
pub data Hook : Type 0 where
  success_hook retry_hook : Hook
  failure_hook : Exc → Hook

-- The hook for a task's `max_retries` after a number of retries. Celery documents that a task is
-- retried while the retries are fewer than `max_retries`, and then fails.
pub record Celery : Type 0 where
  pub hook : ℕ → ℕ → Outcome → Hook
  pub hook-done : (max retries : ℕ) → hook max retries done ≡ success_hook
  pub hook-failed : (max retries : ℕ) (e : Exc) → hook max retries (failed e) ≡ failure_hook e
  pub hook-again :
      (max retries : ℕ) (e : Exc) → retries < max → hook max retries (again e) ≡ retry_hook
  pub hook-spent :
      (max retries : ℕ) (e : Exc) → max ≤ retries → hook max retries (again e) ≡ failure_hook e

module _ (D : Database) (celery : Celery) (max : ℕ) (exits : ℕ → Exit)
    (between : ℕ → World D → World D) (action : Action) (kwargs : Dict Arg) where
  -- The world in which the body of an attempt runs.
  unfoldable pub started : ℕ → World D → World D
  started retries w = (before_start D action (between retries w)).1

  -- The attempts from a number of retries on; `none` means that the fuel ran out.
  unfoldable pub deliver : ℕ → ℕ → World D → Option (World D)
  deliver zero retries w = none
  deliver (suc fuel) retries w = elim (celery.hook max retries (outcome (exits retries))) [
    | success_hook ↦ some (on_success D action kwargs (started retries w)).1
    | failure_hook e ↦ some (on_failure D e action kwargs (started retries w)).1
    | retry_hook ↦ deliver fuel (suc retries) (on_retry D action (started retries w)).1
  ]
