-- ===== src/Db/Actions/Laws.antt =====
-- What the writing methods of Action do to the table.
use automated_actions.Prelude.{
  String, ◌≡◌, refl, none, some, [], ◌∷◌, ◌==◌, if◌then◌else◌, ap, sym, ◌∙◌,
}
use automated_actions.Dict.{Dict}
use automated_actions.Errors.{Exc}
use automated_actions.Exec.{Result, ok}
use automated_actions.Db.Dynamo.{apply}
use automated_actions.Db.Table
use automated_actions.Db.Schema.{Action, ActionStatus, pending, Arg}
use automated_actions.Db.World.{Database, World}
use automated_actions.Db.Actions.{
  put_status, put_result, put_task_args, put_updated_at, stored, create_action, set_status,
  set_final_state,
}

-- The world after the run returned `a`: the row of `a` is `a`, and nothing else has changed.
pub record Writes (D : Database) (w : World D) (a : Action) (run : Result Exc Action × World D)
    : Type 0 where
  pub returns : run.0 ≡ ok a
  pub row : (j : String) → stored D run.1 j ≡ (if a.action_id == j then some a else stored D w j)
  pub users : run.1.users ≡ w.users
  pub queue : run.1.queue ≡ w.queue
  pub clock : run.1.clock ≡ w.clock

module _ (D : Database) (w : World D) where
  open D use {action_table, uuid4}

  -- The status and the time of the update are written to the stored item, whatever the object's
  -- own copy holds; every other attribute and every other item stays.
  pub set_status-Writes :
      (a b : Action) (s : ActionStatus)
      → stored D w a.action_id ≡ some b
      → Writes D w (record b { status = s; updated_at = w.clock }) (set_status D a s w)
  unfolding set_status Table.update_item
  set_status-Writes a b s found =
      let changes = put_status s ∷ put_updated_at w.clock ∷ [] in
      let key = action_table.hash_key-get w.actions a.action_id b found in
      record {
        returns = ap ok (action_table.update-returns w.actions a.action_id changes b found);
        row = λ j.
            action_table.get-update w.actions a.action_id changes b found key j
            ∙ ap (λ k. if k == j then some (apply changes b) else stored D w j) (sym key);
        users = refl;
        queue = refl;
        clock = refl;
      }

  -- The final status, the result, the arguments of the task and the time are written to the stored
  -- item, whatever the object's own copy holds; every other attribute and every other item stays.
  pub set_final_state-Writes :
      (a b : Action) (s : ActionStatus) (result : String) (args : Dict Arg)
      → stored D w a.action_id ≡ some b
      → Writes D w
          (record b {
            status = s;
            result = some result;
            task_args = some args;
            updated_at = w.clock;
          })
          (set_final_state D a s result args w)
  unfolding set_final_state Table.update_item
  set_final_state-Writes a b s result args found =
      let changes =
        put_status s ∷ put_result result ∷ put_task_args args ∷ put_updated_at w.clock ∷ [] in
      let key = action_table.hash_key-get w.actions a.action_id b found in
      record {
        returns = ap ok (action_table.update-returns w.actions a.action_id changes b found);
        row = λ j.
            action_table.get-update w.actions a.action_id changes b found key j
            ∙ ap (λ k. if k == j then some (apply changes b) else stored D w j) (sym key);
        users = refl;
        queue = refl;
        clock = refl;
      }

  -- A new action is pending, belongs to the given owner and has the time of its creation twice.
  pub create_action-Writes :
      (name owner : String)
      → Writes D w
          (record {
            action_id = uuid4 w.drawn;
            name = name;
            owner = owner;
            status = pending;
            result = none;
            task_args = none;
            created_at = w.clock;
            updated_at = w.clock;
          })
          (create_action D name owner w)
  unfolding create_action
  create_action-Writes name owner = record {
    returns = refl;
    row = λ j. action_table.get-save w.actions _ j;
    users = refl;
    queue = refl;
    clock = refl;
  }
