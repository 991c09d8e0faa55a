-- ===== src/Api/Submit.antt =====
-- What a request for an action leaves behind.
use automated_actions.Prelude.{
  ◌+◌, String, ◌≡◌, refl, none, some, [], ◌∷◌, ◌++◌, ◌==◌, if◌then◌else◌,
}
use automated_actions.Dict.{Dict}
use automated_actions.Errors.{Exc}
use automated_actions.Exec.{Exec, Result, ok, err}
use automated_actions.Exec.Keeps.{Preserves, preserves_rules}
use automated_actions.Db.Schema.{Action, ActionSchemaOut, pending, User, Arg, object, TaskName}
use automated_actions.Db.World.{Database, World, Message}
use automated_actions.Db.Actions
use automated_actions.Db.Actions.Laws.{create_action-Writes}
use automated_actions.Auth.Untouched.{work}
use automated_actions.Auth.Request.{Request}
use automated_actions.Auth.Bearer.Kept.{get_user-Preserves}
use automated_actions.Auth.Opa.Kept.{authorize-Preserves}
use automated_actions.Api.{Server, submit, get_user, get_authz, authorized_user, post_action}

-- A new action of the user with the next identifier.
abbrev pub fresh_action : (D : Database) → World D → String → User → Action
fresh_action D w name user = record {
  action_id = D.uuid4 w.drawn;
  name = name;
  owner = user.username;
  status = pending;
  result = none;
  task_args = none;
  created_at = w.clock;
  updated_at = w.clock;
}

abbrev pub message_of : TaskName → Dict Arg → Action → Message
message_of task kwargs action = record {
  task = task;
  kwargs = kwargs ++ ("action", object action.action_id) ∷ [];
  action = action;
  task_id = action.action_id;
}

-- From the state `w` the run answered with the action, stored it and nothing else, and queued one
-- message for it.
pub record IsSubmitted (D : Database) (w : World D) (action : Action) (task : TaskName)
    (kwargs : Dict Arg) (run : Result Exc ActionSchemaOut × World D) : Type 0 where
  pub answer : run.0 ≡ ok (Actions.dump action)
  pub row :
      (j : String)
      → Actions.stored D run.1 j
        ≡ (if action.action_id == j then some action else Actions.stored D w j)
  pub queued : run.1.queue ≡ w.queue ++ message_of task kwargs action ∷ []
  pub drawn : run.1.drawn ≡ w.drawn + 1

module _ (D : Database) (server : Server D) where
  pub authorized_user-Preserves :
      (request : Request) → Preserves (work D) (authorized_user D server request)
  unfolding authorized_user get_user get_authz
  authorized_user-Preserves request =
      search (preserves_rules, get_user-Preserves, authorize-Preserves)

  module _ {Args : Type 0} (name : String) (read_args : Request → Result Exc Args)
      (endpoint : Args → Action → Exec (World D) Exc ActionSchemaOut) (request : Request)
      (w : World D) where
    -- An authorized request with valid arguments stores one new pending action, which belongs to
    -- the user, queues one message for its task, and answers with the action.
    pub post_action-IsSubmitted :
        (w' : World D) (user : User) (args : Args) (task : TaskName) (kwargs : Dict Arg)
        → authorized_user D server request w ≡ (ok user, w')
        → read_args request ≡ ok args
        → ((action : Action) → endpoint args action ≡ submit D task kwargs action)
        → IsSubmitted D w'
            (fresh_action D w' name user)
            task
            kwargs
            (post_action D server name read_args endpoint request w)
    unfolding post_action submit Actions.create_action
    post_action-IsSubmitted w' user args task kwargs authorized valid submits = rw authorized (
        rw valid (
          rw submits (record {
            answer = refl;
            row = (create_action-Writes D w' name user.username).row;
            queued = refl;
            drawn = refl;
          })))

    -- A request that is not authorized ends with that error; no action is stored and no message
    -- queued.
    pub post_action_refused :
        (e : Exc)
        → (authorized_user D server request w).0 ≡ err e
        → ((post_action D server name read_args endpoint request w).0 ≡ err e)
          × (work D (post_action D server name read_args endpoint request w).1 ≡ work D w)
    unfolding post_action
    post_action_refused e refused =
        (rw refused, rw refused ((authorized_user-Preserves request).at w))
