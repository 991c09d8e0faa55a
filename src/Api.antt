-- ===== src/Api.antt =====
-- packages/automated_actions/automated_actions/api: how a request gets to its endpoint. FastAPI
-- resolves the dependencies of a router before those of the endpoint: the user, the authorization,
-- and then the new action.
pub mod Signature
pub mod Routes
pub mod Matching
pub mod Submit
pub mod Openshift
pub mod ExternalResource
pub mod General
use automated_actions.Prelude.{String, Option, none, some, List, [], ◌∷◌, ◌++◌}
use automated_actions.Dict.{Dict, lookup}
use automated_actions.Errors.{Exc, http}
use automated_actions.Exec.{Exec, Result, ok, err, pure, lift, ◌>>=◌, ◌>>◌}
use automated_actions.Db.Schema.{Action, ActionSchemaOut, User, Arg, object, TaskName}
use automated_actions.Db.World.{Database, World, Message}
use automated_actions.Db.Actions
use automated_actions.Auth.Request.{Request}
use automated_actions.Auth.Oidc.{OidcLibs, Oidc}
use automated_actions.Auth.Bearer.{Jwt}
use automated_actions.Auth.Bearer
use automated_actions.Auth.Opa.{Opa}
use automated_actions.Auth.Opa

-- What `initialize_auth_components` puts into `app.state`.
pub record Server (D : Database) : Type 0 where
  pub jwt : Jwt
  pub issuer : String
  pub secret : String
  pub libs : OidcLibs
  pub oidc : Oidc
  pub opa : Opa D

-- A parameter of the path, which the route has matched.
unfoldable pub path_param : String → Request → Result Exc String
path_param key request = elim (lookup key request.path_params) [
  | none ↦ err (http 422 "Field required" [])
  | some value ↦ ok value
]

module _ (D : Database) where
  -- `task.apply_async(kwargs={..., "action": action}, task_id=action.action_id)`, and the answer
  unfoldable pub submit : TaskName → Dict Arg → Action → Exec (World D) Exc ActionSchemaOut
  submit task kwargs action w = (
    ok (Actions.dump action),
    record w {
      queue =
          w.queue
          ++ (record {
            task = task;
            kwargs = kwargs ++ ("action", object action.action_id) ∷ [];
            action = action;
            task_id = action.action_id;
          })
            ∷ [];
    },
  )

  module _ (server : Server D) where
    -- `get_user` of dependencies.py
    unfoldable pub get_user : Request → Exec (World D) Exc User
    get_user = Bearer.get_user server.jwt server.issuer server.secret D server.libs server.oidc

    -- `get_authz` of dependencies.py
    unfoldable pub get_authz : Request → User → Exec (World D) Exc User
    get_authz request user = Opa.authorize D server.opa request user []

    -- The dependencies of a router that is included with `get_user` and `get_authz`.
    unfoldable pub authorized_user : Request → Exec (World D) Exc User
    authorized_user request = do user ← get_user request; get_authz request user

    -- An endpoint that depends on a new action of its name. The endpoint's own parameters are
    -- validated after its dependencies have run.
    unfoldable pub post_action :
        {Args : Type 0}
        → String
        → (Request → Result Exc Args)
        → (Args → Action → Exec (World D) Exc ActionSchemaOut)
        → Request
        → Exec (World D) Exc ActionSchemaOut
    post_action name read_args endpoint request = do
      user ← authorized_user request
      action ← Actions.create_action D name user.username
      args ← lift (read_args request)
      endpoint args action
