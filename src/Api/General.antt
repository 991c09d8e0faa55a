-- ===== src/Api/General.antt =====
-- packages/automated_actions/automated_actions/api/v1/views: action.py, user.py, no_op.py and
-- admin.py.
pub mod Laws
use automated_actions.Prelude.{
  ℕ, zero, ◌*◌, ◌/◌, String, Bool, true, false, Option, none, some, List, [], ◌∷◌, ◌==◌, map, eqb,
  if◌then◌else◌, get_or,
}
use automated_actions.Dict.{Dict}
use automated_actions.Errors.{Exc}
use automated_actions.Exec.{Exec, Result, ok, err, pure, gets, ◌>>=◌, ◌>>◌}
use automated_actions.Db.Schema.{
  Action, ActionStatus, cancelled, ActionSchemaOut, User, UserSchemaOut, no_op,
}
use automated_actions.Db.World.{Database, World}
use automated_actions.Db.Actions
use automated_actions.Db.Users
use automated_actions.Auth.Request.{Request, truthy}
use automated_actions.Auth.Bearer
use automated_actions.Auth.Opa
use automated_actions.Api.{Server, submit, get_user, get_authz, authorized_user, post_action}

-- `max_age_minutes * 60 if max_age_minutes else max_age_minutes`
unfoldable pub max_age_seconds : Option ℕ → Option ℕ
max_age_seconds none = none
max_age_seconds (some minutes) = if eqb minutes 0 then some minutes else some (minutes * 60)

pub record CreateTokenParam : Type 0 where
  pub name : String
  pub username : String
  pub email : String
  pub expiration : ℕ

module _ (D : Database) where
  -- `action_list` of action.py
  unfoldable pub action_list :
      User → Option ActionStatus → Option String → Option ℕ → World D → List ActionSchemaOut
  unfolding truthy max_age_seconds
  action_list user status action_user max_age_minutes w = map Actions.dump (
      Actions.find_by_owner D (get_or (truthy action_user) user.username) status
        (max_age_seconds max_age_minutes) w)

  -- `action_cancel` of action.py
  unfoldable pub action_cancel : Action → Exec (World D) Exc ActionSchemaOut
  action_cancel action = do
    cancelled_action ← Actions.set_status D action cancelled
    pure (Actions.dump cancelled_action)

  -- The endpoint of no_op.py. FastAPI leaves attributes that are not set out of the text of the
  -- answer (`response_model_exclude_unset`); the answer here is the object, with `none` for them.
  unfoldable pub no_op_endpoint : Unit {0} → Action → Exec (World D) Exc ActionSchemaOut
  no_op_endpoint _ action = submit D no_op [] action

  module _ (server : Server D) where
    -- `get_authorized_action` of action.py: the action's owner is sent to the policy engine.
    unfoldable pub get_authorized_action : String → Request → Exec (World D) Exc Action
    get_authorized_action action_id request = do
      user ← get_user D server request
      action ← Actions.get_or_404 D action_id
      Opa.authorize D server.opa request user (("owner", action.owner) ∷ [])
      pure action

    -- GET /actions
    abbrev pub get_actions :
        Option ActionStatus
        → Option String
        → Option ℕ
        → Request
        → Exec (World D) Exc (List ActionSchemaOut)
    get_actions status action_user max_age_minutes request = do
      user ← authorized_user D server request
      gets (action_list user status action_user max_age_minutes)

    -- GET /actions/{action_id}
    abbrev pub get_action_detail : String → Request → Exec (World D) Exc ActionSchemaOut
    get_action_detail action_id request = do
      action ← get_authorized_action action_id request
      pure (Actions.dump action)

    -- POST /actions/{action_id}
    unfoldable pub post_action_cancel : String → Request → Exec (World D) Exc ActionSchemaOut
    post_action_cancel action_id request = do
      action ← get_authorized_action action_id request
      action_cancel action

    -- POST /no-op
    abbrev pub post_no_op : Request → Exec (World D) Exc ActionSchemaOut
    post_no_op = post_action D server "no-op" (λ _. ok tt) no_op_endpoint

    -- GET /me
    abbrev pub get_me : Request → Exec (World D) Exc UserSchemaOut
    get_me request = do user ← authorized_user D server request; pure (Users.dump user)

    -- POST /admin/token
    abbrev pub post_admin_token : CreateTokenParam → Request → Exec (World D) Exc String
    post_admin_token param request = do
      user ← authorized_user D server request
      now ← gets (λ w. w.clock / Actions.second)
      pure (
          Bearer.create_token server.jwt server.issuer server.secret D now param.username param.name
            param.email param.expiration)
