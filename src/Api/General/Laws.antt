-- ===== src/Api/General/Laws.antt =====
-- Access to one action, and its cancellation.
use automated_actions.Prelude.{
  String, ◌≡◌, ap, ◌∙◌, sym, false, some, [], ◌∷◌, ◌==◌, arith, if◌then◌else◌,
}
use automated_actions.Dict.{Dict, lookup, last_value}
use automated_actions.Exec.{ok, ok-injective, bind-ok}
use automated_actions.Exec.Keeps.{Preserves}
use automated_actions.Db.Schema.{Action, cancelled, User}
use automated_actions.Db.World.{Database, World}
use automated_actions.Db.Actions
use automated_actions.Db.Actions.Laws.{set_status-Writes}
use automated_actions.Auth.Untouched.{work}
use automated_actions.Auth.Request.{Request}
use automated_actions.Auth.Bearer.Kept.{get_user-Preserves}
use automated_actions.Auth.Opa.{Opa, opa_params, should_skip_endpoint}
use automated_actions.Auth.Opa
use automated_actions.Auth.Opa.Params.{lookup-opa_params}
use automated_actions.Auth.Opa.Decision.{Allows, answer, authorize-ok}
use automated_actions.Api.{Server, get_user}
use automated_actions.Api.General.{get_authorized_action, action_cancel}

-- The parameters with which an access to an action is judged.
abbrev pub scoped_params : Request → Action → Dict String
scoped_params request action = opa_params request (("owner", action.owner) ∷ [])

-- The engine is given the owner of the action, whatever the request says of an owner.
pub scoped_params-owner :
    (request : Request) (action : Action)
    → lookup "owner" (scoped_params request action) ≡ some action.owner
unfolding last_value
scoped_params-owner request action =
    lookup-opa_params "owner" request (("owner", action.owner) ∷ [])

module _ (D : Database) (server : Server D) (action_id : String) (request : Request) where
  pub get_or_404-ok :
      (w : World D) (action : Action)
      → (Actions.get_or_404 D action_id w).0 ≡ ok action
      → Actions.stored D w action_id ≡ some action
  unfolding Actions.get_or_404
  get_or_404-ok w action h = ground arith

  pub get_user_keeps : (r : Request) → Preserves (work D) (get_user D server r)
  unfolding get_user
  get_user_keeps r =
      get_user-Preserves server.jwt server.issuer server.secret D server.libs server.oidc r

  -- Where the path of the request is not one that the authorization skips: access to an action is
  -- given only if the action is stored, and the engine allowed the user of the request an access with
  -- the owner of the action.
  pub get_authorized_action-ok :
      (w : World D) (action : Action)
      → should_skip_endpoint server.opa.skip_endpoints request.path ≡ false
      → (get_authorized_action D server action_id request w).0 ≡ ok action
      → (user : User) × (w' : World D) × (d : Opa.OpaData) × (get_user D server request w
          ≡ (ok user, w'))
        × (Actions.stored D w action_id ≡ some action)
        × Allows (answer D server.opa request user (("owner", action.owner) ∷ []) w') d
  unfolding get_authorized_action Actions.get_or_404
  get_authorized_action-ok w action enforced h =
      let (user, found, h1) = bind-ok (get_user D server request) _ w h in
      let w' = (get_user D server request w).1 in
      let (a, got, h2) = bind-ok (Actions.get_or_404 D action_id) _ w' h1 in
      let w2 = (Actions.get_or_404 D action_id w').1 in
      let (v, passed, h3) =
        bind-ok (Opa.authorize D server.opa request user (("owner", a.owner) ∷ [])) _ w2 h2 in
      let same = ok-injective h3 in
      let (d, allows, run) =
        authorize-ok D server.opa request user (("owner", a.owner) ∷ []) w' v enforced passed in
      let kept = (get_user_keeps request).at w in
      (
        user,
        w',
        d,
        λ i. (found i, w'),
        ap (λ x. D.action_table.get x.0 action_id) (sym kept)
            ∙ get_or_404-ok w' a got
            ∙ ap (λ x. some x) same,
        rw (← same) allows,
      )

-- Cancelling writes the status CANCELLED to the stored action, whatever its status was, and
-- leaves its result, its arguments and every other action.
pub action_cancel-row :
    (D : Database) (w : World D) (a b : Action)
    → Actions.stored D w a.action_id ≡ some b
    → (action_cancel D a w ≡ (
      ok (Actions.dump (record b { status = cancelled; updated_at = w.clock })),
      (action_cancel D a w).1,
    ))
      × ((j : String)
          → Actions.stored D (action_cancel D a w).1 j ≡ (
              if b.action_id == j
              then some (record b { status = cancelled; updated_at = w.clock })
              else Actions.stored D w j))
      × ((action_cancel D a w).1.queue ≡ w.queue)
unfolding action_cancel
action_cancel-row D w a b found =
    let writes = set_status-Writes D w a b cancelled found in
    (rw writes.returns, λ j. rw writes.returns (writes.row j), rw writes.returns writes.queue)
