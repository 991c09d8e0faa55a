-- ===== src/Tests/Service.antt =====
-- The theorems on the API and its authentication at concrete requests.
use automated_actions.Prelude.{◌≡◌, refl, ◌++◌, String, true, false, some, [], ◌∷◌, get_or, or_else}
use automated_actions.Dict.{Dict, lookup, last_value}
use automated_actions.Errors.{Exc, http}
use automated_actions.Exec.{ok, err}
use automated_actions.Db.Schema.{User, no_op, text}
use automated_actions.Db.World.{World, Message}
use automated_actions.Db.Memory.{find, change}
use automated_actions.Db.Actions
use automated_actions.Db.Users
use automated_actions.Auth.Request.{Request, truthy}
use automated_actions.Auth.Oidc
use automated_actions.Auth.Bearer
use automated_actions.Auth.Opa as OpaModule
use automated_actions.Auth.Opa.{Opa, OpaData, is_true, opa_params, should_skip_endpoint, authorize}
use automated_actions.Auth.Opa.Decision.{Allows, answer, authorize-ok}
use automated_actions.Auth.Untouched.{work}
use automated_actions.Api.{Server, authorized_user, get_user, post_action, get_authz}
use automated_actions.Api.Submit.{
  IsSubmitted, fresh_action, post_action-IsSubmitted, post_action_refused,
}
use automated_actions.Api.General.{get_authorized_action, no_op_endpoint}
use automated_actions.Api.General.Laws.{get_authorized_action-ok}
use automated_actions.Auth.Opa.Params.{declared_default, lookup-opa_params}
use automated_actions.Api.Openshift.{DeleteArgs, read_delete_args, post_openshift_workload_delete}
use automated_actions.Api.Openshift.Authorized.{
  delete_fields, Judges, delete-Judges, delete_shadowed,
}
use automated_actions.Tests.Setup.{an_action, alice, database, world, server, engine, request}

false-ne-true : false ≡ true → ⊥
false-ne-true h = cc

-- Alice after the request: the engine's actions are stored.
abbrev alice_later : User
alice_later = record alice { allowed_actions = "no-op" ∷ []; updated_at = 9000000 }

abbrev world_later : World database
world_later = record world { users = alice_later ∷ alice ∷ [] }

authorized : authorized_user database server request world ≡ (ok alice_later, world_later)
unfolding authorized_user get_user get_authz Bearer.get_user Bearer.authenticate Oidc.authenticate
    Oidc.get_user_info Users.load Users.load_found OpaModule.authorize should_skip_endpoint
    OpaModule.enforce OpaModule.query_opa OpaModule.check_decision Users.set_allowed_actions
    Users.same_set Users.update_user truthy find change lookup
authorized = refl

-- Access to Alice's action.
action_found : (get_authorized_action database server "a-7" request world).0 ≡ ok an_action
unfolding get_authorized_action Actions.get_or_404 get_user Bearer.get_user Bearer.authenticate
    Oidc.authenticate Oidc.get_user_info Users.load Users.load_found OpaModule.authorize
    should_skip_endpoint OpaModule.enforce OpaModule.query_opa OpaModule.check_decision
    Users.set_allowed_actions Users.same_set Users.update_user truthy find change lookup
action_found = refl

post_action-IsSubmitted_example :
    IsSubmitted database world_later
      (fresh_action database world_later "no-op" alice_later)
      no_op
      []
      (post_action database server "no-op" (λ _. ok tt) (no_op_endpoint database) request world)
unfolding no_op_endpoint
post_action-IsSubmitted_example =
    post_action-IsSubmitted database server "no-op" (λ _. ok tt) (no_op_endpoint database) request
      world world_later alice_later tt no_op [] authorized refl (λ action. refl)

-- The same server, its policy engine being down.
abbrev closed : Server database
closed = record server { opa = engine 503 }

abbrev unavailable : Exc
unavailable = http 500 "unexpected status" []

refused : (authorized_user database closed request world).0 ≡ err unavailable
unfolding authorized_user get_user get_authz Bearer.get_user Bearer.authenticate Oidc.authenticate
    Oidc.get_user_info Users.load Users.load_found OpaModule.authorize should_skip_endpoint
    OpaModule.enforce OpaModule.query_opa OpaModule.check_decision OpaModule.read_reply truthy find
    change lookup
refused = refl

post_action_refused_example :
    ((post_action database closed "no-op" (λ _. ok tt) (no_op_endpoint database) request world).0
      ≡ err unavailable)
    × (work database
          (post_action database closed "no-op"
            (λ _. ok tt)
            (no_op_endpoint database)
            request
            world).1
        ≡ work database world)
post_action_refused_example =
    post_action_refused database closed "no-op" (λ _. ok tt) (no_op_endpoint database) request world
      unavailable refused

abbrev allowed : OpaData
allowed = record {
  authorized = some true;
  within_rate_limits = some true;
  objects = some ("no-op" ∷ []);
}

alice_authorized : (authorize database (engine 200) request alice [] world).0 ≡ ok alice_later
unfolding authorize should_skip_endpoint OpaModule.enforce OpaModule.query_opa OpaModule.read_reply
    OpaModule.check_decision Users.set_allowed_actions Users.same_set Users.update_user find change
alice_authorized = refl

authorize-ok_example :
    (d : OpaData) × Allows (answer database (engine 200) request alice [] world) d
    × (authorize database (engine 200) request alice [] world
        ≡ Users.set_allowed_actions database alice (get_or d.objects []) world)
unfolding should_skip_endpoint
authorize-ok_example =
    authorize-ok database (engine 200) request alice [] world alice_later refl alice_authorized

get_authorized_action-ok_example :
    (user : User) × (w' : World database) × (d : OpaData) × (get_user database server request world
      ≡ (ok user, w'))
    × (Actions.stored database world "a-7" ≡ some an_action)
    × Allows (answer database server.opa request user (("owner", "alice") ∷ []) w') d
unfolding should_skip_endpoint
get_authorized_action-ok_example =
    get_authorized_action-ok database server "a-7" request world an_action refl action_found

-- A request to delete a workload, with a query string that names the namespace too.
abbrev deletion : Dict String → Request
deletion query_params = record request {
  path = "/api/v1/openshift/workload-delete";
  path_params =
      ("cluster", "east") ∷ ("namespace", "shop") ∷ ("kind", "Pod") ∷ ("name", "cart") ∷ [];
  query_params = query_params;
  route = record { operation_id = "openshift-workload-delete"; query_fields = delete_fields };
}

abbrev delete_args : DeleteArgs
delete_args = record {
  cluster = "east";
  namespace = "shop";
  api_version = "v1";
  kind = "Pod";
  name = "cart";
}

lookup-opa_params_example :
    lookup "namespace" (opa_params (deletion []) [])
    ≡ or_else (last_value "namespace" []) (
        or_else (last_value "namespace" []) (
          or_else
            (lookup "namespace" (deletion []).path_params)
            (declared_default delete_fields "namespace")))
lookup-opa_params_example = lookup-opa_params "namespace" (deletion []) []

-- Alice may delete it, whatever the query string has.
deletion_authorized :
    (query_params : Dict String)
    → authorized_user database server (deletion query_params) world ≡ (ok alice_later, world_later)
unfolding authorized_user get_user get_authz Bearer.get_user Bearer.authenticate Oidc.authenticate
    Oidc.get_user_info Users.load Users.load_found OpaModule.authorize should_skip_endpoint
    OpaModule.enforce OpaModule.query_opa OpaModule.check_decision Users.set_allowed_actions
    Users.same_set Users.update_user truthy find change lookup
deletion_authorized query_params = refl

delete-Judges_example :
    (m : Message) × ((post_openshift_workload_delete database server (deletion []) world).1.queue
      ≡ world.queue ++ m ∷ [])
    × Judges (deletion []) m
unfolding read_delete_args lookup last_value
delete-Judges_example =
    delete-Judges database server (deletion []) delete_args alice_later world world_later
      (deletion_authorized []) refl refl
      (record { cluster = refl; namespace = refl; kind = refl; name = refl; api_version = refl })

-- A deletion in the namespace "shop", with another one in the query string.
abbrev shadowing : Request
shadowing = deletion (("namespace", "mine") ∷ [])

delete_shadowed_example :
    (m : Message) × (namespace : String) × ((post_openshift_workload_delete database server
        shadowing world).1.queue
      ≡ world.queue ++ m ∷ [])
    × (lookup "namespace" m.kwargs ≡ some (text namespace))
    × (lookup "namespace" shadowing.path_params ≡ some namespace)
    × (lookup "namespace" (opa_params shadowing []) ≡ some "mine")
unfolding read_delete_args lookup last_value
delete_shadowed_example =
    delete_shadowed database server shadowing delete_args alice_later world world_later
      (deletion_authorized (("namespace", "mine") ∷ [])) refl "mine" refl
