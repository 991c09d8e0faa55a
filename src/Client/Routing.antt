-- ===== src/Client/Routing.antt =====
-- The functions of the client against the routes of the API.
use automated_actions.Prelude.{String, ◌≡◌, refl, Bool, true, false, not, some, List, [], ◌∷◌, ◌==◌}
use automated_actions.Dict.{Dict}
use automated_actions.Text.{split, join}
use automated_actions.Exec.{ok}
use automated_actions.Auth.Request.{Request}
use automated_actions.Api.{path_param}
use automated_actions.Api.Signature.{are_accepted, reads}
use automated_actions.Api.Routes.{
  Dependency, user, authz, authorized_action, new_action, ApiRoute, api_routes,
}
use automated_actions.Api.Matching.{segments, has_param, params_of, Http, IsPiece, IsHttp}
use automated_actions.Api.Matching.Laws.{selected, route_for-sent_path, lookup-params_of}
use automated_actions.Client.{
  external_resource_rds_reboot, external_resource_rds_start, external_resource_rds_stop,
  external_resource_rds_snapshot, external_resource_flush_elasticache, openshift_workload_restart,
  openshift_workload_delete, openshift_trigger_cronjob, ClientFunction, create_token, action_list,
  action_detail, action_cancel, me, no_op, action, declaration,
}

-- The policy engine is asked before an action is made, with or without the action's owner.
abbrev pub is_guarded : List Dependency → Bool
is_guarded [] = false
is_guarded (user ∷ more) = is_guarded more
is_guarded (authz ∷ more) = true
is_guarded (authorized_action ∷ more) = true
is_guarded (new_action ∷ more) = false

-- A function of the client and a route: the function's name with dashes is the operation of the
-- route, its parameters are accepted, what it reads of the answer is given, but for a token, and the
-- policy engine guards the route.
abbrev pub IsTyped : ClientFunction → ApiRoute → Type 0
IsTyped f r =
    (r.operation_id ≡ join "-" (split 95 (declaration f).name))
    × (are_accepted (declaration f).parameters r.parameters ≡ true)
    × (reads (declaration f).result r.answer ≡ not ((declaration f).name == "create_token"))
    × (is_guarded r.dependencies ≡ true)

-- For each function of the client the API has a route with its method and its path, and no route
-- before that takes such a path with this method. The name of the function with dashes is the
-- operation of the route; its parameters are those of the route, in the same order and each of a
-- kind that the route reads, and none may be left out that the route requires; the answer of the
-- route has the fields that the function reads, each of the kind and as optional as it is read,
-- except for create_token, which cannot read its answer; and the policy engine is asked before the
-- endpoint runs and before an action is made for it.
pub function-IsTyped :
    (f : ClientFunction) (oidc_router : List ApiRoute)
    → (r : ApiRoute) × (selected
          (declaration f).method
          (declaration f).path
          (api_routes oidc_router)
        ≡ some r)
      × IsTyped f r
unfolding api_routes declaration are_accepted reads segments split join
function-IsTyped create_token oidc = (_, refl, (refl, refl, refl, refl))
function-IsTyped action_list oidc = (_, refl, (refl, refl, refl, refl))
function-IsTyped action_detail oidc = (_, refl, (refl, refl, refl, refl))
function-IsTyped action_cancel oidc = (_, refl, (refl, refl, refl, refl))
function-IsTyped me oidc = (_, refl, (refl, refl, refl, refl))
function-IsTyped no_op oidc = (_, refl, (refl, refl, refl, refl))
function-IsTyped (action external_resource_rds_reboot) oidc = (_, refl, (refl, refl, refl, refl))
function-IsTyped (action external_resource_rds_start) oidc = (_, refl, (refl, refl, refl, refl))
function-IsTyped (action external_resource_rds_stop) oidc = (_, refl, (refl, refl, refl, refl))
function-IsTyped (action external_resource_rds_snapshot) oidc = (_, refl, (refl, refl, refl, refl))
function-IsTyped (action external_resource_flush_elasticache) oidc =
    (_, refl, (refl, refl, refl, refl))
function-IsTyped (action openshift_workload_restart) oidc = (_, refl, (refl, refl, refl, refl))
function-IsTyped (action openshift_workload_delete) oidc = (_, refl, (refl, refl, refl, refl))
function-IsTyped (action openshift_trigger_cronjob) oidc = (_, refl, (refl, refl, refl, refl))

module _ (http : Http) (works : IsHttp http) where
  -- A call of a function of the client gets to the endpoint of its name: where each parameter of the
  -- path is given a value of letters, digits and the characters "-", ".", "_" and "~", which is not
  -- empty, "." or "..", the API chooses the route whose operation is the function's name with dashes,
  -- and the endpoint reads for each of these parameters the value that was given.
  pub function-IsRouted :
      (f : ClientFunction) (oidc_router : List ApiRoute) (values : String → String)
      (request : Request) (k : String)
      → ((j : String) → has_param j (segments (declaration f).path) ≡ true → IsPiece (values j))
      → has_param k (segments (declaration f).path) ≡ true
      → (r : ApiRoute) × (params : Dict String) × (http.route_for
            (api_routes oidc_router)
            (declaration f).method
            (http.sent_path (declaration f).path values)
          ≡ some (r, params))
        × (r.operation_id ≡ join "-" (split 95 (declaration f).name))
        × (path_param k (record request { path_params = params }) ≡ ok (values k))
  unfolding path_param
  function-IsRouted f oidc_router values request k pieces among =
      let (r, chosen, (named, accepted, answered, guarded)) = function-IsTyped f oidc_router in
      (
        r,
        params_of values (segments (declaration f).path),
        route_for-sent_path http works values (declaration f).method (declaration f).path
            (api_routes oidc_router) r pieces chosen,
        named,
        rw (path_param, lookup-params_of values k (segments (declaration f).path) among) refl,
      )
