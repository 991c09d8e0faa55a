-- ===== src/Api/Routes.antt =====
-- The routes of the API: api/v1/views and the routers of api/v1/__init__.py and api/__init__.py.
-- FastAPI puts the prefix of a router in front of its paths, and its dependencies before those of
-- the endpoints.
use automated_actions.Prelude.{ℕ, String, true, false, List, [], ◌∷◌, ◌++◌}
use automated_actions.Text.{◌+++◌}
use automated_actions.Api.Signature.{
  Method, get, post, Hint, a_text, a_flag, an_int, a_float, a_moment, a_dict, texts, a_status,
  restart_kind, Parameter, Field, Answer, object, list_of, plain,
}

-- What runs before the endpoint: `get_user`, `get_authz`, which asks for the user itself,
-- `get_authorized_action`, and the creation of an action.
pub data Dependency : Type 0 where
  user authz authorized_action new_action : Dependency

pub record ApiRoute : Type 0 where
  pub method : Method
  pub path : String
  pub operation_id : String
  pub parameters : List Parameter
  pub answer : Answer
  pub status_code : ℕ
  pub dependencies : List Dependency

abbrev pub required : String → Hint → Parameter
required name hint = record { name = name; hint = hint; is_required = true }

abbrev pub optional : String → Hint → Parameter
optional name hint = record { name = name; hint = hint; is_required = false }

abbrev given : String → Hint → Field
given name hint = record { name = name; hint = hint; is_required = true; is_nullable = false }

-- `ActionSchemaOut` of db/models/_action.py
abbrev action_fields : List Field
action_fields =
    given "name" a_text
    ∷ given "owner" a_text
    ∷ record { name = "status"; hint = a_status; is_required = false; is_nullable = false }
    ∷ given "action_id" a_text
    ∷ record { name = "result"; hint = a_text; is_required = false; is_nullable = true }
    ∷ record { name = "task_args"; hint = a_dict; is_required = false; is_nullable = true }
    ∷ given "created_at" a_float
    ∷ given "updated_at" a_float
    ∷ []

-- `UserSchemaOut` of db/models/_user.py
abbrev user_fields : List Field
user_fields =
    given "name" a_text
    ∷ given "username" a_text
    ∷ given "email" a_text
    ∷ given "created_at" a_float
    ∷ given "updated_at" a_float
    ∷ given "allowed_actions" texts
    ∷ []

-- A route that submits an action: it answers 202 with the action.
abbrev submitting : String → String → List Parameter → ApiRoute
submitting path operation_id parameters = record {
  method = post;
  path = path;
  operation_id = operation_id;
  parameters = parameters;
  answer = object action_fields;
  status_code = 202;
  dependencies = new_action ∷ [];
}

abbrev resource : List Parameter
resource = required "account" a_text ∷ required "identifier" a_text ∷ []

-- `router` of views/admin.py
unfoldable pub admin_router : List ApiRoute
admin_router =
    record {
      method = post;
      path = "/admin/token";
      operation_id = "create-token";
      parameters =
          required "name" a_text
          ∷ required "username" a_text
          ∷ required "email" a_text
          ∷ required "expiration" a_moment
          ∷ [];
      answer = plain a_text;
      status_code = 200;
      dependencies = user ∷ [];
    }
    ∷ []

-- `router` of views/external_resource.py
unfoldable pub external_resource_router : List ApiRoute
external_resource_router =
    submitting "/external-resource/rds-reboot/{account}/{identifier}" "external-resource-rds-reboot"
      (resource ++ optional "force_failover" a_flag ∷ [])
    ∷ submitting "/external-resource/rds-start/{account}/{identifier}" "external-resource-rds-start"
        resource
    ∷ submitting "/external-resource/rds-stop/{account}/{identifier}" "external-resource-rds-stop"
        resource
    ∷ submitting "/external-resource/rds-snapshot/{account}/{identifier}/{snapshot_identifier}"
        "external-resource-rds-snapshot" (resource ++ required "snapshot_identifier" a_text ∷ [])
    ∷ submitting "/external-resource/flush-elasticache/{account}/{identifier}"
        "external-resource-flush-elasticache" resource
    ∷ []

-- `router` of views/openshift.py
unfoldable pub openshift_router : List ApiRoute
openshift_router =
    submitting "/openshift/workload-restart/{cluster}/{namespace}/{kind}/{name}"
      "openshift-workload-restart"
      (required "cluster" a_text
        ∷ required "namespace" a_text
        ∷ required "kind" restart_kind
        ∷ required "name" a_text
        ∷ [])
    ∷ submitting "/openshift/workload-delete/{cluster}/{namespace}/{kind}/{name}"
        "openshift-workload-delete"
        (required "cluster" a_text
          ∷ required "namespace" a_text
          ∷ required "kind" a_text
          ∷ required "name" a_text
          ∷ optional "api_version" a_text
          ∷ [])
    ∷ submitting "/openshift/trigger-cronjob/{cluster}/{namespace}/{cronjob}"
        "openshift-trigger-cronjob"
        (required "cluster" a_text ∷ required "namespace" a_text ∷ required "cronjob" a_text ∷ [])
    ∷ []

-- `router` of views/action.py
unfoldable pub action_router : List ApiRoute
action_router =
    record {
      method = get;
      path = "/actions";
      operation_id = "action-list";
      parameters =
          optional "status" a_status
          ∷ optional "action_user" a_text
          ∷ optional "max_age_minutes" an_int
          ∷ [];
      answer = list_of action_fields;
      status_code = 200;
      dependencies = user ∷ [];
    }
    ∷ []

-- `owner_scoped_router` of views/action.py
unfoldable pub owner_scoped_router : List ApiRoute
owner_scoped_router =
    record {
      method = get;
      path = "/actions/{action_id}";
      operation_id = "action-detail";
      parameters = required "action_id" a_text ∷ [];
      answer = object action_fields;
      status_code = 200;
      dependencies = authorized_action ∷ [];
    }
    ∷ record {
      method = post;
      path = "/actions/{action_id}";
      operation_id = "action-cancel";
      parameters = required "action_id" a_text ∷ [];
      answer = object action_fields;
      status_code = 202;
      dependencies = authorized_action ∷ [];
    }
    ∷ []

-- `router` of views/user.py
unfoldable pub user_router : List ApiRoute
user_router =
    record {
      method = get;
      path = "/me";
      operation_id = "me";
      parameters = [];
      answer = object user_fields;
      status_code = 200;
      dependencies = user ∷ [];
    }
    ∷ []

-- `router` of views/no_op.py
unfoldable pub no_op_router : List ApiRoute
no_op_router = submitting "/no-op" "no-op" [] ∷ []

-- `include_router` with a prefix and dependencies.
unfoldable pub include_router : String → List Dependency → List ApiRoute → List ApiRoute
include_router prefix dependencies [] = []
include_router prefix dependencies (r ∷ routes) =
    record r { path = prefix +++ r.path; dependencies = dependencies ++ r.dependencies }
    ∷ include_router prefix dependencies routes

-- `router` of api/v1/__init__.py
unfoldable pub v1_router : List ApiRoute
unfolding include_router admin_router external_resource_router openshift_router action_router
    owner_scoped_router user_router no_op_router
v1_router =
    include_router "" (user ∷ authz ∷ []) admin_router
    ++ (include_router "" (user ∷ authz ∷ []) external_resource_router
        ++ (include_router "" (user ∷ authz ∷ []) openshift_router
            ++ (include_router "" (user ∷ authz ∷ []) action_router
                ++ (include_router "" (user ∷ []) owner_scoped_router
                    ++ (include_router "" (authz ∷ []) user_router
                        ++ include_router "" (authz ∷ []) no_op_router)))))

-- The routes of the login come behind them, from `configure_routers`; then the prefixes.
unfoldable pub api_routes : List ApiRoute → List ApiRoute
unfolding v1_router include_router
api_routes oidc_router =
    include_router "/api" []
      (include_router "/v1" [] (v1_router ++ include_router "/auth" [] oidc_router))
