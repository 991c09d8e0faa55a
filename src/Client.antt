-- ===== src/Client.antt =====
-- packages/automated_actions_client/automated_actions_client: the functions of the client, client.py,
-- and what they read of an answer, schemas.py. Sending a request is the library's.
pub mod Routing
use automated_actions.Prelude.{String, Bool, true, false, List, [], ◌∷◌}
use automated_actions.Api.Signature.{
  Method, get, post, a_text, a_flag, an_int, a_float, a_dict, texts, a_status, Hint, Parameter,
  Field, Answer, object, list_of,
}
use automated_actions.Api.Routes.{required, optional}

-- The functions that submit an action on a resource or a workload.
pub data ActionFunction : Type 0 where
  external_resource_rds_reboot external_resource_rds_start external_resource_rds_stop :
      ActionFunction
  external_resource_rds_snapshot external_resource_flush_elasticache : ActionFunction
  openshift_workload_restart openshift_workload_delete openshift_trigger_cronjob : ActionFunction

-- All functions of client.py.
pub data ClientFunction : Type 0 where
  create_token action_list action_detail action_cancel me no_op : ClientFunction
  action : ActionFunction → ClientFunction

-- The decorator and the signature of a function, without its first parameter `result`.
pub record Declaration : Type 0 where
  pub name : String
  pub method : Method
  pub path : String
  pub parameters : List Parameter
  pub result : Answer

abbrev field : String → Hint → Field
field name hint = record { name = name; hint = hint; is_required = true; is_nullable = false }

abbrev default_none : String → Hint → Field
default_none name hint = record {
  name = name;
  hint = hint;
  is_required = false;
  is_nullable = true;
}

-- `ActionSchemaOut`
unfoldable pub action_schema_out : List Field
action_schema_out =
    field "name" a_text
    ∷ field "owner" a_text
    ∷ default_none "status" a_status
    ∷ field "action_id" a_text
    ∷ default_none "result" a_text
    ∷ default_none "task_args" a_dict
    ∷ field "created_at" a_float
    ∷ field "updated_at" a_float
    ∷ []

-- `UserSchemaOut`
unfoldable pub user_schema_out : List Field
user_schema_out =
    field "name" a_text
    ∷ field "username" a_text
    ∷ field "email" a_text
    ∷ field "created_at" a_float
    ∷ field "updated_at" a_float
    ∷ field "allowed_actions" texts
    ∷ []

-- `CreateTokenParam`, the data of a token, and `ResponseCreateToken`, which has no field.
unfoldable pub create_token_param : List Parameter
create_token_param =
    required "name" a_text
    ∷ required "username" a_text
    ∷ required "email" a_text
    ∷ required "expiration" a_text
    ∷ []

unfoldable pub response_create_token : List Field
response_create_token = []

-- `@client.post(path)` for a function that answers with the action.
abbrev submits : String → String → List Parameter → Declaration
unfolding action_schema_out
submits name path parameters = record {
  name = name;
  method = post;
  path = path;
  parameters = parameters;
  result = object action_schema_out;
}

abbrev of_resource : List Parameter → List Parameter
of_resource more = required "account" a_text ∷ required "identifier" a_text ∷ more

unfoldable pub action_declaration : ActionFunction → Declaration
unfolding submits
action_declaration external_resource_rds_reboot =
    submits "external_resource_rds_reboot"
      "/api/v1/external-resource/rds-reboot/{account}/{identifier}"
      (of_resource (optional "force_failover" a_flag ∷ []))
action_declaration external_resource_rds_start =
    submits "external_resource_rds_start"
      "/api/v1/external-resource/rds-start/{account}/{identifier}" (of_resource [])
action_declaration external_resource_rds_stop =
    submits "external_resource_rds_stop" "/api/v1/external-resource/rds-stop/{account}/{identifier}"
      (of_resource [])
action_declaration external_resource_rds_snapshot =
    submits "external_resource_rds_snapshot"
      "/api/v1/external-resource/rds-snapshot/{account}/{identifier}/{snapshot_identifier}"
      (of_resource (required "snapshot_identifier" a_text ∷ []))
action_declaration external_resource_flush_elasticache =
    submits "external_resource_flush_elasticache"
      "/api/v1/external-resource/flush-elasticache/{account}/{identifier}" (of_resource [])
action_declaration openshift_workload_restart =
    submits "openshift_workload_restart"
      "/api/v1/openshift/workload-restart/{cluster}/{namespace}/{kind}/{name}"
      (required "cluster" a_text
        ∷ required "namespace" a_text
        ∷ required "kind" a_text
        ∷ required "name" a_text
        ∷ [])
action_declaration openshift_workload_delete =
    submits "openshift_workload_delete"
      "/api/v1/openshift/workload-delete/{cluster}/{namespace}/{kind}/{name}"
      (required "cluster" a_text
        ∷ required "namespace" a_text
        ∷ required "kind" a_text
        ∷ required "name" a_text
        ∷ optional "api_version" a_text
        ∷ [])
action_declaration openshift_trigger_cronjob =
    submits "openshift_trigger_cronjob"
      "/api/v1/openshift/trigger-cronjob/{cluster}/{namespace}/{cronjob}"
      (required "cluster" a_text ∷ required "namespace" a_text ∷ required "cronjob" a_text ∷ [])

unfoldable pub token_declaration : Declaration
unfolding create_token_param response_create_token
token_declaration = record {
  name = "create_token";
  method = post;
  path = "/api/v1/admin/token";
  parameters = create_token_param;
  result = object response_create_token;
}

unfoldable pub declaration : ClientFunction → Declaration
unfolding submits action_schema_out user_schema_out token_declaration action_declaration
declaration create_token = token_declaration
declaration (action f) = action_declaration f
declaration action_list = record {
  name = "action_list";
  method = get;
  path = "/api/v1/actions";
  parameters =
      optional "status" a_status
      ∷ optional "action_user" a_text
      ∷ optional "max_age_minutes" an_int
      ∷ [];
  result = list_of action_schema_out;
}
declaration action_detail = record {
  name = "action_detail";
  method = get;
  path = "/api/v1/actions/{action_id}";
  parameters = required "action_id" a_text ∷ [];
  result = object action_schema_out;
}
declaration action_cancel = record {
  name = "action_cancel";
  method = post;
  path = "/api/v1/actions/{action_id}";
  parameters = required "action_id" a_text ∷ [];
  result = object action_schema_out;
}
declaration me = record {
  name = "me";
  method = get;
  path = "/api/v1/me";
  parameters = [];
  result = object user_schema_out;
}
declaration no_op = submits "no_op" "/api/v1/no-op" []
