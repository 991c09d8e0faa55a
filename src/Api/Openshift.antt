-- ===== src/Api/Openshift.antt =====
-- packages/automated_actions/automated_actions/api/v1/views/openshift.py
pub mod Authorized
use automated_actions.Prelude.{
  String, Bool, true, false, Option, none, some, List, [], ◌∷◌, ◌==◌, if◌then◌else◌, get_or,
}
use automated_actions.Dict.{Dict, last_value}
use automated_actions.Errors.{Exc, http}
use automated_actions.Exec.{Exec, Result, ok, err, and_then}
use automated_actions.Db.Schema.{
  Action, ActionSchemaOut, text, openshift_workload_restart, openshift_workload_delete,
  openshift_trigger_cronjob,
}
use automated_actions.Db.World.{Database, World}
use automated_actions.Auth.Request.{Request}
use automated_actions.Api.{Server, path_param, submit, post_action}

-- `Literal["Pod", "Deployment", "DaemonSet", "StatefulSet"]`
pub data RestartKind : Type 0 where
  pod deployment daemonset statefulset : RestartKind

unfoldable pub kind_text : RestartKind → String
kind_text pod = "Pod"
kind_text deployment = "Deployment"
kind_text daemonset = "DaemonSet"
kind_text statefulset = "StatefulSet"

unfoldable pub read_kind : String → Result Exc RestartKind
read_kind s =
    if s == "Pod"
    then ok pod
    else if s == "Deployment"
    then ok deployment
    else if s == "DaemonSet"
    then ok daemonset
    else if s == "StatefulSet"
    then ok statefulset
    else err (http 422 "Input should be 'Pod', 'Deployment', 'DaemonSet' or 'StatefulSet'" [])

pub record RestartArgs : Type 0 where
  pub cluster : String
  pub namespace : String
  pub kind : RestartKind
  pub name : String

unfoldable pub read_restart_args : Request → Result Exc RestartArgs
unfolding read_kind path_param
read_restart_args request = and_then (path_param "cluster" request) λ cluster.
    and_then (path_param "namespace" request) λ namespace.
      and_then (path_param "kind" request) λ kind_param. and_then (read_kind kind_param) λ kind.
        and_then (path_param "name" request)
          λ name. ok (record { cluster = cluster; namespace = namespace; kind = kind; name = name })

pub record DeleteArgs : Type 0 where
  pub cluster : String
  pub namespace : String
  pub api_version : String
  pub kind : String
  pub name : String

-- `api_version` has the default "v1".
unfoldable pub read_delete_args : Request → Result Exc DeleteArgs
unfolding path_param
read_delete_args request = and_then (path_param "cluster" request) λ cluster.
    and_then (path_param "namespace" request) λ namespace.
      and_then (path_param "kind" request) λ kind. and_then (path_param "name" request) λ name.
        ok (record {
          cluster = cluster;
          namespace = namespace;
          api_version = get_or (last_value "api_version" request.query_params) "v1";
          kind = kind;
          name = name;
        })

pub record CronjobArgs : Type 0 where
  pub cluster : String
  pub namespace : String
  pub cronjob : String

unfoldable pub read_cronjob_args : Request → Result Exc CronjobArgs
unfolding path_param
read_cronjob_args request = and_then (path_param "cluster" request) λ cluster.
    and_then (path_param "namespace" request) λ namespace.
      and_then (path_param "cronjob" request)
        λ cronjob. ok (record { cluster = cluster; namespace = namespace; cronjob = cronjob })

module _ (D : Database) where
  unfoldable pub openshift_workload_restart_endpoint :
      RestartArgs → Action → Exec (World D) Exc ActionSchemaOut
  unfolding kind_text
  openshift_workload_restart_endpoint args action =
      submit D openshift_workload_restart
        (("cluster", text args.cluster)
          ∷ ("namespace", text args.namespace)
          ∷ ("kind", text (kind_text args.kind))
          ∷ ("name", text args.name)
          ∷ [])
        action

  unfoldable pub openshift_workload_delete_endpoint :
      DeleteArgs → Action → Exec (World D) Exc ActionSchemaOut
  openshift_workload_delete_endpoint args action =
      submit D openshift_workload_delete
        (("cluster", text args.cluster)
          ∷ ("namespace", text args.namespace)
          ∷ ("api_version", text args.api_version)
          ∷ ("kind", text args.kind)
          ∷ ("name", text args.name)
          ∷ [])
        action

  unfoldable pub openshift_trigger_cronjob_endpoint :
      CronjobArgs → Action → Exec (World D) Exc ActionSchemaOut
  openshift_trigger_cronjob_endpoint args action =
      submit D openshift_trigger_cronjob
        (("cluster", text args.cluster)
          ∷ ("namespace", text args.namespace)
          ∷ ("cronjob", text args.cronjob)
          ∷ [])
        action

  module _ (server : Server D) where
    -- POST /openshift/workload-restart/{cluster}/{namespace}/{kind}/{name}
    abbrev pub post_openshift_workload_restart : Request → Exec (World D) Exc ActionSchemaOut
    post_openshift_workload_restart =
        post_action D server "openshift-workload-restart" read_restart_args
          (openshift_workload_restart_endpoint)

    -- POST /openshift/workload-delete/{cluster}/{namespace}/{kind}/{name}
    abbrev pub post_openshift_workload_delete : Request → Exec (World D) Exc ActionSchemaOut
    post_openshift_workload_delete =
        post_action D server "openshift-workload-delete" read_delete_args
          (openshift_workload_delete_endpoint)

    -- POST /openshift/trigger-cronjob/{cluster}/{namespace}/{cronjob}
    abbrev pub post_openshift_trigger_cronjob : Request → Exec (World D) Exc ActionSchemaOut
    post_openshift_trigger_cronjob =
        post_action D server "openshift-trigger-cronjob" read_cronjob_args
          (openshift_trigger_cronjob_endpoint)
