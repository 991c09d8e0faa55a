-- ===== src/Api/Openshift/Authorized.antt =====
-- The arguments that the policy engine judges, and those that go to the worker.
use automated_actions.Prelude.{
  String, ◌≡◌, refl, ap, ◌++◌, ◌∙◌, sym, false, none, some, List, [], ◌∷◌, arith, get_or,
  Option-cases, inl, inr,
}
use automated_actions.Dict.{Dict, lookup, last_value}
use automated_actions.Exec.{Result, ok, and_then-ok, ok-injective}
use automated_actions.Auth.Request.{Request, QueryField}
use automated_actions.Auth.Opa.{opa_params}
use automated_actions.Auth.Opa.Params.{lookup-opa_params}
use automated_actions.Errors.{Exc}
use automated_actions.Db.Schema.{Arg, text, openshift_workload_delete, User}
use automated_actions.Db.World.{Database, World, Message}
use automated_actions.Api.{Server, path_param, authorized_user}
use automated_actions.Api.Submit.{
  fresh_action, message_of, post_action-IsSubmitted, authorized_user-Preserves,
}
use automated_actions.Api.Openshift.{
  DeleteArgs, read_delete_args, openshift_workload_delete_endpoint, post_openshift_workload_delete,
}

-- The query fields of the endpoint for deleting a workload.
abbrev pub delete_fields : List QueryField
delete_fields = record { alias = "api_version"; is_required = false; default = some "v1" } ∷ []

path_param-ok :
    (key : String) (request : Request) (value : String)
    → path_param key request ≡ ok value
    → lookup key request.path_params ≡ some value
unfolding path_param
path_param-ok key request value h = ground arith

-- The query string has no key that is a parameter of the path.
pub record IsUnshadowed (request : Request) : Type 0 where
  pub cluster : last_value "cluster" request.query_params ≡ none
  pub namespace : last_value "namespace" request.query_params ≡ none
  pub kind : last_value "kind" request.query_params ≡ none
  pub name : last_value "name" request.query_params ≡ none
  pub api_version : lookup "api_version" request.path_params ≡ none

-- An argument of a queued task is what the engine is given under its name.
abbrev pub IsJudged : String → Request → Message → Type 0
IsJudged key request m =
    (value : String) × (lookup key m.kwargs ≡ some (text value))
    × (lookup key (opa_params request []) ≡ some value)

-- The engine is given the arguments of a queued deletion.
pub record Judges (request : Request) (m : Message) : Type 0 where
  pub task : m.task ≡ openshift_workload_delete
  pub cluster : IsJudged "cluster" request m
  pub namespace : IsJudged "namespace" request m
  pub kind : IsJudged "kind" request m
  pub name : IsJudged "name" request m
  pub api_version : IsJudged "api_version" request m

read_delete_args-paths :
    (request : Request) (args : DeleteArgs)
    → read_delete_args request ≡ ok args
    → (lookup "cluster" request.path_params ≡ some args.cluster)
      × (lookup "namespace" request.path_params ≡ some args.namespace)
      × (lookup "kind" request.path_params ≡ some args.kind)
      × (lookup "name" request.path_params ≡ some args.name)
      × (args.api_version ≡ get_or (last_value "api_version" request.query_params) "v1")
unfolding read_delete_args
read_delete_args-paths request args h =
    let (c, ec, h1) = and_then-ok (path_param "cluster" request) _ h in
    let (n, en, h2) = and_then-ok (path_param "namespace" request) _ h1 in
    let (k, ek, h3) = and_then-ok (path_param "kind" request) _ h2 in
    let (m, em, h4) = and_then-ok (path_param "name" request) _ h3 in
    let same = ok-injective h4 in
    (
      path_param-ok "cluster" request c ec ∙ ap (λ (a : DeleteArgs). some a.cluster) same,
      path_param-ok "namespace" request n en ∙ ap (λ (a : DeleteArgs). some a.namespace) same,
      path_param-ok "kind" request k ek ∙ ap (λ (a : DeleteArgs). some a.kind) same,
      path_param-ok "name" request m em ∙ ap (λ (a : DeleteArgs). some a.name) same,
      ap (λ (a : DeleteArgs). a.api_version) (sym same),
    )

from_path :
    (key value : String) (request : Request)
    → last_value key request.query_params ≡ none
    → lookup key request.path_params ≡ some value
    → lookup key (opa_params request []) ≡ some value
unfolding last_value
from_path key value request unshadowed found =
    lookup-opa_params key request [] ∙ rw unshadowed (rw found)

version_judged :
    (request : Request)
    → request.route.query_fields ≡ delete_fields
    → lookup "api_version" request.path_params ≡ none
    → lookup "api_version" (opa_params request [])
      ≡ some (get_or (last_value "api_version" request.query_params) "v1")
unfolding last_value
version_judged request fields absent =
    lookup-opa_params "api_version" request []
    ∙ rw absent (
        rw fields (elim (Option-cases (last_value "api_version" request.query_params)) [
          | inl e ↦ rw e
          | inr (v, e) ↦ rw e
        ]))

-- The arguments of the task of a deletion.
abbrev delete_kwargs : DeleteArgs → Dict Arg
delete_kwargs args =
    ("cluster", text args.cluster)
    ∷ ("namespace", text args.namespace)
    ∷ ("api_version", text args.api_version)
    ∷ ("kind", text args.kind)
    ∷ ("name", text args.name)
    ∷ []

module _ (D : Database) (server : Server D) (request : Request) (args : DeleteArgs) (user : User)
    (w w' : World D) (authorized : authorized_user D server request w ≡ (ok user, w'))
    (valid : read_delete_args request ≡ ok args) where
  queued_delete : Message
  queued_delete =
      message_of openshift_workload_delete (delete_kwargs args)
        (fresh_action D w' "openshift-workload-delete" user)

  delete-queue :
      (post_openshift_workload_delete D server request w).1.queue ≡ w.queue ++ queued_delete ∷ []
  unfolding queued_delete openshift_workload_delete_endpoint
  delete-queue =
      (post_action-IsSubmitted D server "openshift-workload-delete" read_delete_args
        (openshift_workload_delete_endpoint D) request w w' user args openshift_workload_delete
        (delete_kwargs args) authorized valid (λ action. refl)).queued
      ∙ ap (λ queue. queue ++ queued_delete ∷ [])
          (ap (λ (run : Result Exc User × World D). run.1.queue) (sym authorized)
            ∙ ap (λ v. v.1) ((authorized_user-Preserves D server request).at w))

  -- A request for the deletion of a workload that is authorized and has valid arguments, on a route
  -- with the query fields of the endpoint: if no key of the query string is a parameter of the path,
  -- one message is queued, for the task that deletes, and each of its arguments is what the policy
  -- engine is given under that name, the API version included, whether it is given or left to its
  -- default.
  pub delete-Judges :
      request.route.query_fields ≡ delete_fields
      → IsUnshadowed request
      → (m : Message) × ((post_openshift_workload_delete D server request w).1.queue
          ≡ w.queue ++ m ∷ [])
        × Judges request m
  unfolding queued_delete lookup
  delete-Judges fields plain =
      let (cluster, namespace, kind, name, version) = read_delete_args-paths request args valid in
      (
        queued_delete,
        delete-queue,
        record {
          task = refl;
          cluster = (args.cluster, refl, from_path "cluster" _ request plain.cluster cluster);
          namespace =
              (args.namespace, refl, from_path "namespace" _ request plain.namespace namespace);
          kind = (args.kind, refl, from_path "kind" _ request plain.kind kind);
          name = (args.name, refl, from_path "name" _ request plain.name name);
          api_version = (
            args.api_version,
            refl,
            version_judged request fields plain.api_version ∙ ap (λ v. some v) (sym version),
          );
        },
      )

  -- A request for the deletion of a workload that is authorized and has valid arguments: a namespace
  -- in the query string hides the one of the path from the policy engine. The engine is given the
  -- namespace of the query string, while one message is queued whose namespace is that of the path.
  pub delete_shadowed :
      (value : String)
      → last_value "namespace" request.query_params ≡ some value
      → (m : Message) × (namespace : String) × ((post_openshift_workload_delete D server request
            w).1.queue
          ≡ w.queue ++ m ∷ [])
        × (lookup "namespace" m.kwargs ≡ some (text namespace))
        × (lookup "namespace" request.path_params ≡ some namespace)
        × (lookup "namespace" (opa_params request []) ≡ some value)
  unfolding last_value queued_delete lookup
  delete_shadowed value shadow =
      let (cluster, namespace, kind, name, version) = read_delete_args-paths request args valid in
      (
        queued_delete,
        args.namespace,
        delete-queue,
        refl,
        namespace,
        lookup-opa_params "namespace" request [] ∙ rw shadow,
      )
