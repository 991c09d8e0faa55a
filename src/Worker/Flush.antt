-- ===== src/Worker/Flush.antt =====
-- The Celery task of celery/external_resource/tasks.py that flushes an ElastiCache instance, and
-- run_job of openshift_client.py: a job is created in the namespace of the resource, and the task
-- waits for it.
pub mod Contents
pub mod Laws
use automated_actions.Prelude.{ℕ, ◌*◌, String, Bool, Option, none, some, List, [], ◌∷◌}
use automated_actions.Dict.{Dict}
use automated_actions.Text.{◌+++◌}
use automated_actions.Text.Decimal.{show}
use automated_actions.Errors.{Exc, raised, value_error}
use automated_actions.Exec.{Exec, Result, ok, err, pure, lift, ◌>>=◌, ◌>>◌}
use automated_actions.Auth.Request.{truthy}
use automated_actions.Utils.ExternalResource.{
  ExternalResource, ExternalResourceProvider, elasticache, Namespace, get_external_resource,
}
use automated_actions.Utils.Gql.{Transport}
use automated_actions.Utils.Vault.{Hvac}
use automated_actions.Utils.Cluster.{Cluster, ConnectionSettings}
use automated_actions.Utils.Job.{
  SecretKeyRef, secret_key_ref, BuiltSpec, NewJob, JobArgs, job_builder,
}
use automated_actions.Utils.JobWait.{job_wait}
use automated_actions.Worker.Openshift.{KubeClient, connect_to}

-- The settings that the task reads.
pub record ElastiCacheConfig : Type 0 where
  pub image : String
  pub flush_command : List String
  pub flush_command_args : List String
  pub env_secret_mappings : Dict String

-- `{key: SecretKeyRef(secret=secret_name, key=value) for …}`
unfoldable pub env_secrets_of : String → Dict String → Dict SecretKeyRef
env_secrets_of secret_name [] = []
env_secrets_of secret_name ((key, value) ∷ mappings) =
    (key, secret_key_ref secret_name value) ∷ env_secrets_of secret_name mappings

-- The job of `ExternalResourceFlushElastiCache.run`; the rest are the defaults of `job_builder`.
unfoldable pub flush_args : ElastiCacheConfig → String → String → JobArgs
unfolding env_secrets_of
flush_args config action_id secret_name = record {
  image = config.image;
  command = config.flush_command;
  args = some config.flush_command_args;
  job_name = "flush-elasticache";
  backoff_limit = 4;
  annotations = ("automated-actions.action_id", action_id) ∷ [];
  env = none;
  env_secrets = some (env_secrets_of secret_name config.env_secret_mappings);
  auto_cleanup_after_seconds = some 3600;
}

-- `if not elasticache.output_resource_name`
unfoldable pub output_secret : ExternalResource → Result Exc String
unfolding truthy
output_secret found = elim (truthy found.output_resource_name) [
  | some name ↦ ok name
  | none ↦ err (
      raised value_error (
        "Output resource name not defined for " +++ found.identifier +++ " in " +++ found.namespace
        +++ " namespace."))
]

-- `str` of the number of failures
pub failures_text : Option ℕ → String
unfolding show
failures_text none = "None"
failures_text (some n) = show n

module _ (client : KubeClient) where
  open client use {JobSpec, create_job, unique_job_name, serialized, read_job, time, start_time}

  -- A result and the state that it leaves.
  unfoldable pub beside :
      client.Cluster
      → Option (Result Exc (Unit {0}))
      → Option (Result Exc (Unit {0}) × client.Cluster)
  beside s none = none
  beside s (some r) = some (r, s)

  -- `job_wait` of `run_job`, in the state after the job was created.
  unfoldable pub waited :
      ℕ
      → String
      → NewJob JobSpec
      → Result Exc (Unit {0}) × client.Cluster
      → Option (Result Exc (Unit {0}) × client.Cluster)
  unfolding failures_text job_wait beside
  waited fuel namespace job (err e, s) = some (err e, s)
  waited fuel namespace job (ok done, s) = beside s (
      job_wait failures_text job.name (read_job s namespace job.name) (time s) (start_time s)
        (10 * 60) fuel 0)

  -- The job as it is sent.
  abbrev pub sent : NewJob BuiltSpec → NewJob JobSpec
  sent job = record { name = job.name; annotations = job.annotations; spec = serialized job.spec }

  -- `OpenshiftClient.run_job`; `none` means that the fuel of the wait ran out.
  unfoldable pub run_job :
      ℕ
      → String
      → NewJob BuiltSpec
      → client.Cluster
      → Option (Result Exc (Unit {0}) × client.Cluster)
  unfolding waited
  run_job fuel namespace job s =
      waited fuel namespace (sent job) (create_job namespace (sent job) s)

  -- What the task does with the job that it has made, if it has come so far.
  unfoldable pub run_prepared :
      ℕ
      → Result Exc (String × NewJob BuiltSpec) × client.Cluster
      → Option (Result Exc (Unit {0}) × client.Cluster)
  unfolding run_job
  run_prepared fuel (err e, s) = some (err e, s)
  run_prepared fuel (ok (namespace, job), s) = run_job fuel namespace job s

  module _ (clusters_query : Transport → String → Result Exc (Option (List Cluster))) (hvac : Hvac)
      (settings : ConnectionSettings) (config : ElastiCacheConfig)
      (namespaces : Option (List Namespace)) where
    -- The task up to the job and the namespace that it is to run in.
    unfoldable pub prepare_flush :
        String → String → String → Exec client.Cluster Exc (String × NewJob BuiltSpec)
    unfolding get_external_resource connect_to output_secret flush_args job_builder
    prepare_flush account identifier action_id = do
      found ← lift (get_external_resource account identifier elasticache namespaces)
      connect_to client clusters_query hvac settings found.cluster
      secret_name ← lift (output_secret found)
      job ← job_builder unique_job_name (flush_args config action_id secret_name)
      pure (found.namespace, job)

    -- `external_resource_flush_elasticache`
    unfoldable pub flush_elasticache_task :
        ℕ
        → String
        → String
        → String
        → client.Cluster
        → Option (Result Exc (Unit {0}) × client.Cluster)
    unfolding prepare_flush run_prepared
    flush_elasticache_task fuel account identifier action_id s =
        run_prepared fuel (prepare_flush account identifier action_id s)
