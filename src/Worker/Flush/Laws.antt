-- ===== src/Worker/Flush/Laws.antt =====
-- Which job a flush runs, that the task ends, and what it means that it succeeded.
use automated_actions.Prelude.{
  ℕ, suc, ◌*◌, ◌≤◌, ◌<◌, String, ◌≡◌, refl, sym, ap, Option, none, some, List, arith,
}
use automated_actions.Errors.{Exc}
use automated_actions.Exec.{lift, Result, ok, err, bind-ok, ok-injective}
use automated_actions.Auth.Request.{truthy}
use automated_actions.Utils.ExternalResource.{
  ExternalResource, elasticache, Namespace, get_external_resource,
}
use automated_actions.Utils.Gql.{Transport}
use automated_actions.Utils.Vault.{Hvac}
use automated_actions.Utils.Cluster.{Cluster, ConnectionSettings}
use automated_actions.Utils.Job.{BuiltSpec, NewJob, job_builder}
use automated_actions.Utils.JobWait.Laws.{job_wait-EndsAt}
use automated_actions.Utils.JobWait.Success.{HasSucceeded, job_wait-ok}
use automated_actions.Worker.Openshift.{KubeClient, connect_to}
use automated_actions.Worker.Flush.{
  ElastiCacheConfig, flush_args, output_secret, waited, beside, sent, run_job, run_prepared,
  prepare_flush, flush_elasticache_task, failures_text,
}
use automated_actions.Worker.Flush.Contents.{IsFlushJob, job_builder-IsFlushJob, output_secret-ok}

module _ (client : KubeClient) where
  -- The wait begins before its first round, and each round starts later than the one before.
  pub record IsTicking : Type 0 where
    pub begins : (s : client.Cluster) → client.start_time s ≤ client.time s 0
    pub grows : (s : client.Cluster) (k : ℕ) → client.time s k < client.time s (suc k)

  Ended : Option (Result Exc (Unit {0}) × client.Cluster) → Type 0
  Ended o = (r : Result Exc (Unit {0})) × (s : client.Cluster) × (o ≡ some (r, s))

  waited-Ended :
      IsTicking
      → (namespace : String) (job : NewJob client.JobSpec)
        (created : Result Exc (Unit {0}) × client.Cluster)
      → Ended (waited client 602 namespace job created)
  unfolding waited Ended beside
  waited-Ended ticking namespace job (err e, s) = (err e, s, refl)
  waited-Ended ticking namespace job (ok done, s) =
      let (r, e, _) =
        job_wait-EndsAt failures_text job.name (client.read_job s namespace job.name)
          (client.time s) (client.start_time s) (10 * 60) 601 0 (ticking.grows s)
          (let b = ticking.begins s in omega arith) in
      (r, s, ap (beside client s) e)

  run_prepared-Ended :
      IsTicking
      → (prepared : Result Exc (String × NewJob BuiltSpec) × client.Cluster)
      → Ended (run_prepared client 602 prepared)
  unfolding run_prepared run_job Ended
  run_prepared-Ended ticking (err e, s) = (err e, s, refl)
  run_prepared-Ended ticking (ok (namespace, job), s) =
      waited-Ended ticking namespace (sent client job) _

  -- A job of the name in the namespace was read, in some round, and had succeeded.
  pub Succeeds : client.Cluster → String → String → Type 0
  Succeeds s namespace name =
      (k : ℕ) × HasSucceeded failures_text name (client.read_job s namespace name k)

  beside-ok :
      (s t : client.Cluster) (o : Option (Result Exc (Unit {0})))
      → beside client s o ≡ some (ok tt, t)
      → (o ≡ some (ok tt)) × (s ≡ t)
  unfolding beside
  beside-ok s t none h = cc
  beside-ok s t (some r) h = (cc, cc)

  waited-Succeeds :
      (fuel : ℕ) (namespace : String) (job : NewJob client.JobSpec)
      (created : Result Exc (Unit {0}) × client.Cluster) (t : client.Cluster)
      → waited client fuel namespace job created ≡ some (ok tt, t)
      → (created ≡ (ok tt, t)) × Succeeds t namespace job.name
  unfolding waited Succeeds
  waited-Succeeds fuel namespace job (err e, s) t h = cc
  waited-Succeeds fuel namespace job (ok done, s) t h =
      let (ended, same) = beside-ok s t _ h in
      (
        ap (λ x. (ok done, x)) same,
        rw (← same) (job_wait-ok failures_text job.name _ _ _ _ fuel 0 ended),
      )

  prepared-Succeeds :
      (fuel : ℕ) (t : client.Cluster)
      (prepared : Result Exc (String × NewJob BuiltSpec) × client.Cluster)
      → run_prepared client fuel prepared ≡ some (ok tt, t)
      → (namespace : String) × (job : NewJob BuiltSpec) × (u : client.Cluster) × (prepared
          ≡ (ok (namespace, job), u))
        × (client.create_job namespace (sent client job) u ≡ (ok tt, t))
        × Succeeds t namespace job.name
  unfolding run_prepared run_job
  prepared-Succeeds fuel t (err e, u) h = cc
  prepared-Succeeds fuel t (ok (namespace, job), u) h =
      let (created, success) = waited-Succeeds fuel namespace (sent client job) _ t h in
      (namespace, job, u, refl, created, success)

  module _ (clusters_query : Transport → String → Result Exc (Option (List Cluster))) (hvac : Hvac)
      (settings : ConnectionSettings) (config : ElastiCacheConfig)
      (namespaces : Option (List Namespace)) (account identifier action_id : String)
      (s : client.Cluster) where
    -- The flush always ends, with a result or an exception, where the clock goes on while the task
    -- waits: a round for each second of the ten minutes and two more are enough.
    pub flush_elasticache_task-ends :
        IsTicking
        → (r : Result Exc (Unit {0})) × (t : client.Cluster) × (flush_elasticache_task client
              clusters_query hvac settings config namespaces 602 account identifier action_id s
            ≡ some (r, t))
    unfolding flush_elasticache_task Ended
    flush_elasticache_task-ends ticking = run_prepared-Ended ticking _

    -- The job that a flush runs: it is for a resource of app-interface with an output resource, in
    -- the namespace of the resource, with the settings' image and command, the action's identifier
    -- as its annotation, and the settings' environment read from that output resource.
    pub prepare_flush-ok :
        (namespace : String) (job : NewJob BuiltSpec)
        → (prepare_flush client clusters_query hvac settings config namespaces account identifier
            action_id s).0
          ≡ ok (namespace, job)
        → (found : ExternalResource) × (secret : String) × (get_external_resource account identifier
              elasticache namespaces
            ≡ ok found)
          × (truthy found.output_resource_name ≡ some secret)
          × (namespace ≡ found.namespace)
          × IsFlushJob config action_id secret job
    unfolding prepare_flush
    prepare_flush-ok namespace job h =
        let (found, is_found, h1) =
          bind-ok (lift (get_external_resource account identifier elasticache namespaces)) _ s h in
        let (_, connected, h2) =
          bind-ok (connect_to client clusters_query hvac settings found.cluster) _ _ h1 in
        let (secret, named, h3) = bind-ok (lift (output_secret found)) _ _ h2 in
        let (made, is_made, h4) =
          bind-ok (job_builder client.unique_job_name (flush_args config action_id secret)) _ _
            h3 in
        let e = ok-injective h4 in
        (
          found,
          secret,
          is_found,
          output_secret-ok found secret named,
          sym (ap (λ p. p.0) e),
          rw (← ap (λ (p : String × NewJob BuiltSpec). p.1) e) (
              job_builder-IsFlushJob config action_id secret client.unique_job_name made _ is_made),
        )

    -- A flush that returned has made a job and the API server has taken it, and a read of that job
    -- in its namespace showed that it had succeeded.
    pub flush_elasticache_task-Succeeds :
        (fuel : ℕ) (t : client.Cluster)
        → flush_elasticache_task client clusters_query hvac settings config namespaces fuel account
            identifier action_id s
          ≡ some (ok tt, t)
        → (namespace : String) × (job : NewJob BuiltSpec) × (u : client.Cluster) × (prepare_flush
              client clusters_query hvac settings config namespaces account identifier action_id s
            ≡ (ok (namespace, job), u))
          × (client.create_job namespace (sent client job) u ≡ (ok tt, t))
          × Succeeds t namespace job.name
    unfolding flush_elasticache_task run_prepared run_job
    flush_elasticache_task-Succeeds fuel t h =
        prepared-Succeeds fuel t
          (prepare_flush client clusters_query hvac settings config namespaces account identifier
            action_id s)
          h
