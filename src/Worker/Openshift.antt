-- ===== src/Worker/Openshift.antt =====
-- celery/openshift/tasks.py and openshift_client.py: restarting and deleting workloads and
-- triggering cron jobs. The Kubernetes client is a parameter with a state of its own.
pub mod Laws
use automated_actions.Prelude.{
  ℕ, String, Bool, true, false, ◌||◌, Option, none, some, List, [], ◌∷◌, ◌==◌, if◌then◌else◌, any,
  get_or,
}
use automated_actions.Dict.{Dict}
use automated_actions.Text.{◌+++◌}
use automated_actions.Errors.{
  Exc, raised, resource_not_found, pod_deletion_not_supported, kind_not_supported, assertion_error,
}
use automated_actions.Exec.{Exec, Result, ok, err, pure, raise, lift, catch, ◌>>=◌, ◌>>◌}
use automated_actions.Utils.JobWait.{is_not_found, Job}
use automated_actions.Utils.Job.{NewJob, BuiltSpec}
use automated_actions.Utils.Gql.{Transport}
use automated_actions.Utils.Vault.{Hvac}
use automated_actions.Utils.Cluster.{Cluster, ConnectionSettings, get_cluster_connection_data}

-- The kinds of the owners that a pod has.
pub record Pod : Type 0 where
  pub owner_references : Option (List (Option String))

pub record KubeClient : Type 1 where
  pub Cluster : Type 0
  pub JobSpec : Type 0
  -- `OpenshiftClient.__init__`: server URL and token of the cluster that is acted on from then on
  pub connect : String → String → Exec Cluster Exc (Unit {0})
  -- `dyn_client.resources.get(api_version, kind)`
  pub find_api : String → String → Exec Cluster Exc (Unit {0})
  -- kind, namespace and name of what is annotated with the time of the restart
  pub patch : String → String → String → Exec Cluster Exc (Unit {0})
  pub get_pod : String → String → Exec Cluster Exc Pod
  -- API version, kind, namespace and name
  pub delete : String → String → String → String → Exec Cluster Exc (Unit {0})
  -- the specification of the job template, which may be missing
  pub read_cron_job : String → String → Exec Cluster Exc (Option JobSpec)
  pub create_job : String → NewJob JobSpec → Exec Cluster Exc (Unit {0})
  pub unique_job_name : String → Exec Cluster Exc String
  -- a specification that job_builder made, as it is sent
  pub serialized : BuiltSpec → JobSpec
  -- the answers to the reads of a job in a namespace, the time at which each is made, and the time
  -- when the wait begins
  pub read_job : Cluster → String → String → ℕ → Result Exc Job
  pub time : Cluster → ℕ → ℕ
  pub start_time : Cluster → ℕ

-- `kind in RollingRestartResource`
unfoldable pub is_rolling : String → Bool
is_rolling kind = (kind == "Deployment") || ((kind == "StatefulSet") || (kind == "DaemonSet"))

-- The test of `OpenshiftWorkloadRestart.__init__`
unfoldable pub is_supported : String → Bool
unfolding is_rolling
is_supported kind = is_rolling kind || (kind == "Pod")

-- `reference.get("kind") in SUPPORTED_POD_OWNERS`
unfoldable pub is_supported_owner : Option String → Bool
is_supported_owner none = false
is_supported_owner (some kind) = (kind == "ReplicaSet") || (kind == "StatefulSet")

-- `has_pod_proper_owner`
unfoldable pub has_proper_owner : Pod → Bool
unfolding is_supported_owner
has_proper_owner pod = any is_supported_owner (get_or pod.owner_references [])

-- `except NotFoundError`
unfoldable pub not_found_as : {S A : Type 0} → String → Exc → Exec S Exc A
unfolding is_not_found
not_found_as text e = if is_not_found e then raise (raised resource_not_found text) else raise e

module _ (client : KubeClient) where
  open client use {
    JobSpec, find_api, patch, get_pod, delete, read_cron_job, create_job, unique_job_name,
  }

  -- `OpenshiftClient.rolling_restart`
  unfoldable pub rolling_restart : String → String → String → Exec client.Cluster Exc (Unit {0})
  unfolding not_found_as
  rolling_restart kind name namespace = do
    find_api "apps/v1" kind
    catch (patch kind namespace name)
        (not_found_as (kind +++ " " +++ name +++ " does not exist in namespace " +++ namespace))

  -- What follows the read of the pod.
  unfoldable pub delete_pod : String → String → Pod → Exec client.Cluster Exc (Unit {0})
  unfolding has_proper_owner
  delete_pod name namespace pod =
      if has_proper_owner pod
      then delete "v1" "Pod" namespace name
      else raise (
          raised pod_deletion_not_supported (
            "Pod '" +++ name +++ "' in namespace '" +++ namespace
            +++ "' cannot be deleted as it does not belong to a ReplicaSet, StatefulSet."))

  -- `OpenshiftClient.delete_pod_from_replicated_resource`
  unfoldable pub delete_pod_from_replicated_resource :
      String → String → Exec client.Cluster Exc (Unit {0})
  unfolding not_found_as delete_pod
  delete_pod_from_replicated_resource name namespace = do
    find_api "v1" "Pod"
    pod ←
        catch (get_pod namespace name)
          (not_found_as ("Pod " +++ name +++ " does not exist in namespace " +++ namespace))
    delete_pod name namespace pod

  -- `OpenshiftClient.delete`
  unfoldable pub delete_resource :
      String → String → String → String → Exec client.Cluster Exc (Unit {0})
  delete_resource namespace api_version kind name = do
    find_api api_version kind
    delete api_version kind namespace name

  -- The assertions of `trigger_cronjob`
  spec_of : Option JobSpec → Result Exc JobSpec
  spec_of none = err (raised assertion_error "")
  spec_of (some spec) = ok spec

  -- `OpenshiftClient.trigger_cronjob`, which does not wait for the job.
  unfoldable pub trigger_cronjob :
      String → String → Dict String → Exec client.Cluster Exc (Unit {0})
  unfolding not_found_as spec_of
  trigger_cronjob namespace cronjob annotations = do
    template ←
        catch (read_cron_job namespace cronjob)
          (not_found_as ("CronJob " +++ cronjob +++ " does not exist in namespace " +++ namespace))
    spec ← lift (spec_of template)
    name ← unique_job_name ("aa-triggered-" +++ cronjob)
    create_job namespace (record { name = name; annotations = annotations; spec = spec })

  -- `OpenshiftWorkloadRestart`: the constructor refuses a kind that is not supported, and `run`
  -- restarts the workload.
  unfoldable pub restart_workload : String → String → String → Exec client.Cluster Exc (Unit {0})
  unfolding is_supported is_rolling rolling_restart delete_pod_from_replicated_resource
  restart_workload namespace kind name =
      if is_supported kind
      then (if is_rolling kind
          then rolling_restart kind name namespace
          else delete_pod_from_replicated_resource name namespace)
      else raise (raised kind_not_supported ("kind '" +++ kind +++ "' not supported"))

  -- `OpenshiftTriggerCronjob.run`
  unfoldable pub run_trigger : String → String → String → Exec client.Cluster Exc (Unit {0})
  unfolding trigger_cronjob
  run_trigger action_id namespace cronjob =
      trigger_cronjob namespace cronjob (("automated-actions.action_id", action_id) ∷ [])

  -- `OpenshiftWorkloadDelete.run`
  unfoldable pub run_delete : String → String → String → String → Exec client.Cluster Exc (Unit {0})
  unfolding delete_resource
  run_delete namespace api_version kind name = delete_resource namespace api_version kind name

-- The three Celery tasks, with the query for a cluster, Vault and the settings.
module _ (client : KubeClient)
    (clusters_query : Transport → String → Result Exc (Option (List Cluster))) (hvac : Hvac)
    (settings : ConnectionSettings) where
  open client use {connect}

  -- The lookup of the cluster, and the client for it.
  unfoldable pub connect_to : String → Exec client.Cluster Exc (Unit {0})
  unfolding get_cluster_connection_data
  connect_to cluster = do
    connection ← lift (get_cluster_connection_data clusters_query hvac settings cluster)
    connect connection.url connection.token

  unfoldable pub workload_restart_task :
      String → String → String → String → Exec client.Cluster Exc (Unit {0})
  unfolding restart_workload connect_to
  workload_restart_task cluster namespace kind name = do
    connect_to cluster
    restart_workload client namespace kind name

  unfoldable pub workload_delete_task :
      String → String → String → String → String → Exec client.Cluster Exc (Unit {0})
  unfolding run_delete connect_to
  workload_delete_task cluster namespace api_version kind name = do
    connect_to cluster
    run_delete client namespace api_version kind name

  unfoldable pub trigger_cronjob_task :
      String → String → String → String → Exec client.Cluster Exc (Unit {0})
  unfolding run_trigger connect_to
  trigger_cronjob_task cluster namespace cronjob action_id = do
    connect_to cluster
    run_trigger client action_id namespace cronjob
