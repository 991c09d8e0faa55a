-- ===== src/Tests/Jobs.antt =====
-- The theorems on the worker at concrete tasks.
use mathlib.Core.List.{not-mem-nil}
use automated_actions.Prelude.{
  ltb, ◌<◌, ap, ℕ, suc, ◌*◌, ◌≡◌, refl, String, true, none, some, [], ◌∷◌, eqb, arith,
  if◌then◌else◌,
}
use automated_actions.Dict.{Dict}
use automated_actions.Errors.{
  Exc, api_exception, raised, external_resource_error, pod_deletion_not_supported,
}
use automated_actions.Exec.{Result, ok, err}
use automated_actions.Db.Schema.{success, Arg, text, object}
use automated_actions.Db.World.{World}
use automated_actions.Db.Memory.{find}
use automated_actions.Worker.Task.{Exit, returned, asked_retry, outcome}
use automated_actions.Worker.Delivery.{deliver}
use automated_actions.Worker.Rds.Polling.{deliver_polled}
use automated_actions.Worker.Delivery.Laws.{IsFinal}
use automated_actions.Worker.Rds.{RdsClient}
use automated_actions.Worker.Openshift.{Pod, KubeClient, restart_workload}
use automated_actions.Worker.Openshift.Laws.{restart_workload-orphan}
use automated_actions.Utils.ExternalResource.{
  VaultSecret, ExternalResource, rds, Resource, Provisioner, aws, other, Namespace,
  external_resource, get_external_resource,
}
use automated_actions.Utils.ExternalResource.Search.{
  IsListed, get_external_resource-ok, get_external_resource-err,
}
use automated_actions.Utils.JobWait.{Job, job_wait}
use automated_actions.Utils.JobWait.Laws.{EndsAt, job_wait-EndsAt}
use automated_actions.Tests.Setup.{an_action, database, world, celery}

abbrev undisturbed : ℕ → World database → World database
undisturbed n w = w

abbrev kwargs : Dict Arg
kwargs = ("namespace", text "shop") ∷ ("action", object "a-7") ∷ []

-- The instance is ready in the second attempt.
abbrev exceeded : Exc
exceeded = Exc.library "Can't retry external-resource-rds-start[1] args:() kwargs:{}"

abbrev polling : ℕ → Exit
polling n = if ltb n 1 then asked_retry exceeded else returned

polling-waits : (i : ℕ) → i < 1 → polling i ≡ asked_retry exceeded
polling-waits i h = ground arith

polled_once :
    (w' : World database) × (deliver database celery 60 polling undisturbed an_action kwargs 61 0
        world
      ≡ some w')
    × IsFinal database celery 60 polling undisturbed an_action kwargs w' success "ok"
unfolding find
polled_once =
    deliver_polled exceeded database celery 60 polling undisturbed an_action kwargs 61 1 world
      an_action (λ n w b h. (b, h)) refl (omega arith) (omega arith)
      (record { waits = λ i l h. ap outcome (polling-waits i h); ready = refl })

abbrev secret : VaultSecret
secret = record { path = "aws/creds"; field = "all"; version = some 3; q_format = none }

abbrev pub provisioner : Provisioner
provisioner = record {
  name = "acme";
  automation_token = secret;
  resources_default_region = "us-east-1";
}

abbrev pub resource : Resource
resource = record {
  provider = "rds";
  identifier = "orders";
  output_resource_name = none;
  details = some (record { region = none; delete = none });
}

abbrev deleted_resource : Resource
deleted_resource = record resource { details = some (record { region = none; delete = some true }) }

abbrev pub namespace_of : Resource → Namespace
namespace_of r = record {
  name = "shop";
  delete = none;
  external_resources = some (other ∷ aws provisioner (deleted_resource ∷ r ∷ []) ∷ []);
  cluster = "east";
}

abbrev pub orders : ExternalResource
orders = record {
  identifier = "orders";
  region = none;
  account = record { name = "acme"; automation_token = secret; region = "us-east-1" };
  cluster = "east";
  namespace = "shop";
  output_resource_name = none;
}

get_external_resource-ok_example :
    (n : Namespace) × (p : Provisioner) × (r : Resource) × IsListed "acme" "orders" rds
      (namespace_of resource ∷ [])
      n
      p
      r
    × (orders ≡ external_resource "acme" "orders" rds n p r)
unfolding get_external_resource
get_external_resource-ok_example =
    get_external_resource-ok "acme" "orders" rds (namespace_of resource ∷ []) orders refl

get_external_resource-err_example :
    ¬ IsListed "acme" "orders" rds
      (namespace_of deleted_resource ∷ [])
      (namespace_of deleted_resource)
      provisioner
      deleted_resource
unfolding get_external_resource
get_external_resource-err_example =
    get_external_resource-err "acme" "orders" rds (namespace_of deleted_resource ∷ [])
      (raised external_resource_error "External resource orders not found in account acme.")
      (namespace_of deleted_resource) provisioner deleted_resource refl

-- A client of one instance, whose status is the state.
abbrev pub client : RdsClient
client = record {
  Cloud = String;
  describe = λ identifier s. (ok (s ∷ []), s);
  start_db_instance = λ identifier s. (ok tt, "starting");
  stop_db_instance = λ identifier s. (ok tt, "stopping");
  reboot_db_instance = λ identifier force s. (ok tt, "rebooting");
  create_db_snapshot = λ identifier snapshot s. (ok tt, "backing-up");
  connect = λ credentials config s. (ok tt, s);
  close = λ s. s;
  Event = String;
  describe_events = λ identifier source duration s. (ok [], s);
}

-- The job is not there at first, and has succeeded in the second round.
abbrev read : ℕ → Result Exc Job
read n =
    if eqb n 0
    then err (api_exception 404 "not found")
    else ok (record {
      status = some (record { succeeded = some 1; failed = none });
      backoff_limit = some 4;
    })

job_wait-EndsAt_example :
    (result : Result Exc (Unit {0})) × (job_wait (λ n. "some") "job" read (λ n. n * 5) 0 10 12 0
      ≡ some result)
    × EndsAt (λ n. "some") "job" read (λ n. n * 5) 0 10 0 result
job_wait-EndsAt_example =
    job_wait-EndsAt (λ n. "some") "job" read (λ n. n * 5) 0 10 11 0 (λ k. omega arith) (omega arith)

abbrev orphan : Pod
orphan = record { owner_references = none }

abbrev pub succeeded_job : Result Exc Job
succeeded_job = ok (record {
  status = some (record { succeeded = some 1; failed = none });
  backoff_limit = some 4;
})

-- A cluster that counts the deletions.
abbrev pub kube : KubeClient
kube = record {
  Cluster = ℕ;
  JobSpec = String;
  find_api = λ api_version kind s. (ok tt, s);
  patch = λ kind namespace name s. (ok tt, s);
  get_pod = λ namespace name s. (ok orphan, s);
  delete = λ api_version kind namespace name s. (ok tt, suc s);
  read_cron_job = λ namespace name s. (ok none, s);
  create_job = λ namespace job s. (ok tt, s);
  unique_job_name = λ name s. (ok name, s);
  connect = λ server_url token s. (ok tt, s);
  serialized = λ spec. spec.container.image;
  read_job = λ s namespace name n. succeeded_job;
  time = λ s n. n * 5;
  start_time = λ s. 0;
}

restart_workload-orphan_example :
    ((text : String) × ((restart_workload kube "shop" "Pod" "once" 0).0
        ≡ err (raised pod_deletion_not_supported text)))
    × ((restart_workload kube "shop" "Pod" "once" 0).1 ≡ 0)
restart_workload-orphan_example =
    restart_workload-orphan kube "shop" "once" 0 0 0 orphan refl refl
      (λ kind m. absurd (not-mem-nil m))
