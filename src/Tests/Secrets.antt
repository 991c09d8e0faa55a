-- ===== src/Tests/Secrets.antt =====
-- The theorems on Vault, clusters, credentials and the flush at concrete secrets.
use automated_actions.Prelude.{ℕ, ◌≡◌, refl, String, Option, none, some, List, [], ◌∷◌, arith}
use automated_actions.Dict.{Dict}
use automated_actions.Errors.{Exc}
use automated_actions.Exec.{Result, ok}
use automated_actions.Auth.Request.{truthy}
use automated_actions.Utils.ExternalResource.{
  VaultSecret, ExternalResource, elasticache, Resource, Namespace, get_external_resource,
}
use automated_actions.Utils.Gql.{Transport}
use automated_actions.Utils.Vault.{Hvac, plain, versioned, VaultSettings, read_secret}
use automated_actions.Utils.Vault.Laws.{IsStoredAt, read_secret-IsStored}
use automated_actions.Utils.Cluster.{Cluster, ConnectionSettings, get_cluster_connection_data}
use automated_actions.Utils.Cluster.Laws.{IsConnection, get_cluster_connection_data-IsConnection}
use automated_actions.Utils.Job.{NewJob, BuiltSpec, built_spec}
use automated_actions.Utils.JobWait.{round}
use automated_actions.Worker.Flush.{
  ElastiCacheConfig, flush_args, sent, prepare_flush, flush_elasticache_task,
}
use automated_actions.Worker.Flush.Contents.{IsFlushJob}
use automated_actions.Worker.Flush.Laws.{
  IsTicking, Succeeds, flush_elasticache_task-ends, flush_elasticache_task-Succeeds,
  prepare_flush-ok,
}
use automated_actions.Tests.Jobs.{client, kube, namespace_of, resource}

-- A Vault with the engine 2 under every mount point and the same secret at every path.
abbrev content : Dict String
content = ("aws_access_key_id", "id") ∷ ("aws_secret_access_key", "key") ∷ ("token", "t-1") ∷ []

abbrev hvac : Hvac
hvac = record {
  Client = Unit;
  approle_login = λ url role_id secret_id. ok tt;
  kubernetes_login = λ url role jwt mount. ok tt;
  mount_version = λ client mount. ok "2";
  read_v1 = λ client mount path. ok (plain (some content));
  read_v2 = λ client mount path version. ok (versioned (some content) (ok "3"));
  environ = λ name. none;
  read_text = λ path. ok "jwt";
}

abbrev vault : VaultSettings
vault = record {
  vault_server_url = "https://vault";
  vault_role_id = some "role";
  vault_secret_id = some "secret";
  vault_kube_auth_role = none;
  vault_kube_auth_mount = none;
}

read_secret-IsStored_example : IsStoredAt hvac tt "app-sre/creds/east" (some "3") content
unfolding read_secret
read_secret-IsStored_example =
    read_secret-IsStored hvac tt "app-sre/creds/east" (some "3") content refl

abbrev settings : ConnectionSettings
settings = record {
  qontract_server_url = "https://graphql";
  qontract_server_token = none;
  vault = vault;
}

abbrev cluster_secret : VaultSecret
cluster_secret = record {
  path = "app-sre/creds/east";
  field = "token";
  version = some 3;
  q_format = none;
}

abbrev clusters_query : Transport → String → Result Exc (Option (List Cluster))
clusters_query transport name = ok (
    some (
      record { name = "east"; server_url = "https://east"; automation_token = some cluster_secret }
      ∷ []))

get_cluster_connection_data-IsConnection_example :
    IsConnection clusters_query hvac settings "east"
      (record { url = "https://east"; token = "t-1" })
unfolding get_cluster_connection_data
get_cluster_connection_data-IsConnection_example =
    get_cluster_connection_data-IsConnection clusters_query hvac settings "east"
      (record { url = "https://east"; token = "t-1" }) refl

abbrev config : ElastiCacheConfig
config = record {
  image = "quay.io/app-sre/debug-container";
  flush_command = "bash" ∷ [];
  flush_command_args = "-c" ∷ "redis" ∷ [];
  env_secret_mappings = ("REDISCLI_HOST", "db.endpoint") ∷ [];
}

abbrev cache : Resource
cache = record resource { provider = "elasticache"; output_resource_name = some "cache-creds" }

abbrev caches : Option (List Namespace)
caches = some (namespace_of cache ∷ [])

kube-IsTicking : IsTicking kube
kube-IsTicking = record { begins = λ s. omega arith; grows = λ s k. omega arith }

flush_elasticache_task-ends_example :
    (r : Result Exc (Unit {0})) × (t : ℕ) × (flush_elasticache_task kube clusters_query hvac
        settings config caches 602 "acme" "orders" "a-7" 0
      ≡ some (r, t))
flush_elasticache_task-ends_example =
    flush_elasticache_task-ends kube clusters_query hvac settings config caches "acme" "orders"
      "a-7" 0 kube-IsTicking

flush_elasticache_task-Succeeds_example :
    (namespace : String) × (job : NewJob BuiltSpec) × (u : ℕ) × (prepare_flush kube clusters_query
        hvac settings config caches "acme" "orders" "a-7" 0
      ≡ (ok (namespace, job), u))
    × (kube.create_job namespace (sent kube job) u ≡ (ok tt, 0))
    × Succeeds kube 0 namespace job.name
unfolding flush_elasticache_task round
flush_elasticache_task-Succeeds_example =
    flush_elasticache_task-Succeeds kube clusters_query hvac settings config caches "acme" "orders"
      "a-7" 0 2 0 refl

abbrev flush_job : NewJob BuiltSpec
unfolding flush_args built_spec
flush_job = record {
  name = "flush-elasticache";
  annotations = ("automated-actions.action_id", "a-7") ∷ [];
  spec = built_spec (flush_args config "a-7" "cache-creds");
}

prepare_flush-ok_example :
    (found : ExternalResource) × (secret : String) × (get_external_resource "acme" "orders"
        elasticache caches
      ≡ ok found)
    × (truthy found.output_resource_name ≡ some secret)
    × ("shop" ≡ found.namespace)
    × IsFlushJob config "a-7" secret flush_job
unfolding prepare_flush
prepare_flush-ok_example =
    prepare_flush-ok kube clusters_query hvac settings config caches "acme" "orders" "a-7" 0 "shop"
      flush_job refl
