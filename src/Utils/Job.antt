-- ===== src/Utils/Job.antt =====
-- openshift_client.py: the Kubernetes job that job_builder makes. The models of the package
-- kubernetes are records with the fields that are set.
use automated_actions.Prelude.{ℕ, String, Bool, true, Option, List, [], ◌∷◌, ◌++◌, get_or}
use automated_actions.Dict.{Dict}
use automated_actions.Errors.{Exc}
use automated_actions.Exec.{Exec, pure, ◌>>=◌}

-- `SecretKeyRef`
pub record SecretKeyRef : Type 0 where
  pub secret : String
  pub key : String
  pub is_optional : Bool

-- The default of `optional`
abbrev pub secret_key_ref : String → String → SecretKeyRef
secret_key_ref secret key = record { secret = secret; key = key; is_optional = true }

-- `V1EnvVar`: the name with the value, or with the place in a secret.
pub data EnvVar : Type 0 where
  plain_var : (name value : String) → EnvVar
  secret_var : (name secret key : String) → (is_optional : Bool) → EnvVar

pub record Container : Type 0 where
  pub name : String
  pub image : String
  pub command : List String
  pub args : List String
  pub env : List EnvVar

-- `V1JobSpec` with its pod template: the labels, the restart policy and the one container.
pub record BuiltSpec : Type 0 where
  pub labels : Dict String
  pub restart_policy : String
  pub container : Container
  pub backoff_limit : ℕ
  pub ttl_seconds_after_finished : Option ℕ

-- A job to be created: its name, its annotations, and its specification.
pub record NewJob (Spec : Type 0) : Type 0 where
  pub name : String
  pub annotations : Dict String
  pub spec : Spec

-- The arguments of `job_builder`; `none` is None.
pub record JobArgs : Type 0 where
  pub image : String
  pub command : List String
  pub args : Option (List String)
  pub job_name : String
  pub backoff_limit : ℕ
  pub annotations : Dict String
  pub env : Option (Dict String)
  pub env_secrets : Option (Dict SecretKeyRef)
  pub auto_cleanup_after_seconds : Option ℕ

-- The two loops over the items of `env or {}` and of `env_secrets or {}`
unfoldable pub plain_vars : Dict String → List EnvVar
plain_vars [] = []
plain_vars ((key, value) ∷ env) = plain_var key value ∷ plain_vars env

unfoldable pub secret_vars : Dict SecretKeyRef → List EnvVar
secret_vars [] = []
secret_vars ((key, ref) ∷ env_secrets) =
    secret_var key ref.secret ref.key ref.is_optional ∷ secret_vars env_secrets

unfoldable pub built_spec : JobArgs → BuiltSpec
unfolding plain_vars secret_vars
built_spec job = record {
  labels = ("app", "automated-actions") ∷ [];
  restart_policy = "Never";
  container = record {
    name = "default";
    image = job.image;
    command = job.command;
    args = get_or job.args [];
    env = plain_vars (get_or job.env []) ++ secret_vars (get_or job.env_secrets []);
  };
  backoff_limit = job.backoff_limit;
  ttl_seconds_after_finished = job.auto_cleanup_after_seconds;
}

-- `job_builder`; the unique name is drawn at the end.
unfoldable pub job_builder :
    {S : Type 0} → (String → Exec S Exc String) → JobArgs → Exec S Exc (NewJob BuiltSpec)
unfolding built_spec
job_builder unique_job_name job = do
  name ← unique_job_name job.job_name
  pure (record { name = name; annotations = job.annotations; spec = built_spec job })
