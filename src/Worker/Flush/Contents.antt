-- ===== src/Worker/Flush/Contents.antt =====
-- What the job of a flush contains.
use automated_actions.Prelude.{
  String, ◌≡◌, inl, inr, refl, sym, ap, ◌∙◌, true, some, [], ◌∷◌, map, Option-cases,
}
use automated_actions.Dict.{Dict}
use automated_actions.Errors.{Exc}
use automated_actions.Exec.{Exec, ok, bind-ok, ok-injective, ok-ne-err}
use automated_actions.Auth.Request.{truthy}
use automated_actions.Utils.ExternalResource.{ExternalResource}
use automated_actions.Utils.Job.{
  secret_var, secret_vars, BuiltSpec, built_spec, NewJob, job_builder,
}
use automated_actions.Worker.Flush.{ElastiCacheConfig, env_secrets_of, flush_args, output_secret}

-- A job with the settings' image and command and the action's identifier; its environment is the
-- settings' mapping, read from the secret.
pub record IsFlushJob (config : ElastiCacheConfig) (action_id secret : String)
    (job : NewJob BuiltSpec) : Type 0 where
  pub annotated : job.annotations ≡ (("automated-actions.action_id", action_id) ∷ [])
  pub image : job.spec.container.image ≡ config.image
  pub command : job.spec.container.command ≡ config.flush_command
  pub args : job.spec.container.args ≡ config.flush_command_args
  pub env :
      job.spec.container.env
      ≡ map (λ (m : String × String). secret_var m.0 secret m.1 true) config.env_secret_mappings

vars_of :
    (secret : String) (mappings : Dict String)
    → secret_vars (env_secrets_of secret mappings)
      ≡ map (λ (m : String × String). secret_var m.0 secret m.1 true) mappings
unfolding secret_vars env_secrets_of
vars_of secret [] = refl
vars_of secret ((key, value) ∷ mappings) =
    ap (λ l. secret_var key secret value true ∷ l) (vars_of secret mappings)

pub job_builder-IsFlushJob :
    {S : Type 0} (config : ElastiCacheConfig) (action_id secret : String)
    (unique_job_name : String → Exec S Exc String) (job : NewJob BuiltSpec) (s : S)
    → (job_builder unique_job_name (flush_args config action_id secret) s).0 ≡ ok job
    → IsFlushJob config action_id secret job
unfolding job_builder flush_args built_spec
job_builder-IsFlushJob config action_id secret unique_job_name job s h =
    let (name, drawn, h1) = bind-ok (unique_job_name "flush-elasticache") _ s h in
    rw (← ok-injective h1) (record {
      annotated = refl;
      image = refl;
      command = refl;
      args = refl;
      env = vars_of secret config.env_secret_mappings;
    })

pub output_secret-ok :
    (found : ExternalResource) (secret : String)
    → output_secret found ≡ ok secret
    → truthy found.output_resource_name ≡ some secret
unfolding output_secret
output_secret-ok found secret h = elim (Option-cases (truthy found.output_resource_name)) [
  | inl e ↦ absurd (ok-ne-err (sym (rw (output_secret, e) at h)))
  | inr (name, e) ↦ e ∙ ap some (ok-injective (rw (output_secret, e) at h))
]
