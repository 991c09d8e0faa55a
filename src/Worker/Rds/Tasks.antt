-- ===== src/Worker/Rds/Tasks.antt =====
-- The Celery tasks of celery/external_resource/tasks.py for RDS: the resource is looked up, then
-- the credentials are read from Vault, and then the client is made and used, and closed whatever
-- comes of it. The answer of the GraphQL query is a parameter.
pub mod Credentials
use automated_actions.Prelude.{String, Bool, true, false, Option, List}
use automated_actions.Errors.{Exc}
use automated_actions.Exec.{Exec, Result, ok, err, lift, ◌>>=◌, ◌>>◌}
use automated_actions.Utils.ExternalResource.{
  ExternalResource, rds, Namespace, get_external_resource,
}
use automated_actions.Worker.Task.{Exit, returned, asked_retry, raising}
use automated_actions.Utils.Vault.{Hvac, VaultSettings, get_aws_credentials}
use automated_actions.Worker.Rds.{
  RdsClient, client_config, run_start, run_stop, run_reboot, run_snapshot,
}

-- `if not ….run(): raise self.retry(…)`, and a body that only returns or raises. The first argument
-- is what Celery raises in place of the retry when no retries are left.
unfoldable pub exit_of : Exc → Result Exc Bool → Exit
exit_of exceeded (ok true) = returned
exit_of exceeded (ok false) = asked_retry exceeded
exit_of exceeded (err e) = raising e

unfoldable pub exit_of_body : Result Exc (Unit {0}) → Exit
exit_of_body (ok done) = returned
exit_of_body (err e) = raising e

module _ (client : RdsClient) where
  -- `with`: what `__exit__` does comes last, also after a raise.
  abbrev pub closing : {A : Type 0} → Exec client.Cloud Exc A → Exec client.Cloud Exc A
  closing m s = let run = m s in (run.0, client.close run.1)

module _ (client : RdsClient) (namespaces : Option (List Namespace)) (hvac : Hvac)
    (settings : VaultSettings) where
  open client use {Cloud, connect}

  unfoldable pub with_rds :
      {A : Type 0} → String → String → (ExternalResource → Exec Cloud Exc A) → Exec Cloud Exc A
  unfolding get_external_resource get_aws_credentials client_config
  with_rds account identifier run = do
    found ← lift (get_external_resource account identifier rds namespaces)
    credentials ←
        lift (get_aws_credentials hvac settings found.account.automation_token found.account.region)
    connect credentials (client_config found.region)
    closing client (run found)

  -- A task ends in a way, and leaves a state.
  unfoldable pub rds_reboot_task : String → String → Bool → Cloud → Exit × Cloud
  unfolding with_rds run_reboot exit_of_body
  rds_reboot_task account identifier force_failover s =
      let run = with_rds account identifier (λ found. run_reboot client found force_failover) s in
      (exit_of_body run.0, run.1)

  unfoldable pub rds_snapshot_task : String → String → String → Cloud → Exit × Cloud
  unfolding with_rds run_snapshot exit_of_body
  rds_snapshot_task account identifier snapshot_identifier s =
      let run =
        with_rds account identifier (λ found. run_snapshot client found snapshot_identifier) s in
      (exit_of_body run.0, run.1)

  unfoldable pub rds_start_task : (exceeded : Exc) → String → String → Cloud → Exit × Cloud
  unfolding with_rds run_start exit_of
  rds_start_task exceeded account identifier s =
      let run = with_rds account identifier (run_start client) s in (exit_of exceeded run.0, run.1)

  unfoldable pub rds_stop_task : (exceeded : Exc) → String → String → Cloud → Exit × Cloud
  unfolding with_rds run_stop exit_of
  rds_stop_task exceeded account identifier s =
      let run = with_rds account identifier (run_stop client) s in (exit_of exceeded run.0, run.1)
