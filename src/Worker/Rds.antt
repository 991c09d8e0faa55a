-- ===== src/Worker/Rds.antt =====
-- celery/external_resource/tasks.py and aws_api.py: the tasks that start, stop, reboot and
-- snapshot an RDS instance. The RDS client of boto3 is a parameter with a state of its own.
pub mod Laws
pub mod Tasks
pub mod Polling
use automated_actions.Prelude.{
  ℕ, ◌++◌, get_or, String, Bool, true, false, ◌≡◌, refl, Option, none, some, List, [], ◌∷◌, ◌==◌,
  if◌then◌else◌,
}
use automated_actions.Text.{◌+++◌}
use automated_actions.Errors.{Exc, raised, runtime_error, value_error}
use automated_actions.Exec.{Exec, Result, ok, err, pure, raise, lift, ◌>>=◌, ◌>>◌}
use automated_actions.Utils.ExternalResource.{ExternalResource}
use automated_actions.Utils.Vault.{AwsStaticCredentials}

pub data RdsInstanceStatus : Type 0 where
  available backing_up creating deleting failed : RdsInstanceStatus
  inaccessible_encryption_credentials : RdsInstanceStatus
  inaccessible_encryption_credentials_recoverable : RdsInstanceStatus
  incompatible_network incompatible_option_group incompatible_parameters : RdsInstanceStatus
  incompatible_restore maintenance modifying rebooting restore_error starting : RdsInstanceStatus
  stopped stopping storage_full storage_optimization upgrading : RdsInstanceStatus

-- The values of the enumeration.
unfoldable pub status_text : RdsInstanceStatus → String
status_text available = "available"
status_text backing_up = "backing-up"
status_text creating = "creating"
status_text deleting = "deleting"
status_text failed = "failed"
status_text inaccessible_encryption_credentials = "inaccessible-encryption-credentials"
status_text inaccessible_encryption_credentials_recoverable =
    "inaccessible-encryption-credentials-recoverable"
status_text incompatible_network = "incompatible-network"
status_text incompatible_option_group = "incompatible-option-group"
status_text incompatible_parameters = "incompatible-parameters"
status_text incompatible_restore = "incompatible-restore"
status_text maintenance = "maintenance"
status_text modifying = "modifying"
status_text rebooting = "rebooting"
status_text restore_error = "restore-error"
status_text starting = "starting"
status_text stopped = "stopped"
status_text stopping = "stopping"
status_text storage_full = "storage-full"
status_text storage_optimization = "storage-optimization"
status_text upgrading = "upgrading"

-- The members of the enumeration.
abbrev pub statuses : List RdsInstanceStatus
statuses =
    available ∷ backing_up ∷ creating ∷ deleting ∷ failed ∷ inaccessible_encryption_credentials
    ∷ inaccessible_encryption_credentials_recoverable ∷ incompatible_network
    ∷ incompatible_option_group ∷ incompatible_parameters ∷ incompatible_restore ∷ maintenance
    ∷ modifying ∷ rebooting ∷ restore_error ∷ starting ∷ stopped ∷ stopping ∷ storage_full
    ∷ storage_optimization ∷ upgrading ∷ []

-- The first member with a value.
unfoldable pub with_text : String → List RdsInstanceStatus → Option RdsInstanceStatus
unfolding status_text
with_text s [] = none
with_text s (status ∷ rest) =
    let found = with_text s rest in if status_text status == s then some status else found

-- `RdsInstanceStatus(s)`; any other text is a ValueError.
unfoldable pub read_status : String → Result Exc RdsInstanceStatus
unfolding with_text
read_status s = elim (with_text s statuses) [
  | none ↦ err (raised value_error s)
  | some status ↦ ok status
]

-- `status in RDS_TERMINAL_ERROR_STATES`
unfoldable pub is_terminal_error : RdsInstanceStatus → Bool
is_terminal_error failed = true
is_terminal_error incompatible_network = true
is_terminal_error incompatible_option_group = true
is_terminal_error incompatible_parameters = true
is_terminal_error incompatible_restore = true
is_terminal_error inaccessible_encryption_credentials = true
is_terminal_error inaccessible_encryption_credentials_recoverable = true
is_terminal_error restore_error = true
is_terminal_error storage_full = true
is_terminal_error _ = false

-- `==` with the two statuses that the tasks ask for.
unfoldable pub is_available : RdsInstanceStatus → Bool
is_available available = true
is_available _ = false

unfoldable pub is_stopped : RdsInstanceStatus → Bool
is_stopped stopped = true
is_stopped _ = false

-- The `Config` of boto3 that the client is made with.
pub record ClientConfig : Type 0 where
  pub region_name : Option String
  pub max_attempts : ℕ
  pub mode : String

-- The one of `AWSApi.__init__`
unfoldable pub client_config : Option String → ClientConfig
client_config region = record { region_name = region; max_attempts = 5; mode = "standard" }

-- The client: `describe_db_instances` gives the status of each instance that it lists.
pub record RdsClient : Type 1 where
  pub Cloud : Type 0
  pub describe : String → Exec Cloud Exc (List String)
  pub start_db_instance : String → Exec Cloud Exc (Unit {0})
  pub stop_db_instance : String → Exec Cloud Exc (Unit {0})
  pub reboot_db_instance : String → Bool → Exec Cloud Exc (Unit {0})
  -- `AWSApi.__init__` and `__exit__`
  pub connect : AwsStaticCredentials → ClientConfig → Exec Cloud Exc (Unit {0})
  pub close : Cloud → Cloud
  pub Event : Type 0
  -- the pages of "describe_events": identifier, source type and minutes; a page may lack its item
  pub describe_events : String → String → ℕ → Exec Cloud Exc (List (Option (List Event)))
  pub create_db_snapshot : String → String → Exec Cloud Exc (Unit {0})

-- `response["DBInstances"][0]`
first_instance : List String → Result Exc String
first_instance [] = err (Exc.library "IndexError")
first_instance (status ∷ rest) = ok status

module _ (client : RdsClient) where
  open client use {
    Cloud, describe, start_db_instance, stop_db_instance, reboot_db_instance, create_db_snapshot,
  }

  -- `AWSApi.reboot_rds_instance`
  abbrev reboot_rds_instance : String → (force_failover : Bool) → Exec Cloud Exc (Unit {0})
  reboot_rds_instance identifier force_failover = reboot_db_instance identifier force_failover

  -- `AWSApi.start_rds_instance`
  abbrev start_rds_instance : String → Exec Cloud Exc (Unit {0})
  start_rds_instance identifier = start_db_instance identifier

  -- `AWSApi.stop_rds_instance`
  abbrev stop_rds_instance : String → Exec Cloud Exc (Unit {0})
  stop_rds_instance identifier = stop_db_instance identifier

  -- `AWSApi.create_rds_snapshot`
  abbrev create_rds_snapshot : (identifier snapshot_identifier : String) → Exec Cloud Exc (Unit {0})
  create_rds_snapshot identifier snapshot_identifier =
      create_db_snapshot identifier snapshot_identifier

  -- `AWSApi.get_rds_instance_status`
  unfoldable pub get_rds_instance_status : String → Exec Cloud Exc RdsInstanceStatus
  unfolding read_status first_instance
  get_rds_instance_status identifier = do
    instances ← describe identifier
    status ← lift (first_instance instances)
    lift (read_status status)

  terminal_error : String → RdsInstanceStatus → Exec Cloud Exc Bool
  unfolding status_text
  terminal_error identifier status = raise (
      raised runtime_error (
        "RDS instance "
        +++ identifier
        +++ " entered terminal error state '"
        +++ status_text status
        +++ "'"))

  events_of : List (Option (List client.Event)) → List client.Event
  events_of [] = []
  events_of (page ∷ pages) = get_or page [] ++ events_of pages

  -- `AWSApi.rds_get_events`
  unfoldable pub rds_get_events : String → ℕ → Exec Cloud Exc (List client.Event)
  unfolding events_of
  rds_get_events identifier duration_min = do
    pages ← client.describe_events identifier "db-instance" duration_min
    pure (events_of pages)

  -- What `ExternalResourceRDSStart.run` does in a status.
  unfoldable pub start_in : String → RdsInstanceStatus → Exec Cloud Exc Bool
  unfolding is_available is_terminal_error is_stopped terminal_error
  start_in identifier status =
      if is_available status
      then pure true
      else if is_terminal_error status
      then terminal_error identifier status
      else if is_stopped status
      then (start_rds_instance identifier >> pure false)
      else pure false

  -- What `ExternalResourceRDSStop.run` does in a status.
  unfoldable pub stop_in : String → RdsInstanceStatus → Exec Cloud Exc Bool
  unfolding is_available is_terminal_error is_stopped terminal_error
  stop_in identifier status =
      if is_stopped status
      then pure true
      else if is_terminal_error status
      then terminal_error identifier status
      else if is_available status
      then (stop_rds_instance identifier >> pure false)
      else pure false

  -- `ExternalResourceRDSStart.run`
  unfoldable pub run_start : ExternalResource → Exec Cloud Exc Bool
  unfolding get_rds_instance_status start_in
  run_start rds = do status ← get_rds_instance_status rds.identifier; start_in rds.identifier status

  -- `ExternalResourceRDSStop.run`
  unfoldable pub run_stop : ExternalResource → Exec Cloud Exc Bool
  unfolding get_rds_instance_status stop_in
  run_stop rds = do status ← get_rds_instance_status rds.identifier; stop_in rds.identifier status

  -- `ExternalResourceRDSReboot.run`
  unfoldable pub run_reboot : ExternalResource → Bool → Exec Cloud Exc (Unit {0})
  run_reboot rds force_failover = reboot_rds_instance rds.identifier force_failover

  -- `ExternalResourceRDSSnapshot.run`
  unfoldable pub run_snapshot : ExternalResource → String → Exec Cloud Exc (Unit {0})
  run_snapshot rds snapshot_identifier = create_rds_snapshot rds.identifier snapshot_identifier
