-- ===== src/Api/ExternalResource.antt =====
-- packages/automated_actions/automated_actions/api/v1/views/external_resource.py
use automated_actions.Prelude.{String, Bool, false, none, some, [], ◌∷◌}
use automated_actions.Dict.{Dict, last_value}
use automated_actions.Errors.{Exc}
use automated_actions.Exec.{Exec, Result, ok, and_then}
use automated_actions.Db.Schema.{
  Action, ActionSchemaOut, Arg, text, flag, external_resource_rds_reboot,
  external_resource_rds_start, external_resource_rds_stop, external_resource_rds_snapshot,
  external_resource_flush_elasticache,
}
use automated_actions.Db.World.{Database, World}
use automated_actions.Auth.Request.{Request}
use automated_actions.Api.{Server, path_param, submit, post_action}

pub record ResourceArgs : Type 0 where
  pub account : String
  pub identifier : String

unfoldable pub read_resource_args : Request → Result Exc ResourceArgs
unfolding path_param
read_resource_args request = and_then (path_param "account" request) λ account.
    and_then (path_param "identifier" request)
      λ identifier. ok (record { account = account; identifier = identifier })

pub record SnapshotArgs : Type 0 where
  pub account : String
  pub identifier : String
  pub snapshot_identifier : String

unfoldable pub read_snapshot_args : Request → Result Exc SnapshotArgs
unfolding path_param
read_snapshot_args request = and_then (path_param "account" request) λ account.
    and_then (path_param "identifier" request) λ identifier.
      and_then (path_param "snapshot_identifier" request) λ snapshot_identifier. ok (record {
        account = account;
        identifier = identifier;
        snapshot_identifier = snapshot_identifier;
      })

pub record RebootArgs : Type 0 where
  pub account : String
  pub identifier : String
  pub force_failover : Bool

-- Reading a flag of the query string is pydantic's, a parameter.
unfoldable pub read_reboot_args : (String → Result Exc Bool) → Request → Result Exc RebootArgs
unfolding path_param
read_reboot_args read_bool request = and_then (path_param "account" request) λ account.
    and_then (path_param "identifier" request) λ identifier.
      and_then
        (elim (last_value "force_failover" request.query_params) [
          | none ↦ ok false
          | some value ↦ read_bool value
        ])
        λ force_failover.
          ok
            (record { account = account; identifier = identifier; force_failover = force_failover })

-- The keyword arguments that the endpoints of a resource share.
abbrev resource_kwargs : ResourceArgs → Dict Arg
resource_kwargs args = ("account", text args.account) ∷ ("identifier", text args.identifier) ∷ []

module _ (D : Database) where
  unfoldable pub external_resource_rds_reboot_endpoint :
      RebootArgs → Action → Exec (World D) Exc ActionSchemaOut
  external_resource_rds_reboot_endpoint args action =
      submit D external_resource_rds_reboot
        (("account", text args.account)
          ∷ ("identifier", text args.identifier)
          ∷ ("force_failover", flag args.force_failover)
          ∷ [])
        action

  unfoldable pub external_resource_rds_start_endpoint :
      ResourceArgs → Action → Exec (World D) Exc ActionSchemaOut
  external_resource_rds_start_endpoint args action =
      submit D external_resource_rds_start (resource_kwargs args) action

  unfoldable pub external_resource_rds_stop_endpoint :
      ResourceArgs → Action → Exec (World D) Exc ActionSchemaOut
  external_resource_rds_stop_endpoint args action =
      submit D external_resource_rds_stop (resource_kwargs args) action

  unfoldable pub external_resource_rds_snapshot_endpoint :
      SnapshotArgs → Action → Exec (World D) Exc ActionSchemaOut
  external_resource_rds_snapshot_endpoint args action =
      submit D external_resource_rds_snapshot
        (("account", text args.account)
          ∷ ("identifier", text args.identifier)
          ∷ ("snapshot_identifier", text args.snapshot_identifier)
          ∷ [])
        action

  unfoldable pub external_resource_flush_elasticache_endpoint :
      ResourceArgs → Action → Exec (World D) Exc ActionSchemaOut
  external_resource_flush_elasticache_endpoint args action =
      submit D external_resource_flush_elasticache (resource_kwargs args) action

  module _ (server : Server D) where
    -- POST /external-resource/rds-reboot/{account}/{identifier}
    abbrev pub post_external_resource_rds_reboot :
        (String → Result Exc Bool) → Request → Exec (World D) Exc ActionSchemaOut
    post_external_resource_rds_reboot read_bool =
        post_action D server "external-resource-rds-reboot" (read_reboot_args read_bool)
          external_resource_rds_reboot_endpoint

    -- POST /external-resource/rds-start/{account}/{identifier}
    abbrev pub post_external_resource_rds_start : Request → Exec (World D) Exc ActionSchemaOut
    post_external_resource_rds_start =
        post_action D server "external-resource-rds-start" read_resource_args
          external_resource_rds_start_endpoint

    -- POST /external-resource/rds-stop/{account}/{identifier}
    abbrev pub post_external_resource_rds_stop : Request → Exec (World D) Exc ActionSchemaOut
    post_external_resource_rds_stop =
        post_action D server "external-resource-rds-stop" read_resource_args
          external_resource_rds_stop_endpoint

    -- POST /external-resource/rds-snapshot/{account}/{identifier}/{snapshot_identifier}
    abbrev pub post_external_resource_rds_snapshot : Request → Exec (World D) Exc ActionSchemaOut
    post_external_resource_rds_snapshot =
        post_action D server "external-resource-rds-snapshot" read_snapshot_args
          external_resource_rds_snapshot_endpoint

    -- POST /external-resource/flush-elasticache/{account}/{identifier}
    abbrev pub post_external_resource_flush_elasticache :
        Request → Exec (World D) Exc ActionSchemaOut
    post_external_resource_flush_elasticache =
        post_action D server "external-resource-flush-elasticache" read_resource_args
          external_resource_flush_elasticache_endpoint
