-- ===== src/Utils/Cluster.antt =====
-- cluster_connection.py: the URL of a cluster and the token for it. The generated query for a
-- cluster by its name is a parameter.
pub mod Laws
use automated_actions.Prelude.{String, Option, none, some, List, [], ◌∷◌}
use automated_actions.Dict.{Dict, lookup}
use automated_actions.Text.{◌+++◌}
use automated_actions.Errors.{
  Exc, raised, cluster_missing, cluster_token_missing, secret_field_not_found,
}
use automated_actions.Exec.{Result, ok, err, and_then}
use automated_actions.Auth.Request.{truthy}
use automated_actions.Utils.ExternalResource.{VaultSecret}
use automated_actions.Utils.Gql.{Transport, gql_client}
use automated_actions.Utils.Vault.{Hvac, VaultSettings, client_of, read_secret, version_text}

pub record ClusterConnectionData : Type 0 where
  pub url : String
  pub token : String

-- What the query gives of a cluster.
pub record Cluster : Type 0 where
  pub name : String
  pub server_url : String
  pub automation_token : Option VaultSecret

-- The settings that the function reads.
pub record ConnectionSettings : Type 0 where
  pub qontract_server_url : String
  pub qontract_server_token : Option String
  pub vault : VaultSettings

-- `if not token`
unfoldable pub token_or_raise : VaultSecret → Option String → Result Exc String
token_or_raise secret none =
    err (raised secret_field_not_found (secret.field +++ " not found in secret " +++ secret.path))
token_or_raise secret (some token) = ok token

unfoldable pub required_secret : String → Option VaultSecret → Result Exc VaultSecret
required_secret cluster_name none =
    err (raised cluster_token_missing ("No automationToken for cluster " +++ cluster_name))
required_secret cluster_name (some secret) = ok secret

unfoldable pub first_cluster : String → Option (List Cluster) → Result Exc Cluster
first_cluster cluster_name none =
    err (raised cluster_missing ("cluster '" +++ cluster_name +++ "' missing in app-interface"))
first_cluster cluster_name (some []) =
    err (raised cluster_missing ("cluster '" +++ cluster_name +++ "' missing in app-interface"))
first_cluster cluster_name (some (cluster ∷ clusters)) = ok cluster

module _ (clusters_query : Transport → String → Result Exc (Option (List Cluster))) (hvac : Hvac)
    (settings : ConnectionSettings) where
  -- The client is made before the token's place is known to be there.
  unfoldable pub get_cluster_connection_data : String → Result Exc ClusterConnectionData
  unfolding gql_client first_cluster client_of required_secret read_secret version_text truthy
      lookup token_or_raise
  get_cluster_connection_data cluster_name =
      and_then
        (clusters_query (gql_client settings.qontract_server_url settings.qontract_server_token)
          cluster_name)
        λ clusters. and_then (first_cluster cluster_name clusters) λ cluster.
          and_then (client_of hvac settings.vault) λ client.
            and_then (required_secret cluster_name cluster.automation_token) λ secret.
              and_then (read_secret hvac client secret.path (some (version_text secret.version)))
                λ content.
                  and_then (token_or_raise secret (truthy (lookup secret.field content)))
                    λ token. ok (record { url = cluster.server_url; token = token })
