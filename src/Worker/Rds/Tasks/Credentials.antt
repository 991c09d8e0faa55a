-- ===== src/Worker/Rds/Tasks/Credentials.antt =====
-- With which credentials a task acts on AWS.
use automated_actions.Prelude.{String, ◌≡◌, some}
use automated_actions.Dict.{Dict, lookup}
use automated_actions.Exec.{Exec, ok}
use automated_actions.Utils.ExternalResource.{ExternalResource}
use automated_actions.Utils.Vault.{
  Hvac, VaultSettings, AwsStaticCredentials, client_of, version_text,
}
use automated_actions.Utils.Vault.Laws.{IsStoredAt}

-- The credentials of an account: both keys are stored in the account's secret, and the region is
-- that of the account.
pub record AreCredentials (hvac : Hvac) (settings : VaultSettings) (found : ExternalResource)
    (credentials : AwsStaticCredentials) : Type 0 where
  pub client : hvac.Client
  pub content : Dict String
  pub logged_in : client_of hvac settings ≡ ok client
  pub stored :
      IsStoredAt hvac client found.account.automation_token.path
        (some (version_text found.account.automation_token.version))
        content
  pub id : lookup "aws_access_key_id" content ≡ some credentials.access_key_id
  pub key : lookup "aws_secret_access_key" content ≡ some credentials.secret_access_key
  pub region : credentials.region ≡ found.account.region
