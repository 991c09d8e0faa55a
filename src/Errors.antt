-- ===== src/Errors.antt =====
-- The exceptions that the program raises or lets through: FastAPI's HTTPException, those of the
-- client libraries that the code tells apart, and the classes that the repository declares.
use automated_actions.Prelude.{ℕ, String}
use automated_actions.Dict.{Dict}

-- The classes of the repository, and the built-in ones that it raises.
pub data ErrorClass : Type 0 where
  resource_not_found pod_deletion_not_supported pod_error timeout_error : ErrorClass
  kind_not_supported external_resource_error cluster_missing cluster_token_missing : ErrorClass
  secret_not_found secret_access_forbidden secret_version_is_none : ErrorClass
  secret_version_not_found secret_field_not_found vault_missing_args : ErrorClass
  runtime_error value_error assertion_error type_error : ErrorClass
  mutual_authentication_error spnego_exchange_error cli_exit : ErrorClass

-- The exceptions of hvac that the code tells apart; all of them are VaultErrors.
pub data VaultErrorClass : Type 0 where
  invalid_path forbidden other_vault_error : VaultErrorClass

pub data Exc : Type 0 where
  -- fastapi.HTTPException: status code, detail and headers
  http : ℕ → String → Dict String → Exc
  -- kubernetes.client.ApiException and its subclasses: HTTP status and text
  api_exception : ℕ → String → Exc
  vault_error : VaultErrorClass → String → Exc
  raised : ErrorClass → String → Exc
  -- any other exception of a library, with its text
  library : String → Exc

-- `str(exc)`; the text of an HTTPException is that of its detail.
unfoldable pub message : Exc → String
message (http status detail headers) = detail
message (api_exception status text) = text
message (vault_error class text) = text
message (raised class text) = text
message (library text) = text
