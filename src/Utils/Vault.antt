-- ===== src/Utils/Vault.antt =====
-- vault_client.py, and get_aws_credentials of aws_api.py: reading a secret from Vault. The client
-- of the package hvac, the environment and the file with the Kubernetes token are a parameter.
pub mod Laws
use automated_actions.Prelude.{
  ℕ, String, Bool, true, false, ◌&&◌, Option, none, some, List, [], ◌∷◌, ◌==◌, if◌then◌else◌,
  get_or,
}
use automated_actions.Dict.{Dict, lookup}
use automated_actions.Text.{◌+++◌, split, join}
use automated_actions.Text.Decimal.{ℤ, pos, show, int}
use automated_actions.Errors.{
  Exc, raised, vault_error, http, api_exception, invalid_path, forbidden, other_vault_error,
  secret_not_found, secret_access_forbidden, secret_version_is_none, secret_version_not_found,
  secret_field_not_found, vault_missing_args, value_error,
}
use automated_actions.Exec.{Result, ok, err, and_then}
use automated_actions.Utils.ExternalResource.{VaultSecret}

-- The answer for a secret of the key-value engine 1: none, one without the item "data", or that
-- item, which may be None.
pub data SecretV1 : Type 0 where
  no_answer no_content : SecretV1
  plain : Option (Dict String) → SecretV1

-- The answer for the engine 2: the item "data" of the item "data", and the version in the metadata.
pub data SecretV2 : Type 0 where
  no_answer no_content no_inner : SecretV2
  versioned : Option (Dict String) → Result Exc String → SecretV2

pub record Hvac : Type 1 where
  -- a client that has logged in
  pub Client : Type 0
  pub approle_login : Option String → String → String → Result Exc Client
  pub kubernetes_login : Option String → String → String → String → Result Exc Client
  -- the "version" of the options in the configuration of a mount point
  pub mount_version : Client → String → Result Exc String
  pub read_v1 : Client → String → String → Result Exc SecretV1
  -- `none` is the latest version
  pub read_v2 : Client → String → String → Option ℤ → Result Exc SecretV2
  pub environ : String → Option String
  pub read_text : String → Result Exc String

-- The attributes of the settings that all callers pass to the client.
pub record VaultSettings : Type 0 where
  pub vault_server_url : String
  pub vault_role_id : Option String
  pub vault_secret_id : Option String
  pub vault_kube_auth_role : Option String
  pub vault_kube_auth_mount : Option String

abbrev pub secret_version_latest : String
secret_version_latest = "LATEST"

-- `_split_secret_path`
read_path_of : List String → String × String
unfolding join
read_path_of [] = ("", "")
read_path_of (mount_point ∷ pieces) = (mount_point, join "/" pieces)

unfoldable pub split_secret_path : String → String × String
unfolding read_path_of split
split_secret_path path = read_path_of (split b'/' path)

-- `version_int`, of a version that is not None
unfoldable pub version_int : String → Result Exc (Option ℤ)
unfolding int
version_int version = if version == secret_version_latest then ok none else elim (int version) [
  | none ↦
      err (raised value_error ("invalid literal for int() with base 10: '" +++ version +++ "'"))
  | some n ↦ ok (some n)
]

-- `str(secret.version)`, which all callers pass.
unfoldable pub version_text : Option ℕ → String
unfolding show
version_text none = "None"
version_text (some n) = show n

-- The two handlers of `_read_secret_v2`, and the one of `_read_secret_v1`.
on_error_v2 : String → String → String → Exc → Exc
on_error_v2 version mount_point read_path (vault_error invalid_path text) =
    raised secret_version_not_found (
      "version '" +++ version +++ "' not found for secret with path '" +++ mount_point +++ "/"
      +++ read_path +++ "'.")
on_error_v2 version mount_point read_path (vault_error forbidden text) =
    raised secret_access_forbidden
      ("permission denied accessing secret '" +++ mount_point +++ "/" +++ read_path +++ "'")
on_error_v2 version mount_point read_path (vault_error other_vault_error text) =
    vault_error other_vault_error text
on_error_v2 version mount_point read_path (http status detail headers) = http status detail headers
on_error_v2 version mount_point read_path (api_exception status text) = api_exception status text
on_error_v2 version mount_point read_path (raised class text) = raised class text
on_error_v2 version mount_point read_path (Exc.library text) = Exc.library text

on_error_v1 : String → String → Exc → Exc
on_error_v1 mount_point read_path (vault_error forbidden text) =
    raised secret_access_forbidden
      ("permission denied accessing secret '" +++ mount_point +++ "/" +++ read_path +++ "'")
on_error_v1 mount_point read_path (vault_error invalid_path text) = vault_error invalid_path text
on_error_v1 mount_point read_path (vault_error other_vault_error text) =
    vault_error other_vault_error text
on_error_v1 mount_point read_path (http status detail headers) = http status detail headers
on_error_v1 mount_point read_path (api_exception status text) = api_exception status text
on_error_v1 mount_point read_path (raised class text) = raised class text
on_error_v1 mount_point read_path (Exc.library text) = Exc.library text

abbrev pub map_err : {A : Type 0} → (Exc → Exc) → Result Exc A → Result Exc A
map_err f (ok a) = ok a
map_err f (err e) = err (f e)

not_found : {A : Type 0} → String → String → Result Exc A
not_found mount_point read_path = err (raised secret_not_found (mount_point +++ "/" +++ read_path))

-- What is left of `_read_secret_v2` and `_read_secret_v1` with the answer.
unfoldable pub data_v2 : String → String → SecretV2 → Result Exc (Option (Dict String) × String)
unfolding not_found
data_v2 mount_point read_path SecretV2.no_answer = not_found mount_point read_path
data_v2 mount_point read_path SecretV2.no_content = not_found mount_point read_path
data_v2 mount_point read_path no_inner = not_found mount_point read_path
data_v2 mount_point read_path (versioned content version) =
    and_then version λ secret_version. ok (content, secret_version)

unfoldable pub data_v1 : String → String → SecretV1 → Result Exc (Option (Dict String))
unfolding not_found
data_v1 mount_point read_path SecretV1.no_answer = not_found mount_point read_path
data_v1 mount_point read_path SecretV1.no_content = not_found mount_point read_path
data_v1 mount_point read_path (plain content) = ok content

-- The end of `read_secret`.
unfoldable pub required : Option (Dict String) → Result Exc (Dict String)
required none = err (raised secret_not_found "")
required (some content) = ok content

module _ (hvac : Hvac) where
  open hvac use {
    Client, approle_login, kubernetes_login, mount_version, read_v1, read_v2, environ, read_text,
  }

  -- `_read_secret_v2`, whose `version` may be None
  unfoldable pub read_secret_v2 :
      Client → String → String → Option String → Result Exc (Option (Dict String) × String)
  unfolding version_int on_error_v2 data_v2
  read_secret_v2 client mount_point read_path none = err (
      raised secret_version_is_none (
        "version can not be null for secret with path '" +++ read_path +++ "' under "
        +++ mount_point +++ " mount_point."))
  read_secret_v2 client mount_point read_path (some version) = and_then (version_int version) λ n.
      and_then
        (map_err (on_error_v2 version mount_point read_path)
          (read_v2 client mount_point read_path n))
        (data_v2 mount_point read_path)

  -- `_read_secret_v1`
  unfoldable pub read_secret_v1 : Client → String → String → Result Exc (Option (Dict String))
  unfolding on_error_v1 data_v1
  read_secret_v1 client mount_point read_path =
      and_then (map_err (on_error_v1 mount_point read_path) (read_v1 client mount_point read_path))
        (data_v1 mount_point read_path)

  -- The branch of `read_secret` on the version of the engine
  unfoldable pub read_data :
      Client → String → String → Option String → String → Result Exc (Option (Dict String))
  unfolding read_secret_v2 read_secret_v1
  read_data client mount_point read_path version kv_version =
      if kv_version == "2"
      then (and_then (read_secret_v2 client mount_point read_path version) λ r. ok r.0)
      else read_secret_v1 client mount_point read_path

  unfoldable pub read_secret : Client → String → Option String → Result Exc (Dict String)
  unfolding split_secret_path read_data required
  read_secret client path version =
      let (mount_point, read_path) = split_secret_path path in
      and_then (mount_version client mount_point)
        λ kv_version. and_then (read_data client mount_point read_path version kv_version) required

  -- The login with the token of the service account
  kube_login : Option String → String → String → Result Exc Client
  kube_login server_url role mount =
      and_then
        (read_text (
          get_or (environ "KUBE_SA_TOKEN_PATH")
            "/var/run/secrets/kubernetes.io/serviceaccount/token"))
        λ jwt. kubernetes_login server_url role jwt mount

  missing_args : Result Exc Client
  missing_args = err (
      raised vault_missing_args
        "Either role_id/secret_id or kube_auth_role/kube_auth_mount must be provided")

  kube_or_raise : Option String → Option String → Option String → Result Exc Client
  unfolding kube_login missing_args
  kube_or_raise server_url (some role) (some mount) = kube_login server_url role mount
  kube_or_raise server_url none mount = missing_args
  kube_or_raise server_url (some role) none = missing_args

  -- `VaultClient.__init__`
  unfoldable pub new_client :
      Option String
      → Option String
      → Option String
      → Option String
      → Option String
      → Result Exc Client
  unfolding kube_or_raise
  new_client server_url (some role_id) (some secret_id) role mount =
      approle_login server_url role_id secret_id
  new_client server_url none secret_id role mount = kube_or_raise server_url role mount
  new_client server_url (some role_id) none role mount = kube_or_raise server_url role mount

  -- The client that all callers make.
  unfoldable pub client_of : VaultSettings → Result Exc Client
  unfolding new_client
  client_of settings =
      new_client (some settings.vault_server_url) settings.vault_role_id settings.vault_secret_id
        settings.vault_kube_auth_role settings.vault_kube_auth_mount

-- `AWSStaticCredentials`
pub record AwsStaticCredentials : Type 0 where
  pub access_key_id : String
  pub secret_access_key : String
  pub region : String

missing_keys : {A : Type 0} → String → Result Exc A
missing_keys path = err (
    raised secret_field_not_found
      ("aws_access_key_id or aws_secret_access_key not found in secret " +++ path))

unfoldable pub credentials_of :
    String → String → Option String → Option String → Result Exc AwsStaticCredentials
unfolding missing_keys
credentials_of path region (some id) (some key) =
    ok (record { access_key_id = id; secret_access_key = key; region = region })
credentials_of path region none key = missing_keys path
credentials_of path region (some id) none = missing_keys path

-- `get_aws_credentials`
unfoldable pub get_aws_credentials :
    Hvac → VaultSettings → VaultSecret → String → Result Exc AwsStaticCredentials
unfolding client_of read_secret version_text credentials_of lookup
get_aws_credentials hvac settings vault_secret region = and_then (client_of hvac settings) λ client.
    and_then (read_secret hvac client vault_secret.path (some (version_text vault_secret.version)))
      λ secret.
        credentials_of vault_secret.path region (lookup "aws_access_key_id" secret)
          (lookup "aws_secret_access_key" secret)
