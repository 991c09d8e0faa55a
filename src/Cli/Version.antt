-- ===== src/Cli/Version.antt =====
-- utils.py: the version on PyPI, with its cache on the disk, and the Kerberos ticket. diskcache,
-- the HTTP client, the parser of versions and the commands of the shell are parameters. The clock
-- stands still during a call.
pub mod Laws
use automated_actions.Prelude.{
  ℕ, ◌+◌, ◌*◌, ◌≤◌, ◌<◌, String, ◌≡◌, ◌≢◌, Bool, true, false, not, Option, none, some, List, [],
  ◌∷◌, ltb, get_or, is_some, if◌then◌else◌, ◌==◌,
}
use automated_actions.Text.{◌+++◌}
use automated_actions.Errors.{Exc}
use automated_actions.Exec.{
  Exec, Result, ok, err, and_then, pure, raise, lift, gets, modify, ◌>>=◌, ◌>>◌,
}
use automated_actions.Auth.Request.{truthy}

-- diskcache.Cache: times are in seconds.
pub record DiskCache : Type 1 where
  pub Disk : Type 0
  -- `cache.get(key)` at a time
  pub get : ℕ → String → Disk → Option String
  -- `cache.set(key, value, expire=…)` at a time
  pub set : ℕ → String → String → ℕ → Disk → Disk
  -- A value stays until it expires.
  pub get-set :
      (now later expire : ℕ) (key value : String) (disk : Disk)
      → now ≤ later
      → later < now + expire
      → get later key (set now key value expire disk) ≡ some value

-- The answer of PyPI: whether its status is no error, and the item "version" of its item "info".
pub record PypiReply : Type 0 where
  pub is_success : Bool
  pub info_version : Result Exc (Option String)

-- What the request raises: a RequestError, or anything else.
pub data HttpFailure : Type 0 where
  request_error : HttpFailure
  other : Exc → HttpFailure

-- The answer to the request, and the HTTPStatusError of `raise_for_status`, which is no
-- RequestError.
pub record Pypi : Type 0 where
  pub get_json : String → Result HttpFailure PypiReply
  pub status_error : Exc

abbrev pub no_version : String
no_version = "0.0.0"

-- `config.pypi_version_cache_expire_minutes`
abbrev pub cache_expire_minutes : ℕ
cache_expire_minutes = 1440

read_reply : Exc → PypiReply → Result Exc String
read_reply status_error reply =
    if reply.is_success
    then (and_then reply.info_version λ version. ok (get_or version no_version))
    else err status_error

-- The `try` statement
unfoldable pub asked_version : Exc → Result HttpFailure PypiReply → Result Exc String
unfolding read_reply
asked_version status_error (ok reply) = read_reply status_error reply
asked_version status_error (err request_error) = ok no_version
asked_version status_error (err (other e)) = err e

module _ (cache : DiskCache) {Version : Type 0} (parse_version : String → Result Exc Version)
    (pypi : Pypi) where
  open cache use {Disk, get, set}

  -- The version, of the cache or of PyPI.
  version_text : String → Option String → Result Exc String
  unfolding asked_version
  version_text package_name (some version) = ok version
  version_text package_name none =
      asked_version pypi.status_error
        (pypi.get_json ("https://pypi.org/pypi/" +++ package_name +++ "/json"))

  -- `get_latest_pypi_version` at a time
  unfoldable pub get_latest_pypi_version : ℕ → String → Exec Disk Exc Version
  unfolding version_text
  get_latest_pypi_version now package_name = do
    cached ← gets (get now package_name)
    version_str ← lift (version_text package_name cached)
    modify (set now package_name version_str (cache_expire_minutes * 60))
    lift (parse_version version_str)

-- A command that is run: whether it exits with 0.
pub record Shell : Type 1 where
  pub World : Type 0
  pub which : String → Option String
  pub run : List String → Exec World Exc Bool
  -- `subprocess.CalledProcessError`
  pub called_process_error : Exc

module _ (shell : Shell) where
  open shell use {World, which, run, called_process_error}

  -- `kerberos_available`
  unfoldable pub kerberos_available : Bool
  unfolding truthy
  kerberos_available = is_some (truthy (which "kinit"))

  acquired : Bool → Exec World Exc (Unit {0})
  acquired true = pure tt
  acquired false = raise called_process_error

  renewed : Bool → Exec World Exc (Unit {0})
  unfolding acquired
  renewed true = pure tt
  renewed false = run ("kinit" ∷ []) >>= acquired

  -- `kinit`
  unfoldable pub kinit : Exec World Exc (Unit {0})
  unfolding renewed
  kinit = run ("klist" ∷ "-s" ∷ []) >>= renewed
