-- ===== src/Cli/Cache.antt =====
-- config.py, and the cookies that `main` of cli.py keeps in a file from one run to the next. The
-- files, the directories of appdirs and tempfile, and the format of MozillaCookieJar are
-- parameters; that a save fails is not modelled.
pub mod Laws
use mathlib.Core.List.{Mem}
use automated_actions.Prelude.{ℕ, ◌<◌, String, ◌≡◌, Bool, true, false, Option, none, some, List, []}
use automated_actions.Text.{◌+++◌}
use automated_actions.Errors.{Exc}
use automated_actions.Exec.{Exec, Result, ok, pure, raise, lift, gets, modify, ◌>>=◌, ◌>>◌}

-- A cookie of the jar, and when it expires; one without that is discarded with the session.
pub record Cookie : Type 0 where
  pub name : String
  pub value : String
  pub domain : String
  pub expires : Option ℕ

-- `path.mkdir(parents=True, exist_ok=True)`
pub data Mkdir : Type 0 where
  made permission_error : Mkdir
  other_error : Exc → Mkdir

pub record Files : Type 1 where
  pub World : Type 0
  pub Text : Type 0
  pub content : String → World → Option Text
  pub write : String → Text → World → World
  -- `AppDirs("automated-actions", "app-sre").user_cache_dir`
  pub appdirs_cache_dir : String
  pub mkdir : String → World → Mkdir × World
  pub mkdtemp : (prefix : String) → Exec World Exc String
  -- What was written is read.
  pub content-write :
      (path : String) (text : Text) (w : World) → content path (write path text w) ≡ some text
  -- A directory is made beside the files that are there.
  pub content-mkdir :
      (path dir : String) (w : World) → content path (mkdir dir w).1 ≡ content path w
  -- A temporary directory is a new one, with no file in it.
  pub content-mkdtemp :
      (prefix dir name : String) (w : World)
      → (mkdtemp prefix w).0 ≡ ok dir
      → content (dir +++ "/" +++ name) (mkdtemp prefix w).1 ≡ none

-- `MozillaCookieJar.save` and `load` at a time, with their `ignore_discard`.
pub record CookieFormat (Text : Type 0) : Type 0 where
  pub saved : ℕ → (ignore_discard : Bool) → List Cookie → Text
  pub loaded : ℕ → (ignore_discard : Bool) → Text → Result Exc (List Cookie)
  -- A cookie that has not expired is read back.
  pub loaded-saved :
      (now later expires : ℕ) (cookie : Cookie) (cookies : List Cookie)
      → cookie.expires ≡ some expires
      → now < expires
      → later < expires
      → Mem cookie cookies
      → (read : List Cookie) × (loaded later false (saved now true cookies) ≡ ok read)
        × Mem cookie read

module _ (files : Files) where
  open files use {World, Text, content, write, appdirs_cache_dir, mkdir, mkdtemp}

  made_dir : Mkdir → Exec World Exc String
  made_dir made = pure appdirs_cache_dir
  made_dir permission_error = mkdtemp "automated-actions-cache-"
  made_dir (other_error e) = raise e

  -- `config.user_cache_dir`, which is made again each time it is asked for
  unfoldable pub user_cache_dir : Exec World Exc String
  unfolding made_dir
  user_cache_dir w = let attempt = mkdir appdirs_cache_dir w in made_dir attempt.0 attempt.1

  -- `config.cookies_file`
  unfoldable pub cookies_file : Exec World Exc String
  unfolding user_cache_dir
  cookies_file = do dir ← user_cache_dir; pure (dir +++ "/" +++ "cookies.txt")

  -- `config.pypi_version_cache`
  unfoldable pub pypi_version_cache : Exec World Exc String
  unfolding user_cache_dir
  pypi_version_cache = do dir ← user_cache_dir; pure (dir +++ "/" +++ "pypi_version_cache")

  module _ (format : CookieFormat Text) where
    open format use {saved, loaded}

    -- `with contextlib.suppress(FileNotFoundError): cookiejar.load()` into an empty jar
    unfoldable pub load : ℕ → Option Text → Result Exc (List Cookie)
    load now none = ok []
    load now (some text) = loaded now false text

    -- `cookiejar.save(ignore_discard=True)`
    unfoldable pub save : ℕ → String → List Cookie → Exec World Exc (Unit {0})
    save now filename cookies = modify (write filename (saved now true cookies))

    -- What a run with Kerberos does to the jar: it is loaded at a time, the requests of the run
    -- change it, and the exit saves it at another time. The jar at the start is returned.
    unfoldable pub session :
        (start exit : ℕ) → (List Cookie → List Cookie) → Exec World Exc (List Cookie)
    unfolding cookies_file load save
    session start exit requests = do
      filename ← cookies_file
      text ← gets (content filename)
      cookies ← lift (load start text)
      save exit filename (requests cookies)
      pure cookies
