-- ===== src/Tests/Cookies.antt =====
-- Two runs of the command line client in a directory that can be made, and in one that may not.
use mathlib.Core.List.{Mem, mem-cons_self}
use automated_actions.Prelude.{
  ℕ, ◌<◌, ◌≡◌, refl, sym, String, Bool, false, Option, none, some, List, [], ◌∷◌, arith, ◌==◌,
  if◌then◌else◌, eq_refl, keep, ltb,
}
use automated_actions.Errors.{Exc, raised, runtime_error}
use automated_actions.Exec.{Result, ok, err, ok-ne-err}
use automated_actions.Db.Memory.{mem-keep}
use automated_actions.Cli.Cache.{
  Files, CookieFormat, Cookie, made, pypi_version_cache, session, load, save, cookies_file,
  user_cache_dir,
}
use automated_actions.Cli.Cache.Laws.{Run, no_more, again, AllHave, jars, session-AllHave}

is_fresh : ℕ → Option ℕ → Bool
is_fresh now none = false
is_fresh now (some expires) = ltb now expires

law :
    (now later expires : ℕ) (cookie : Cookie) (cookies : List Cookie)
    → cookie.expires ≡ some expires
    → now < expires
    → later < expires
    → Mem cookie cookies
    → (read : List Cookie) × ◌≡◌ {A = Result Exc (List Cookie)}
        (ok (keep (λ c. is_fresh later c.expires) cookies))
        (ok read)
      × Mem cookie read
unfolding is_fresh
law now later expires cookie cookies dated fresh later_fresh m = (
  _,
  refl,
  (mem-keep (λ c. is_fresh later c.expires) cookies cookie).1 (m, rw dated (ground arith)),
)

-- A file holds the cookies themselves.
abbrev format : CookieFormat (List Cookie)
format = record {
  saved = λ now ignore_discard cookies. cookies;
  loaded = λ now ignore_discard text. ok (keep (λ c. is_fresh now c.expires) text);
  loaded-saved = law;
}

-- The files as a function of their path; there is no place for temporary directories.
abbrev files : Files
files = record {
  World = String → Option (List Cookie);
  Text = List Cookie;
  content = λ path w. w path;
  write = λ path text w p. if p == path then some text else w p;
  appdirs_cache_dir = "/home/alice/.cache/automated-actions";
  mkdir = λ dir w. (made, w);
  mkdtemp = λ prefix w. (err (raised runtime_error "No usable temporary directory found"), w);
  content-write = λ path text w. rw (eq_refl path) refl;
  content-mkdir = λ path dir w. refl;
  content-mkdtemp = λ prefix dir name w h. absurd (ok-ne-err (sym h));
}

abbrev session_cookie : Cookie
session_cookie = record {
  name = "session";
  value = "alice";
  domain = "automated-actions";
  expires = some 3600;
}

abbrev home : files.World
home path = none

-- A login that lasts an hour.
abbrev login : Run
login = record { start = 0; exit = 2; requests = λ cookies. session_cookie ∷ cookies }

-- A later run, whose requests leave the jar.
abbrev another : Run
another = record { start = 600; exit = 602; requests = λ cookies. cookies }

session-AllHave_example : AllHave session_cookie (
    jars files format
      (another ∷ another ∷ [])
      (session files format login.start login.exit login.requests home).1)
unfolding load
session-AllHave_example =
    session-AllHave files format session_cookie 3600 login (another ∷ another ∷ []) [] home
      (λ w. refl) refl mem-cons_self refl (omega arith)
      (again (omega arith) (omega arith) (λ cookies m. m)
        (again (omega arith) (omega arith) (λ cookies m. m) no_more))

found :
    (jars files format (another ∷ []) (session files format 0 2 login.requests home).1)
    ≡ (ok (session_cookie ∷ []) ∷ [])
unfolding session cookies_file user_cache_dir load save is_fresh keep
found = refl

cached :
    (pypi_version_cache files home).0 ≡ ok "/home/alice/.cache/automated-actions/pypi_version_cache"
unfolding pypi_version_cache user_cache_dir
cached = refl
