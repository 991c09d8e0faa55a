-- ===== src/Cli/Cache/Laws.antt =====
-- What the runs of the command line client find of the cookies of the runs before them.
use mathlib.Core.List.{Mem}
use automated_actions.Prelude.{ℕ, ◌<◌, String, ◌≡◌, refl, true, List, [], ◌∷◌, some}
use automated_actions.Text.{◌+++◌}
use automated_actions.Errors.{Exc}
use automated_actions.Exec.{Result, ok}
use automated_actions.Cli.Cache.{
  Files, CookieFormat, Cookie, made, permission_error, user_cache_dir, cookies_file, load, save,
  session,
}

-- A run: when it starts and exits, and what its requests do to the jar.
pub record Run : Type 0 where
  pub start : ℕ
  pub exit : ℕ
  pub requests : List Cookie → List Cookie

-- Runs that start and exit before a cookie expires, and whose requests leave it in the jar.
pub data Spares (cookie : Cookie) (expires : ℕ) : List Run → Type 0 where
  no_more : Spares cookie expires []
  again :
      {run : Run} {runs : List Run}
      → run.start < expires
      → run.exit < expires
      → ((cookies : List Cookie) → Mem cookie cookies → Mem cookie (run.requests cookies))
      → Spares cookie expires runs
      → Spares cookie expires (run ∷ runs)

-- All jars were loaded and have the cookie.
pub data AllHave (cookie : Cookie) : List (Result Exc (List Cookie)) → Type 0 where
  none_left : AllHave cookie []
  one_more :
      {cookies : List Cookie} {jars : List (Result Exc (List Cookie))}
      → Mem cookie cookies
      → AllHave cookie jars
      → AllHave cookie (ok cookies ∷ jars)

module _ (files : Files) (format : CookieFormat files.Text) where
  open files use {World, content, write, appdirs_cache_dir, mkdir, mkdtemp}

  abbrev kept_file : String
  kept_file = appdirs_cache_dir +++ "/" +++ "cookies.txt"

  -- The jars that the runs start with, the files passed on.
  abbrev pub jars : List Run → World → List (Result Exc (List Cookie))
  jars [] w = []
  jars (run ∷ runs) w =
      let done = session files format run.start run.exit run.requests w in done.0 ∷ jars runs done.1

  -- Where the directory can be made, the run reads the kept file and writes to it.
  session_made :
      (run : Run) (cookies : List Cookie) (w : World)
      → (mkdir appdirs_cache_dir w).0 ≡ made
      → load files format run.start (content kept_file w) ≡ ok cookies
      → session files format run.start run.exit run.requests w ≡ (
        ok cookies,
        write kept_file
            (format.saved run.exit true (run.requests cookies))
            (mkdir appdirs_cache_dir w).1,
      )
  unfolding session cookies_file user_cache_dir save
  session_made run cookies w is_made h =
      rw is_made (rw (files.content-mkdir kept_file appdirs_cache_dir w) (rw h refl))

  jars-AllHave :
      (cookie : Cookie) (expires now : ℕ) (saved : List Cookie) (runs : List Run) (w : World)
      → ((w : World) → (mkdir appdirs_cache_dir w).0 ≡ made)
      → cookie.expires ≡ some expires
      → now < expires
      → Mem cookie saved
      → content kept_file w ≡ some (format.saved now true saved)
      → Spares cookie expires runs
      → AllHave cookie (jars runs w)
  unfolding load
  jars-AllHave cookie expires now saved [] w is_made dated fresh has kept no_more = none_left
  jars-AllHave cookie expires now saved (run ∷ runs) w is_made dated fresh has kept
        (again starts exits spares rest) =
      let (read, is_read, has_read) =
        format.loaded-saved now run.start expires cookie saved dated fresh starts has in
      rw (session_made run read w (is_made w) (rw kept is_read)) (
        one_more has_read (
          jars-AllHave cookie expires run.exit (run.requests read) runs _ is_made dated exits
            (spares read has_read) (files.content-write kept_file _ _) rest))

  -- Where the directory can be made: a cookie that is in the jar at the exit of a run, is in the
  -- jar at the start of each later run, if they start and exit before it expires, their requests
  -- leave it in the jar, and nothing else changes the files.
  pub session-AllHave :
      (cookie : Cookie) (expires : ℕ) (first : Run) (runs : List Run) (cookies : List Cookie)
      (w : World)
      → ((w : World) → (mkdir appdirs_cache_dir w).0 ≡ made)
      → load files format first.start (content kept_file w) ≡ ok cookies
      → Mem cookie (first.requests cookies)
      → cookie.expires ≡ some expires
      → first.exit < expires
      → Spares cookie expires runs
      → AllHave cookie (jars runs (session files format first.start first.exit first.requests w).1)
  session-AllHave cookie expires first runs cookies w is_made is_loaded has dated exits spares =
      rw (session_made first cookies w (is_made w) is_loaded) (
        jars-AllHave cookie expires first.exit (first.requests cookies) runs _ is_made dated exits
          has (files.content-write kept_file _ _) spares)

  -- Where it may not be made, each run starts with no cookies, whatever the runs before it saved:
  -- the temporary directory is a new one each time.
  pub session_denied :
      (run : Run) (dir : String) (w : World)
      → (mkdir appdirs_cache_dir w).0 ≡ permission_error
      → (mkdtemp "automated-actions-cache-" (mkdir appdirs_cache_dir w).1).0 ≡ ok dir
      → (session files format run.start run.exit run.requests w).0 ≡ ok []
  unfolding session cookies_file user_cache_dir save load
  session_denied run dir w denied is_dir =
      rw denied (rw is_dir (rw (files.content-mkdtemp _ dir "cookies.txt" _ is_dir) refl))
