-- ===== src/Cli/Version/Laws.antt =====
-- What the cache does to the version, and when a Kerberos ticket is there.
use automated_actions.Prelude.{ℕ, ◌+◌, ◌*◌, ◌≤◌, ◌<◌, String, ◌≡◌, refl, some, List, [], ◌∷◌}
use automated_actions.Errors.{Exc}
use automated_actions.Exec.{Result}
use automated_actions.Cli.Version.{DiskCache, Pypi, get_latest_pypi_version, cache_expire_minutes}

module _ (cache : DiskCache) {Version : Type 0} (parse_version : String → Result Exc Version)
    (package_name : String) where
  -- Runs at times in order, each less than the cache's time after the one before, and PyPI with its
  -- answer at each of them.
  pub data Runs : ℕ → List (ℕ × Pypi) → Type 0 where
    no_more : {before : ℕ} → Runs before []
    again :
        {before now : ℕ} {pypi : Pypi} {rest : List (ℕ × Pypi)}
        → before ≤ now
        → now < before + cache_expire_minutes * 60
        → Runs now rest
        → Runs before ((now, pypi) ∷ rest)

  -- The results of the runs, with the cache passed on.
  abbrev pub results : List (ℕ × Pypi) → cache.Disk → List (Result Exc Version)
  results [] disk = []
  results ((now, pypi) ∷ rest) disk =
      let run = get_latest_pypi_version cache parse_version pypi now package_name disk in
      run.0 ∷ results rest run.1

  -- All runs give the same.
  pub data AreAll (r : Result Exc Version) : List (Result Exc Version) → Type 0 where
    none_left : AreAll r []
    one_more : {rs : List (Result Exc Version)} → AreAll r rs → AreAll r (r ∷ rs)

  -- A version that is in the cache is given, and it is cached again for the full time.
  pub get_latest_pypi_version-hit :
      (pypi : Pypi) (now : ℕ) (version : String) (disk : cache.Disk)
      → cache.get now package_name disk ≡ some version
      → get_latest_pypi_version cache parse_version pypi now package_name disk ≡ (
        parse_version version,
        cache.set now package_name version (cache_expire_minutes * 60) disk,
      )
  unfolding get_latest_pypi_version
  get_latest_pypi_version-hit pypi now version disk h = rw h refl

  results-AreAll :
      (runs : List (ℕ × Pypi)) (before : ℕ) (version : String) (disk : cache.Disk)
      → Runs before runs
      → AreAll
          (parse_version version)
          (results runs (cache.set before package_name version (cache_expire_minutes * 60) disk))
  results-AreAll [] before version disk no_more = none_left
  results-AreAll ((now, pypi) ∷ rest) before version disk (again order soon runs) =
      rw
        (get_latest_pypi_version-hit pypi now version _
          (cache.get-set before now _ package_name version disk order soon))
        (one_more (results-AreAll rest now version _ runs))

  -- Once a version is cached, every later run gives that version, whatever PyPI has: if each comes
  -- less than a day after the one before it, PyPI is never asked again.
  pub latest_version_stays :
      (runs : List (ℕ × Pypi)) (now : ℕ) (pypi : Pypi) (version : String) (disk : cache.Disk)
      → cache.get now package_name disk ≡ some version
      → Runs now runs
      → AreAll (parse_version version) (results ((now, pypi) ∷ runs) disk)
  latest_version_stays runs now pypi version disk h order =
      rw (get_latest_pypi_version-hit pypi now version disk h)
        (one_more (results-AreAll runs now version disk order))
