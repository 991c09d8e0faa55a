-- ===== src/Utils/Vault/Laws.antt =====
-- Which secret is read, and which version of it.
use automated_actions.Prelude.{
  ℕ, String, ◌≡◌, ◌≢◌, inl, inr, refl, sym, ap, ◌∙◌, Bool, true, false, Option, none, some, List,
  [], ◌∷◌, ◌==◌, Bool-cases, eq_iff,
}
use automated_actions.Dict.{Dict}
use automated_actions.Text.{◌+++◌, has_char, join}
use automated_actions.Text.Laws.{join-split, split_first}
use automated_actions.Text.Decimal.{ℤ, pos, show, int, int-show}
use automated_actions.Errors.{Exc, raised, value_error}
use automated_actions.Exec.{Result, ok, err, and_then-ok, ok-injective, ok-ne-err}
use automated_actions.Utils.Vault.{
  Hvac, SecretV1, SecretV2, plain, versioned, split_secret_path, read_path_of, version_int,
  version_text, secret_version_latest, map_err, on_error_v1, on_error_v2, data_v1, data_v2,
  required, read_secret_v1, read_secret_v2, read_data, read_secret,
}

-- Where a path leads: the mount point has no slash, and what is below it stands behind the first
-- slash; a path with no slash is a mount point with nothing below it.
pub data IsPath : (path mount_point read_path : String) → Type 0 where
  is_bare : {path : String} → has_char b'/' path ≡ false → IsPath path path ""
  is_below :
      {mount_point : String} (read_path : String)
      → has_char b'/' mount_point ≡ false
      → IsPath (mount_point +++ ("/" +++ read_path)) mount_point read_path

read_path_of-IsPath :
    (path piece : String) (pieces : List String)
    → join "/" (piece ∷ pieces) ≡ path
    → has_char b'/' piece ≡ false
    → IsPath path (read_path_of (piece ∷ pieces)).0 (read_path_of (piece ∷ pieces)).1
unfolding join read_path_of
read_path_of-IsPath path piece [] h free = rw (← h) (is_bare free)
read_path_of-IsPath path piece (next ∷ pieces) h free = rw (← h) (is_below _ free)

split_secret_path-IsPath :
    (path : String) → IsPath path (split_secret_path path).0 (split_secret_path path).1
unfolding split_secret_path
split_secret_path-IsPath path =
    let (piece, pieces, e, free, second) = split_first b'/' path in
    rw e (read_path_of-IsPath path piece pieces (rw e at (join-split "/" path)) free)

-- Which version a text asks for: the latest one, or the one that it is the number of.
pub data Asks (version : String) : Option ℤ → Type 0 where
  for_latest : version ≡ "LATEST" → Asks version none
  for_number : (n : ℤ) → version ≢ "LATEST" → int version ≡ some n → Asks version (some n)

clash : {x : Bool} → x ≡ true → x ≡ false → ⊥
clash h e = cc

none-ne-some : {A : Type 0} {a : A} → none ≡ some a → ⊥
none-ne-some h = cc

version_number :
    (version : String) (o : Option ℤ) (n : Option ℤ)
    → int version ≡ o
    → (version == secret_version_latest) ≡ false
    → version_int version ≡ ok n
    → Asks version n
unfolding version_int
version_number version none n e other h = absurd (ok-ne-err (sym (rw (other, e) at h)))
version_number version (some k) n e other h =
    rw (← ok-injective (rw (other, e) at h))
      (for_number k (λ same. clash ((eq_iff _ _).1 same) other) e)

version_int-Asks : (version : String) (n : Option ℤ) → version_int version ≡ ok n → Asks version n
unfolding version_int
version_int-Asks version n h = elim (Bool-cases (version == secret_version_latest)) [
  | inl e ↦ rw (← ok-injective (rw e at h)) (for_latest ((eq_iff _ _).0 e))
  | inr e ↦ version_number version (int version) n refl e h
]

int_latest : int secret_version_latest ≡ none
unfolding int
int_latest = refl

show-ne-latest : (n : ℕ) → (show n == secret_version_latest) ≡ false
show-ne-latest n = elim (Bool-cases (show n == secret_version_latest)) [
  | inl e ↦ absurd (none-ne-some (sym int_latest ∙ (ap int (sym ((eq_iff _ _).0 e)) ∙ int-show n)))
  | inr e ↦ e
]

abbrev pub no_number : Exc
no_number = raised value_error "invalid literal for int() with base 10: 'None'"

-- A version that app-interface gives comes out as that number; a missing one is a ValueError.
pub version_int-version_text :
    (version : Option ℕ)
    → version_int (version_text version)
      ≡ elim version [ none ↦ err no_number | some n ↦ ok (some (pos n)) ]
unfolding version_int version_text
version_int-version_text none = refl
version_int-version_text (some n) = rw (show-ne-latest n) (rw (int-show n) refl)

module _ (hvac : Hvac) (client : hvac.Client) where
  -- A secret with no version under a mount point of the engine 2 is a ValueError, whatever Vault
  -- holds, and never the error that is meant for a missing version.
  pub read_secret_unversioned :
      (path : String)
      → hvac.mount_version client (split_secret_path path).0 ≡ ok "2"
      → read_secret hvac client path (some (version_text none)) ≡ err no_number
  unfolding read_secret read_data read_secret_v2
  read_secret_unversioned path engine = rw engine (rw (version_int-version_text none))

  map_err-ok :
      {A : Type 0} (f : Exc → Exc) (r : Result Exc A) (a : A) → map_err f r ≡ ok a → r ≡ ok a
  map_err-ok f (ok b) a h = h
  map_err-ok f (err e) a h = absurd (ok-ne-err (sym h))

  -- Where the content of a secret comes from: the latest or the numbered version under a mount
  -- point of the engine 2, and the secret itself under any other.
  pub data IsStored (mount_point read_path : String) (version : Option String)
      (content : Dict String) : Type 0 where
    by_engine_2 :
        (v : String) (n : Option ℤ) (shown : String)
        → hvac.mount_version client mount_point ≡ ok "2"
        → version ≡ some v
        → Asks v n
        → hvac.read_v2 client mount_point read_path n ≡ ok (versioned (some content) (ok shown))
        → IsStored mount_point read_path version content
    by_engine_1 :
        (engine : String)
        → hvac.mount_version client mount_point ≡ ok engine
        → engine ≢ "2"
        → hvac.read_v1 client mount_point read_path ≡ ok (plain (some content))
        → IsStored mount_point read_path version content

  -- The same at a path.
  pub record IsStoredAt (path : String) (version : Option String) (content : Dict String)
      : Type 0 where
    pub mount_point : String
    pub read_path : String
    pub leads_to : IsPath path mount_point read_path
    pub stored : IsStored mount_point read_path version content

  required-ok : (o : Option (Dict String)) (c : Dict String) → required o ≡ ok c → o ≡ some c
  unfolding required
  required-ok none c h = absurd (ok-ne-err (sym h))
  required-ok (some d) c h = ap some (ok-injective h)

  data_v1-ok :
      (m p : String) (r : SecretV1) (o : Option (Dict String)) → data_v1 m p r ≡ ok o → r ≡ plain o
  unfolding data_v1
  data_v1-ok m p SecretV1.no_answer o h = absurd (ok-ne-err (sym h))
  data_v1-ok m p SecretV1.no_content o h = absurd (ok-ne-err (sym h))
  data_v1-ok m p (plain o') o h = ap plain (ok-injective h)

  data_v2-ok :
      (m p : String) (r : SecretV2) (o : Option (Dict String)) (shown : String)
      → data_v2 m p r ≡ ok (o, shown)
      → r ≡ versioned o (ok shown)
  unfolding data_v2
  data_v2-ok m p SecretV2.no_answer o shown h = absurd (ok-ne-err (sym h))
  data_v2-ok m p SecretV2.no_content o shown h = absurd (ok-ne-err (sym h))
  data_v2-ok m p SecretV2.no_inner o shown h = absurd (ok-ne-err (sym h))
  data_v2-ok m p (versioned o' (ok v)) o shown h =
      let e = ok-injective h in ap (λ (q : Option (Dict String) × String). versioned q.0 (ok q.1)) e
  data_v2-ok m p (versioned o' (err e)) o shown h = absurd (ok-ne-err (sym h))

  read_v2-ok :
      (m p : String) (version : Option String) (content : Dict String)
      → hvac.mount_version client m ≡ ok "2"
      → (r : Option (Dict String) × String) → read_secret_v2 hvac client m p version ≡ ok r
      → r.0 ≡ some content
      → IsStored m p version content
  unfolding read_secret_v2
  read_v2-ok m p none content engine r h c = absurd (ok-ne-err (sym h))
  read_v2-ok m p (some v) content engine (o, shown) h c =
      let (n, number, h') = and_then-ok (version_int v) _ h in
      let (answer, given, h'') =
        and_then-ok (map_err (on_error_v2 v m p) (hvac.read_v2 client m p n)) _ h' in
      by_engine_2 v n shown engine refl (version_int-Asks v n number) (
        map_err-ok _ _ _ given
        ∙ ap ok (data_v2-ok m p answer o shown h'' ∙ ap (λ x. versioned x (ok shown)) c))

  read_secret-stored :
      (path : String) (version : Option String) (content : Dict String)
      → read_secret hvac client path version ≡ ok content
      → IsStored (split_secret_path path).0 (split_secret_path path).1 version content
  unfolding read_secret read_data read_secret_v1
  read_secret-stored path version content h =
      let (engine, mounted, h') =
        and_then-ok (hvac.mount_version client (split_secret_path path).0) _ h in
      let (o, read, h'') =
        and_then-ok
          (read_data hvac client (split_secret_path path).0 (split_secret_path path).1 version
            engine)
          _ h' in
      elim (Bool-cases (engine == "2")) [
        | inl e ↦
            let (r, read_2, first) =
              and_then-ok
                (read_secret_v2 hvac client (split_secret_path path).0 (split_secret_path path).1
                  version)
                _ (rw e at read) in
            read_v2-ok _ _ version content (mounted ∙ ap ok ((eq_iff _ _).0 e)) r read_2
              (ok-injective first ∙ required-ok o content h'')
        | inr e ↦
            let (answer, given, last) =
              and_then-ok
                (map_err (on_error_v1 (split_secret_path path).0 (split_secret_path path).1)
                  (hvac.read_v1 client (split_secret_path path).0 (split_secret_path path).1))
                _ (rw e at read) in
            by_engine_1 engine mounted (λ same. clash ((eq_iff _ _).1 same) e)
              (map_err-ok _ _ _ given
                ∙ ap ok (data_v1-ok _ _ answer o last ∙ ap plain (required-ok o content h'')))
      ]

  -- What is read is the content that Vault has below the mount point that the path names up to its
  -- first slash, at the rest of the path: under the engine 2 in the version that was asked for, the
  -- latest one for the text LATEST and the one with its number for any other text, and under another
  -- engine the only one.
  pub read_secret-IsStored :
      (path : String) (version : Option String) (content : Dict String)
      → read_secret hvac client path version ≡ ok content
      → IsStoredAt path version content
  read_secret-IsStored path version content h = record {
    mount_point = (split_secret_path path).0;
    read_path = (split_secret_path path).1;
    leads_to = split_secret_path-IsPath path;
    stored = read_secret-stored path version content h;
  }
