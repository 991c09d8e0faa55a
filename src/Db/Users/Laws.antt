-- ===== src/Db/Users/Laws.antt =====
-- What loading a user and storing the allowed actions do to the table of users.
use automated_actions.Prelude.{
  ℕ, String, ◌≡◌, refl, ap, ◌∙◌, sym, true, ◌&&◌, Option, none, some, List, [], ◌∷◌, ◌++◌, ◌==◌,
  eq_iff, eq_refl, if◌then◌else◌, Bool-cases, inl, inr,
}
use automated_actions.Errors.{Exc}
use automated_actions.Exec.{Result, ok}
use automated_actions.Exec.Keeps.{IsAtomic, IsAtomic-of_ok}
use automated_actions.Db.Dynamo.{apply}
use automated_actions.Db.Table
use automated_actions.Db.Schema.{User}
use automated_actions.Db.World.{Database, World}
use automated_actions.Db.Users.{
  put_name, put_username, put_allowed_actions, put_updated_at, same_set, new_user, stored,
  update_user, load_found, load, set_allowed_actions,
}

-- The world after the run returned `u`: the row of `u` is `u`, and nothing else has changed.
pub record Writes (D : Database) (w : World D) (u : User) (run : Result Exc User × World D)
    : Type 0 where
  pub returns : run.0 ≡ ok u
  pub row : (j : String) → stored D run.1 j ≡ (if u.email == j then some u else stored D w j)
  pub actions : run.1.actions ≡ w.actions
  pub queue : run.1.queue ≡ w.queue
  pub clock : run.1.clock ≡ w.clock
  pub drawn : run.1.drawn ≡ w.drawn

-- The user that a login with these claims has, given the stored one.
unfoldable pub loaded : ℕ → String → String → String → Option User → User
unfolding new_user
loaded now username name email none =
    new_user (record { name = name; username = username; email = email }) now
loaded now username name email (some u) =
    if u.username == username && u.name == name
    then u
    else record u { name = name; username = username; updated_at = now }

module _ (D : Database) (w : World D) where
  open D use {user_table}

  -- A row that is as it should be counts as written.
  unchanged-Writes : (u : User) → stored D w u.email ≡ some u → Writes D w u (ok u, w)
  unchanged-Writes u found = record {
    returns = refl;
    row = λ j. kept j;
    actions = refl;
    queue = refl;
    clock = refl;
    drawn = refl;
  }
    where
      kept : (j : String) → stored D w j ≡ (if u.email == j then some u else stored D w j)
      kept j = elim (Bool-cases (u.email == j)) [
        | inl e ↦ rw e (rw (← (eq_iff _ _).0 e) found)
        | inr e ↦ rw e
      ]

  update_user-Writes :
      (a u : User) (changes : List (User → User))
      → (found : stored D w a.email ≡ some u)
      → (apply (changes ++ put_updated_at w.clock ∷ []) u).email ≡ a.email
      → Writes D w (apply (changes ++ put_updated_at w.clock ∷ []) u) (update_user D a changes w)
  unfolding update_user Table.update_item
  update_user-Writes a u changes found key =
      let all = changes ++ put_updated_at w.clock ∷ [] in
      record {
        returns = ap ok (user_table.update-returns w.users a.email all u found);
        row = λ j.
            user_table.get-update w.users a.email all u found key j
            ∙ ap (λ k. if k == j then some (apply all u) else stored D w j) (sym key);
        actions = refl;
        queue = refl;
        clock = refl;
        drawn = refl;
      }

  load_found-Writes :
      (username name email : String) (o : Option User)
      → stored D w email ≡ o
      → Writes D w (loaded w.clock username name email o) (load_found D username name email o w)
  unfolding load_found loaded
  load_found-Writes username name email none found = record {
    returns = refl;
    row = λ j. user_table.get-save w.users _ j;
    actions = refl;
    queue = refl;
    clock = refl;
    drawn = refl;
  }
  load_found-Writes username name email (some u) found =
      let key = user_table.hash_key-get w.users email u found in
      let own = ap (λ k. stored D w k) key ∙ found in
      elim (Bool-cases (u.username == username && u.name == name)) [
        | inl same ↦ rw same (unchanged-Writes u own)
        | inr changed ↦
            rw changed
              (update_user-Writes u u (put_name name ∷ put_username username ∷ []) own refl)
      ]

  -- A user that is stored as given is only read; one whose names have changed keeps the rest; an
  -- unknown email is stored as a new user with no allowed actions.
  pub load-Writes :
      (username name email : String)
      → Writes D w
          (loaded w.clock username name email (stored D w email))
          (load D username name email w)
  unfolding load
  load-Writes username name email = load_found-Writes username name email (stored D w email) refl

  -- Storing the allowed actions of a stored user keeps its other attributes, and writes nothing
  -- if the same actions are stored already.
  pub set_allowed_actions-Writes :
      (u : User) (allowed : List String)
      → stored D w u.email ≡ some u
      → Writes D w
          (if same_set allowed u.allowed_actions
            then u
            else record u { allowed_actions = allowed; updated_at = w.clock })
          (set_allowed_actions D u allowed w)
  unfolding set_allowed_actions
  set_allowed_actions-Writes u allowed found =
      elim (Bool-cases (same_set allowed u.allowed_actions)) [
        | inl same ↦ rw same (unchanged-Writes u found)
        | inr changed ↦
            rw changed (update_user-Writes u u (put_allowed_actions allowed ∷ []) found refl)
      ]

loaded_names :
    (now : ℕ) (username name email : String) (o : Option User)
    → ((loaded now username name email o).username == username
        && (loaded now username name email o).name == name)
      ≡ true
unfolding loaded
loaded_names now username name email none = simp eq_refl
loaded_names now username name email (some u) =
    elim (Bool-cases (u.username == username && u.name == name)) [
      | inl same ↦ rw same same
      | inr changed ↦ rw changed (simp eq_refl)
    ]

-- A second load with the same claims, at whatever time, finds the user as it is and writes
-- nothing.
pub load_again :
    (D : Database) (w w' : World D) (username name email : String)
    → stored D w' email ≡ some (loaded w.clock username name email (stored D w email))
    → load D username name email w'
      ≡ (ok (loaded w.clock username name email (stored D w email)), w')
unfolding load load_found
load_again D w w' username name email found =
    rw (found, load, load_found)
      (rw (loaded_names w.clock username name email (stored D w email)) refl)

loaded_email :
    (D : Database) (w : World D) (username name email : String) (o : Option User)
    → stored D w email ≡ o
    → (loaded w.clock username name email o).email ≡ email
unfolding loaded
loaded_email D w username name email none found = refl
loaded_email D w username name email (some u) found =
    let key = D.user_table.hash_key-get w.users email u found in
    elim (Bool-cases (u.username == username && u.name == name)) [
      | inl same ↦ rw same key
      | inr changed ↦ rw changed key
    ]

-- Loading a user twice with the same claims is loading it once: the second load, at whatever
-- later time, returns the user of the first and changes nothing.
pub load_twice :
    (D : Database) (w : World D) (username name email : String) (later : ℕ)
    → let w' : World D = record (load D username name email w).1 { clock = later } in
      load D username name email w' ≡ ((load D username name email w).0, w')
load_twice D w username name email later =
    let u = loaded w.clock username name email (stored D w email) in
    let first = load-Writes D w username name email in
    let w' : World D = record (load D username name email w).1 { clock = later } in
    let here : stored D w' email ≡ some u =
      first.row email
      ∙ (rw (loaded_email D w username name email (stored D w email) refl) (simp eq_refl)) in
    load_again D w w' username name email here ∙ ap (λ r. (r, w')) (sym first.returns)

-- Loading a user never raises.
pub load-IsAtomic :
    (D : Database) (username name email : String) → IsAtomic (load D username name email)
load-IsAtomic D username name email =
    IsAtomic-of_ok (load D username name email)
      (λ w. loaded w.clock username name email (stored D w email))
      (λ w. (load-Writes D w username name email).returns)
