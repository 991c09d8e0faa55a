-- ===== src/Db/Users.antt =====
-- packages/automated_actions/automated_actions/db/models/_user.py: the methods of User.
pub mod Laws
use automated_actions.Prelude.{
  ℕ, String, ◌+◌, Bool, true, false, ◌&&◌, Option, none, some, List, [], ◌∷◌, ◌==◌, if◌then◌else◌,
  any,
}
use automated_actions.Errors.{Exc}
use automated_actions.Exec.{Exec, Result, ok}
use automated_actions.Db.Dynamo.{Dynamo}
use automated_actions.Db.Table
use automated_actions.Db.Schema.{User, user_key, UserSchemaIn, UserSchemaOut}
use automated_actions.Db.World.{Database, World}

abbrev pub put_name : String → User → User
put_name n u = record u { name = n }

abbrev pub put_username : String → User → User
put_username n u = record u { username = n }

abbrev pub put_allowed_actions : List String → User → User
put_allowed_actions l u = record u { allowed_actions = l }

abbrev pub put_updated_at : ℕ → User → User
put_updated_at now u = record u { updated_at = now }

-- `x in l`
unfoldable pub elem : String → List String → Bool
elem x l = any (λ y. x == y) l

-- `set(l) <= set(m)`
unfoldable pub subset : List String → List String → Bool
unfolding elem
subset [] m = true
subset (x ∷ l) m = elem x m && subset l m

-- `set(l) == set(m)`
unfoldable pub same_set : List String → List String → Bool
unfolding subset
same_set l m = subset l m && subset m l

-- `User.dump`
unfoldable pub dump : User → UserSchemaOut
dump u = record {
  name = u.name;
  username = u.username;
  email = u.email;
  created_at = u.created_at;
  updated_at = u.updated_at;
  allowed_actions = u.allowed_actions;
}

-- The new item of `Table._pre_create`; `allowed_actions` has its default.
unfoldable pub new_user : UserSchemaIn → ℕ → User
new_user item now = record {
  email = item.email;
  name = item.name;
  username = item.username;
  allowed_actions = [];
  created_at = now;
  updated_at = now;
}

module _ (D : Database) where
  open D use {user_table}

  abbrev pub stored : World D → String → Option User
  stored w k = D.user_table.get w.users k

  -- `User.create`
  unfoldable pub create : UserSchemaIn → Exec (World D) Exc User
  unfolding new_user Table.create
  create item w =
      let (u, rows) = Table.create user_table (new_user item w.clock) w.users in
      (ok u, record w { users = rows })

  -- `User.update`
  unfoldable pub update_user : User → List (User → User) → Exec (World D) Exc User
  unfolding Table.update_item
  update_user u changes w =
      let (v, rows) = Table.update_item user_table put_updated_at w.clock u changes w.users in
      (ok v, record w { users = rows })

  -- The rest of `User.load` once the item with the email was looked up.
  unfoldable pub load_found : String → String → String → Option User → Exec (World D) Exc User
  unfolding create update_user
  load_found username name email none =
      create (record { name = name; username = username; email = email })
  load_found username name email (some user) =
      if user.username == username && user.name == name
      then (λ w. (ok user, w))
      else update_user user (put_name name ∷ put_username username ∷ [])

  -- `User.load`
  unfoldable pub load : String → String → String → Exec (World D) Exc User
  unfolding load_found
  load username name email w = load_found username name email (user_table.get w.users email) w

  -- `User.set_allowed_actions`
  unfoldable pub set_allowed_actions : User → List String → Exec (World D) Exc User
  unfolding same_set update_user
  set_allowed_actions user allowed =
      if same_set allowed user.allowed_actions
      then (λ w. (ok user, w))
      else update_user user (put_allowed_actions allowed ∷ [])
