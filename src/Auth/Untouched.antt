-- ===== src/Auth/Untouched.antt =====
-- The writing of a user, the actions and the queue.
use automated_actions.Prelude.{ℕ, refl, String, List}
use automated_actions.Exec.Keeps.{Preserves, preserves_rules}
use automated_actions.Db.World.{Database, World, Message}
use automated_actions.Db.Schema.{User}
use automated_actions.Db.Users
use automated_actions.Db.Users.Laws.{load-Writes}

-- What a request may change only by an endpoint, and the clock.
abbrev pub work : (D : Database) → World D → D.action_table.Rows × List Message × ℕ × ℕ
work D w = (w.actions, w.queue, w.clock, w.drawn)

module _ (D : Database) where
  pub load-Preserves :
      (username name email : String) → Preserves (work D) (Users.load D username name email)
  load-Preserves username name email = record {
    at = λ w.
        let writes = load-Writes D w username name email in
        λ i. (writes.actions i, writes.queue i, writes.clock i, writes.drawn i);
  }

  pub set_allowed_actions-Preserves :
      (u : User) (allowed : List String)
      → Preserves (work D) (Users.set_allowed_actions D u allowed)
  unfolding Users.set_allowed_actions
  set_allowed_actions-Preserves u allowed = search (preserves_rules, update_user-Preserves)
    where
      update_user-Preserves :
          (changes : List (User → User)) → Preserves (work D) (Users.update_user D u changes)
      update_user-Preserves changes = record { at = λ w. refl }
