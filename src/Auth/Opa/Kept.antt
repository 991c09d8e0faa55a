-- ===== src/Auth/Opa/Kept.antt =====
-- The authorization of a request, the actions and the queue.
use automated_actions.Prelude.{String}
use automated_actions.Dict.{Dict}
use automated_actions.Exec.Keeps.{Preserves, preserves_rules}
use automated_actions.Db.World.{Database}
use automated_actions.Db.Schema.{User}
use automated_actions.Auth.Untouched.{work, set_allowed_actions-Preserves}
use automated_actions.Auth.Request.{Request}
use automated_actions.Auth.Opa.{Opa, enforce, authorize}

module _ (D : Database) (opa : Opa D) (request : Request) (user : User) (extra : Dict String) where
  enforce-Preserves : Preserves (work D) (enforce D opa request user extra)
  unfolding enforce
  enforce-Preserves = search (preserves_rules, set_allowed_actions-Preserves)

  pub authorize-Preserves : Preserves (work D) (authorize D opa request user extra)
  unfolding authorize
  authorize-Preserves = search (preserves_rules, enforce-Preserves)
