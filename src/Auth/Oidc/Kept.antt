-- ===== src/Auth/Oidc/Kept.antt =====
-- The session check, the actions and the queue.
use automated_actions.Prelude.{String, Option, none, some}
use automated_actions.Dict.{lookup}
use automated_actions.Exec.Keeps.{Preserves, preserves_rules}
use automated_actions.Db.World.{Database}
use automated_actions.Auth.Untouched.{work, load-Preserves}
use automated_actions.Auth.Request.{Request, truthy}
use automated_actions.Auth.Oidc.{
  OidcLibs, Oidc, get_user_info, session_user, with_session, authenticate,
}

module _ (L : OidcLibs) (oidc : Oidc) (D : Database) where
  get_user_info-Preserves : (token : String) → Preserves (work D) (get_user_info L oidc D token)
  unfolding get_user_info
  get_user_info-Preserves token = search (preserves_rules, load-Preserves)

  session_user-Preserves : (token : String) → Preserves (work D) (session_user L oidc D token)
  unfolding session_user
  session_user-Preserves token = search (preserves_rules, get_user_info-Preserves)

  with_session-Preserves :
      (request : Request) (o : Option String) → Preserves (work D) (with_session L oidc D request o)
  unfolding with_session
  with_session-Preserves request none = search preserves_rules
  with_session-Preserves request (some token) = search (preserves_rules, session_user-Preserves)

  pub authenticate-Preserves :
      (request : Request) → Preserves (work D) (authenticate L oidc D request)
  unfolding authenticate
  authenticate-Preserves request =
      with_session-Preserves request (truthy (lookup "session" request.cookies))
