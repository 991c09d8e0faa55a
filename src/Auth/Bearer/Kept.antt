-- ===== src/Auth/Bearer/Kept.antt =====
-- The user of a request, the actions and the queue.
use automated_actions.Prelude.{String, Option, none, some}
use automated_actions.Exec.Keeps.{Preserves, preserves_rules}
use automated_actions.Db.World.{Database}
use automated_actions.Db.Schema.{User}
use automated_actions.Auth.Untouched.{work, load-Preserves}
use automated_actions.Auth.Request.{Request, truthy}
use automated_actions.Auth.Oidc.{OidcLibs, Oidc}
use automated_actions.Auth.Oidc.Kept
use automated_actions.Auth.Bearer.{
  Jwt, get_user_info, with_token, with_header, authenticate, or_oidc, get_user,
}

module _ (jwt : Jwt) (issuer secret : String) (D : Database) where
  get_user_info-Preserves :
      (token : String) → Preserves (work D) (get_user_info jwt issuer secret D token)
  unfolding get_user_info
  get_user_info-Preserves token = search (preserves_rules, load-Preserves)

  with_token-Preserves :
      (token : String) → Preserves (work D) (with_token jwt issuer secret D token)
  unfolding with_token
  with_token-Preserves token = search (preserves_rules, get_user_info-Preserves)

  with_header-Preserves :
      (o : Option String) → Preserves (work D) (with_header jwt issuer secret D o)
  unfolding with_header
  with_header-Preserves none = search preserves_rules
  with_header-Preserves (some header) = search (preserves_rules, with_token-Preserves)

  authenticate-Preserves :
      (request : Request) → Preserves (work D) (authenticate jwt issuer secret D request)
  unfolding authenticate
  authenticate-Preserves request = with_header-Preserves (truthy request.authorization)

  or_oidc-Preserves :
      (L : OidcLibs) (oidc : Oidc) (request : Request) (found : Option User)
      → Preserves (work D) (or_oidc jwt issuer secret D L oidc request found)
  unfolding or_oidc
  or_oidc-Preserves L oidc request none = Kept.authenticate-Preserves L oidc D request
  or_oidc-Preserves L oidc request (some user) = search preserves_rules

  pub get_user-Preserves :
      (L : OidcLibs) (oidc : Oidc) (request : Request)
      → Preserves (work D) (get_user jwt issuer secret D L oidc request)
  unfolding get_user
  get_user-Preserves L oidc request =
      search (preserves_rules, authenticate-Preserves, or_oidc-Preserves)
