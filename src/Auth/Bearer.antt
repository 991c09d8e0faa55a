-- ===== src/Auth/Bearer.antt =====
-- `BearerTokenAuth` of auth.py, the endpoint that makes tokens for it (api/v1/views/admin.py), and
-- `get_user` of api/v1/dependencies.py. PyJWT is a parameter.
pub mod Laws
pub mod Kept
use text.Mathlib.Text.{starts_with}
use automated_actions.Prelude.{
  ℕ, String, ◌+◌, ◌/◌, ◌≤◌, ◌<◌, ◌≡◌, Bool, true, false, Option, none, some, List, [], ◌∷◌, ◌==◌,
  if◌then◌else◌,
}
use automated_actions.Dict.{Dict}
use automated_actions.Text.{split}
use automated_actions.Errors.{Exc, http}
use automated_actions.Exec.{Exec, Result, ok, err, pure, raise, lift, gets, catch, ◌>>=◌, ◌>>◌}
use automated_actions.Db.Schema.{User}
use automated_actions.Db.World.{Database, World}
use automated_actions.Db.Actions.{second}
use automated_actions.Db.Users
use automated_actions.Auth.Request.{Request, truthy}
use automated_actions.Auth.Oidc.{AccessToken, OidcLibs, Oidc}
use automated_actions.Auth.Oidc

-- `jwt.encode` with a secret, and `jwt.decode` at a time, for an issuer and a secret, with the
-- options of the code; times are seconds.
pub record Jwt : Type 0 where
  pub encode : AccessToken → String → String
  pub decode : ℕ → String → String → String → Result Exc AccessToken

-- What PyJWT documents: a token that was encoded with the secret decodes if it has the issuer, was
-- issued in the past and has not expired.
pub record IsJwt (jwt : Jwt) : Type 0 where
  pub decode-encode :
      (now : ℕ) (issuer secret : String) (token : AccessToken)
      → token.iss ≡ issuer
      → token.iat ≤ now
      → now < token.exp
      → jwt.decode now issuer secret (jwt.encode token secret) ≡ ok token

-- The answer 401 with its header.
abbrev pub unauthorized : String → Exc
unauthorized detail = http 401 detail (("WWW-Authenticate", "Bearer") ∷ [])

-- `pieces[1]`
unfoldable pub second_piece : List String → Result Exc String
second_piece (first ∷ next ∷ rest) = ok next
second_piece (first ∷ []) = err (Exc.library "IndexError")
second_piece [] = err (Exc.library "IndexError")

module _ (jwt : Jwt) (issuer secret : String) (D : Database) where
  -- `BearerTokenAuth.get_user_info`
  unfoldable pub get_user_info : String → Exec (World D) Exc User
  get_user_info encoded_token = do
    now ← gets (λ w. w.clock / second)
    token ← lift (jwt.decode now issuer secret encoded_token)
    Users.load D token.preferred_username token.name token.email

  unfoldable pub with_token : String → Exec (World D) Exc (Option User)
  unfolding get_user_info
  with_token encoded_token =
      catch (do user ← get_user_info encoded_token; pure (some user))
        (λ _. raise (unauthorized "Invalid or expired token."))

  with_header : Option String → Exec (World D) Exc (Option User)
  unfolding with_token second_piece split
  with_header none = pure none
  with_header (some authorization) =
      if starts_with authorization "Bearer "
      then (lift (second_piece (split b' ' authorization)) >>= with_token)
      else raise (unauthorized "Invalid authorization header.")

  -- `BearerTokenAuth.__call__`; `none` is no user.
  unfoldable pub authenticate : Request → Exec (World D) Exc (Option User)
  unfolding with_header truthy
  authenticate request = with_header (truthy request.authorization)

  -- `BearerTokenAuth.create_token`, at a time in seconds.
  unfoldable pub create_token : ℕ → String → String → String → ℕ → String
  create_token now username name email expiration =
      jwt.encode
        (record {
          name = name;
          preferred_username = username;
          email = email;
          iss = issuer;
          exp = expiration;
          iat = now;
        })
        secret

  module _ (L : OidcLibs) (oidc : Oidc) where
    or_oidc : Request → Option User → Exec (World D) Exc User
    or_oidc request (some user) = pure user
    or_oidc request none = Oidc.authenticate L oidc D request

    -- `get_user` of dependencies.py
    unfoldable pub get_user : Request → Exec (World D) Exc User
    unfolding authenticate or_oidc
    get_user request = do found ← authenticate request; or_oidc request found
