-- ===== src/Tests/Sessions.antt =====
-- The theorems on logins, sessions and tokens at concrete requests.
use automated_actions.Prelude.{◌≡◌, ◌⊎◌, refl, String, true, some, [], ◌∷◌, arith}
use automated_actions.Dict.{lookup}
use automated_actions.Text.{◌+++◌, has_char}
use automated_actions.Errors.{Exc}
use automated_actions.Exec.{ok, err}
use automated_actions.Db.Schema.{User}
use automated_actions.Db.World.{World}
use automated_actions.Db.Users
use automated_actions.Auth.NextUrl.{is_safe_next_url}
use automated_actions.Auth.Request.{Request, Response, set_cookie, delete_cookie, truthy}
use automated_actions.Auth.Oidc.{
  AccessToken, StateData, login, callback, check_state, exchange, session_response, safe_or_root,
  enforce_login,
}
use automated_actions.Auth.Oidc
use automated_actions.Auth.Oidc.Laws.{
  IsAccepted, callback-IsAccepted, callback-login, authenticate-callback,
}
use automated_actions.Auth.Bearer.{create_token, get_user}
use automated_actions.Auth.Bearer
use automated_actions.Auth.Bearer.Laws.{IsUnauthorized, get_user-Answers, get_user-create_token}
use automated_actions.Tests.Codes.{pack}
use automated_actions.Tests.Setup.{
  database, world, libs, libs-IsSigner, oidc, jwt, jwt-IsJwt, request, sign_state,
}

abbrev token : String
token = create_token jwt "issuer" "secret" database 3 "alice" "Alice" "alice@example.com" 60

abbrev with_token : Request
with_token = record request { authorization = some ("Bearer " +++ token) }

get_user-Answers_example :
    ((u : User) × (w' : World database) × (Bearer.authenticate jwt "issuer" "secret" database
          with_token world
        ≡ (ok (some u), w'))
      × (get_user jwt "issuer" "secret" database libs oidc with_token world ≡ (ok u, w')))
    ⊎ ((e : Exc) × IsUnauthorized jwt "issuer" "secret" database e
        × (get_user jwt "issuer" "secret" database libs oidc with_token world ≡ (err e, world)))
unfolding create_token
get_user-Answers_example =
    get_user-Answers jwt "issuer" "secret" database libs oidc with_token ("Bearer " +++ token) world
      refl refl

get_user-create_token_example :
    get_user jwt "issuer" "secret" database libs oidc with_token world
    ≡ Users.load database "alice" "Alice" "alice@example.com" world
unfolding create_token has_char
get_user-create_token_example =
    get_user-create_token jwt "issuer" "secret" database jwt-IsJwt libs oidc with_token world 3
      "alice" "Alice" "alice@example.com" 60 refl refl (omega arith) (omega arith)

abbrev state : String
state = sign_state (record { nonce = some "n"; next_url = some "/me" })

-- The request that comes back from the provider.
abbrev back : Request
back = record request { cookies = ("oidc_state", state) ∷ [] }

abbrev answered : Response
answered = record {
  location = "/me";
  cookies = delete_cookie "oidc_state" ∷ set_cookie "session" (pack "token" "") true 3600 ∷ [];
}

called_back : callback libs oidc 9 back "code" state ≡ ok answered
unfolding callback check_state truthy exchange session_response safe_or_root is_safe_next_url
    has_char lookup
called_back = refl

callback-IsAccepted_example : IsAccepted libs oidc 9 back "code" state answered
callback-IsAccepted_example = callback-IsAccepted libs oidc 9 back "code" state answered called_back

callback-login_example :
    callback libs oidc 9 back "code" state
    ≡ ok (session_response libs oidc 9 (safe_or_root libs oidc "/me") "token")
unfolding login safe_or_root is_safe_next_url exchange has_char lookup
callback-login_example =
    callback-login libs oidc libs-IsSigner 5 9 "n" request back "/me" "code" state "token" true 600
      refl refl (omega arith) (omega arith) refl

authenticate-callback_example :
    Oidc.authenticate libs oidc database request world
    ≡ Users.load database "alice" "Alice" "alice@example.com" world
unfolding exchange lookup
authenticate-callback_example =
    authenticate-callback libs oidc database world libs-IsSigner 9 back request "code" state "token"
      (pack "token" "") answered (delete_cookie "oidc_state") true 3600
      (record {
        name = "Alice";
        preferred_username = "alice";
        email = "alice@example.com";
        iss = "sso";
        exp = 100;
        iat = 1;
      })
      called_back refl refl refl (omega arith) (omega arith) refl refl

-- No session cookie.
abbrev anonymous : Request
anonymous = record request { cookies = [] }
