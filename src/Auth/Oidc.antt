-- ===== src/Auth/Oidc.antt =====
-- `OpenIDConnect` of auth.py: login, callback, logout and the session check. The OpenID provider,
-- the signing of tokens, JWT decoding and URL quoting are parameters.
pub mod Laws
pub mod Kept
use automated_actions.Prelude.{
  ℕ, String, ◌+◌, ◌/◌, ◌≤◌, ◌≡◌, Bool, true, false, Option, none, some, List, [], ◌∷◌, ◌==◌,
  if◌then◌else◌, get_or,
}
use automated_actions.Dict.{Dict, lookup}
use automated_actions.Text.{◌+++◌}
use automated_actions.Errors.{Exc, http}
use automated_actions.Exec.{Exec, Result, ok, err, raise, lift, gets, catch, and_then, ◌>>=◌, ◌>>◌}
use automated_actions.Db.Schema.{User}
use automated_actions.Db.World.{Database, World}
use automated_actions.Db.Actions.{second}
use automated_actions.Db.Users
use automated_actions.Auth.Request.{
  Request, Response, CookieChange, set_cookie, delete_cookie, truthy,
}
use automated_actions.Auth.NextUrl.{is_safe_next_url}

-- `OIDC_STATE_MAX_AGE_SECS`
abbrev pub oidc_state_max_age_secs : ℕ
oidc_state_max_age_secs = 600

pub record AccessToken : Type 0 where
  pub name : String
  pub preferred_username : String
  pub email : String
  pub iss : String
  pub exp : ℕ
  pub iat : ℕ

-- The content of the signed state; a forged state that verifies could lack the URL.
pub record StateData : Type 0 where
  pub nonce : Option String
  pub next_url : Option String

pub record TokenRequest : Type 0 where
  pub code : String
  pub redirect_uri : String
  pub client_id : String
  pub client_secret : String

-- The answer of the token endpoint: its status and the item "access_token" of its JSON body.
pub record TokenReply : Type 0 where
  pub status_code : ℕ
  pub access_token : Result Exc String

-- What the class takes from other packages and from the provider. Tokens are signed and checked
-- at a time in seconds; `none` is a bad signature or a token that is older than allowed.
pub record OidcLibs : Type 0 where
  pub urlsplit : String → String × String
  -- `quote(s)` and `quote(s, safe="")`
  pub quote : String → String
  pub quote_all : String → String
  pub sign_state : ℕ → StateData → String
  pub load_state : ℕ → ℕ → String → Option StateData
  pub sign_session : ℕ → String → String
  pub load_session : ℕ → ℕ → String → Option String
  pub post_token : TokenRequest → TokenReply
  pub is_success : ℕ → Bool
  -- the request to the userinfo endpoint, and the decoding of the token without its signature
  pub get_userinfo : String → Result Exc (Unit {0})
  pub decode_unverified : String → Result Exc AccessToken

-- What itsdangerous documents: a token loads until it is older than the age given.
pub record IsSigner (L : OidcLibs) : Type 0 where
  pub load_state-sign_state :
      (t now age : ℕ) (d : StateData)
      → t ≤ now
      → now ≤ t + age
      → L.load_state now age (L.sign_state t d) ≡ some d
  pub load_session-sign_session :
      (t now age : ℕ) (token : String)
      → t ≤ now
      → now ≤ t + age
      → L.load_session now age (L.sign_session t token) ≡ some token
  -- a signed token is no empty text
  pub sign_state-nonempty : (t : ℕ) (d : StateData) → (L.sign_state t d == "") ≡ false
  pub sign_session-nonempty : (t : ℕ) (token : String) → (L.sign_session t token == "") ≡ false

pub record Oidc : Type 0 where
  pub client_id : String
  pub client_secret : String
  pub scope : String
  pub enforce_https : Bool
  pub session_timeout_secs : ℕ
  pub authorization_endpoint : String

module _ (L : OidcLibs) (oidc : Oidc) where
  open L use {
    quote, quote_all, sign_state, load_state, sign_session, load_session, post_token, is_success,
    get_userinfo, decode_unverified,
  }

  -- The URL that a login goes on to: the given one if it is safe, and "/" if it is not.
  unfoldable pub safe_or_root : String → String
  unfolding is_safe_next_url
  safe_or_root next_url = if is_safe_next_url L.urlsplit next_url then next_url else "/"

  unfoldable pub auth_url : Request → String → String
  auth_url request state_token =
      oidc.authorization_endpoint
      +++ "?response_type=code"
      +++ "&scope="
      +++ quote oidc.scope
      +++ "&client_id="
      +++ quote oidc.client_id
      +++ "&redirect_uri="
      +++ quote_all request.callback_url
      +++ "&state="
      +++ quote state_token

  -- `OpenIDConnect.login` at a time, with a nonce drawn.
  unfoldable pub login : ℕ → String → Request → String → Response
  unfolding safe_or_root auth_url
  login now nonce request next_url =
      let state_token =
        sign_state now (record { nonce = some nonce; next_url = some (safe_or_root next_url) }) in
      record {
        location = auth_url request state_token;
        cookies =
            set_cookie "oidc_state" state_token oidc.enforce_https oidc_state_max_age_secs ∷ [];
      }

  or_expired : Option StateData → Result Exc StateData
  or_expired none = err (http 400 "Invalid or expired state" [])
  or_expired (some state_data) = ok state_data

  compare_state : ℕ → String → Option String → Result Exc StateData
  unfolding or_expired
  compare_state now state none = err (http 400 "Invalid or missing state" [])
  compare_state now state (some state_cookie) =
      if state_cookie == state
      then or_expired (load_state now oidc_state_max_age_secs state)
      else err (http 400 "Invalid or missing state" [])

  -- The cookies are compared, and the state is loaded.
  unfoldable pub check_state : ℕ → Request → String → Result Exc StateData
  unfolding truthy compare_state
  check_state now request state =
      compare_state now state (truthy (lookup "oidc_state" request.cookies))

  -- The code is exchanged for an access token.
  unfoldable pub exchange : Request → String → Result Exc String
  exchange request code =
      let reply = post_token (record {
        code = code;
        redirect_uri = request.callback_url;
        client_id = oidc.client_id;
        client_secret = oidc.client_secret;
      }) in
      if is_success reply.status_code
      then reply.access_token
      else err (http 400 "Token request failed" [])

  unfoldable pub session_response : ℕ → String → String → Response
  session_response now next_url access_token = record {
    location = next_url;
    cookies =
        delete_cookie "oidc_state"
        ∷ set_cookie "session" (sign_session now access_token) oidc.enforce_https
            oidc.session_timeout_secs
        ∷ [];
  }

  -- `OpenIDConnect.callback`
  unfoldable pub callback : ℕ → Request → String → String → Result Exc Response
  unfolding check_state exchange session_response safe_or_root
  callback now request code state = and_then (check_state now request state) λ state_data.
      and_then (exchange request code) λ access_token.
        ok (session_response now (safe_or_root (get_or state_data.next_url "/")) access_token)

  -- `OpenIDConnect.logout`
  unfoldable pub logout : Response
  logout = record { location = "/"; cookies = delete_cookie "session" ∷ [] }

  -- The 307 that sends the browser to the login, to come back to where it was.
  unfoldable pub enforce_login : Request → Exc
  enforce_login request =
      let next_url =
        if request.query == "" then request.path else request.path +++ "?" +++ request.query in
      http 307 "Not authenticated"
        (("Location", request.login_url +++ "?next_url=" +++ quote next_url) ∷ [])

  load_or_raise : Option String → Result Exc String
  load_or_raise none = err (Exc.library "BadSignature")
  load_or_raise (some token) = ok token

  module _ (D : Database) where
    -- `OpenIDConnect.get_user_info`
    unfoldable pub get_user_info : String → Exec (World D) Exc User
    get_user_info access_token = do
      lift (get_userinfo access_token)
      token ← lift (decode_unverified access_token)
      Users.load D token.preferred_username token.name token.email

    session_user : String → Exec (World D) Exc User
    unfolding load_or_raise get_user_info
    session_user session_token = do
      now ← gets (λ w. w.clock / second)
      access_token ← lift (load_or_raise (load_session now oidc.session_timeout_secs session_token))
      get_user_info access_token

    with_session : Request → Option String → Exec (World D) Exc User
    unfolding session_user enforce_login
    with_session request none = raise (enforce_login request)
    with_session request (some session_token) =
        catch (session_user session_token) (λ _. raise (enforce_login request))

    -- `OpenIDConnect.__call__`
    unfoldable pub authenticate : Request → Exec (World D) Exc User
    unfolding with_session truthy
    authenticate request = with_session request (truthy (lookup "session" request.cookies))
