-- ===== src/Auth/Startup.antt =====
-- How the authentication is set up when the service starts: `OpenIDConnect.create` and the
-- constructors of auth.py, and initialize_auth_components of api/__init__.py. The provider's
-- discovery document and the compilation of patterns are parameters.
use text.Mathlib.Text.{starts_with}
use automated_actions.Prelude.{
  ℕ, String, ◌≡◌, refl, Bool, true, false, none, some, List, [], map, if◌then◌else◌,
}
use automated_actions.Dict.{Dict, lookup}
use automated_actions.Text.{◌+++◌, rstrip, split, join}
use automated_actions.Errors.{Exc, library}
use automated_actions.Exec.{Result, ok, err, and_then, and_then-ok, ok-injective}
use automated_actions.Auth.Oidc.{Oidc}
use automated_actions.Auth.Opa.{should_skip_endpoint}

-- `settings`, as far as the authentication takes them.
pub record Settings : Type 0 where
  pub url : String
  pub oidc_issuer : String
  pub oidc_client_id : String
  pub oidc_client_secret : String
  pub session_secret : String
  pub session_timeout_secs : ℕ
  pub token_secret : String
  pub opa_host : String

-- The client with what its libraries are made from: the two endpoints and the signing secret.
pub record OidcClient : Type 0 where
  pub oidc : Oidc
  pub issuer : String
  pub token_endpoint : String
  pub userinfo_endpoint : String
  pub session_secret : String

pub record BearerTokens : Type 0 where
  pub issuer : String
  pub secret : String

pub record OpaClient : Type 0 where
  pub opa_url : String
  pub skip_endpoints : List (String → Bool)

-- `app.state`
pub record Components : Type 0 where
  pub oidc : OidcClient
  pub token : BearerTokens
  pub authz : OpaClient

-- `pattern in s`
has_text : String → String → Bool
has_text pattern String.[] = starts_with "" pattern
has_text pattern (String.◌∷◌ c s) =
    let rest = has_text pattern s in if starts_with (String.◌∷◌ c s) pattern then true else rest

-- `endpoints[key]`, with the text of the KeyError.
endpoint : Dict String → String → Result Exc String
unfolding lookup
endpoint endpoints key = elim (lookup key endpoints) [
  | none ↦ err (library ("'" +++ key +++ "'"))
  | some url ↦ ok url
]

-- `OpenIDConnect.create`, given the answer for a URL or what its request and decoding raise.
unfoldable pub create :
    (String → Result Exc (Dict String)) → Settings → String → Bool → Result Exc OidcClient
unfolding endpoint rstrip
create get settings scope enforce_https =
    and_then (get (rstrip 47 settings.oidc_issuer +++ "/.well-known/openid-configuration"))
      λ endpoints. and_then (endpoint endpoints "authorization_endpoint") λ authorization.
        and_then (endpoint endpoints "token_endpoint") λ token.
          and_then (endpoint endpoints "userinfo_endpoint") λ userinfo. ok (record {
            oidc = record {
              client_id = settings.oidc_client_id;
              client_secret = settings.oidc_client_secret;
              scope = scope;
              enforce_https = enforce_https;
              session_timeout_secs = settings.session_timeout_secs;
              authorization_endpoint = authorization;
            };
            issuer = settings.oidc_issuer;
            token_endpoint = token;
            userinfo_endpoint = userinfo;
            session_secret = settings.session_secret;
          })

-- `OPA.__init__`, with the function that compiles a pattern to its match.
unfoldable pub opa_client : (String → String → Bool) → String → List String → String → OpaClient
unfolding rstrip split join
opa_client compile opa_host skip_endpoints package_name = record {
  opa_url = rstrip 47 opa_host +++ "/v1/data/" +++ join "/" (split 46 package_name);
  skip_endpoints = map compile skip_endpoints;
}

-- `initialize_auth_components`
unfoldable pub initialize_auth_components :
    (String → Result Exc (Dict String))
    → (String → String → Bool)
    → Settings
    → Result Exc Components
unfolding create opa_client has_text
initialize_auth_components get compile settings =
    and_then (create get settings "openid email profile" (has_text "https://" settings.url)) λ oidc.
      ok (record {
        oidc = oidc;
        token = record { issuer = settings.url; secret = settings.token_secret };
        authz = opa_client compile settings.opa_host [] "authz";
      })

-- A service that has started skips no endpoint: the policy engine is asked for every path.
pub initialize_auth_components-asks :
    (get : String → Result Exc (Dict String)) (compile : String → String → Bool)
    (settings : Settings) (components : Components)
    → initialize_auth_components get compile settings ≡ ok components
    → (path : String) → should_skip_endpoint components.authz.skip_endpoints path ≡ false
unfolding initialize_auth_components opa_client should_skip_endpoint
initialize_auth_components-asks get compile settings components h path =
    let (oidc, is_oidc, made) =
      and_then-ok (create get settings "openid email profile" (has_text "https://" settings.url)) _
        h in
    rw (← ok-injective made) refl
