-- ===== src/Tests/Start.antt =====
-- The start of the service at a concrete provider, and the texts that it shows.
use automated_actions.Prelude.{◌≡◌, refl, true, false, none, some, [], ◌∷◌, ◌++◌, map}
use automated_actions.Dict.{lookup}
use automated_actions.Exec.{ok}
use automated_actions.Auth.Opa.{should_skip_endpoint}
use automated_actions.Auth.Startup.{
  Settings, Components, initialize_auth_components, create, opa_client,
}
use automated_actions.Api.Routes.{api_routes}
use automated_actions.Service.{
  App, Outside, healthz, of_api, default_flags, all_tables, app_lifespan_manager, create_db_tables,
  ensure_table, initialize_auth, include, configure_routers, validation_exception_handler,
}
use automated_actions.Service.Laws.{has_table, app_lifespan_manager-ok}

abbrev outside : Outside
outside = record {
  create_table = λ name. ok tt;
  get = λ url. ok (
      ("authorization_endpoint", "https://sso/auth")
      ∷ ("token_endpoint", "https://sso/token")
      ∷ ("userinfo_endpoint", "https://sso/userinfo")
      ∷ []);
  compile = λ pattern path. true;
}

abbrev settings : Settings
settings = record {
  url = "https://actions";
  oidc_issuer = "https://sso/";
  oidc_client_id = "actions";
  oidc_client_secret = "secret";
  session_secret = "session";
  session_timeout_secs = 3600;
  token_secret = "token";
  opa_host = "http://localhost:8181";
}

-- The table of the users is there from an earlier start.
abbrev app : App
app = record { tables = "aa-test-user" ∷ []; components = none; routes = [] }

app_lifespan_manager-ok_example :
    (components : Components) × (app' : App) × ((app_lifespan_manager outside default_flags "test"
        settings [] app).1
      ≡ app')
    × (has_table "aa-test-actions" app'.tables ≡ true)
    × (initialize_auth_components outside.get outside.compile settings ≡ ok components)
    × (app'.components ≡ some components)
    × (should_skip_endpoint components.authz.skip_endpoints "/api/v1/me" ≡ false)
    × (app'.routes ≡ ([] ++ healthz ∷ []) ++ map of_api (api_routes []))
unfolding app_lifespan_manager create_db_tables ensure_table initialize_auth include
    configure_routers initialize_auth_components create opa_client all_tables lookup
app_lifespan_manager-ok_example =
    app_lifespan_manager-ok outside "test" settings [] app "aa-test-actions" "/api/v1/me" refl refl

shown_error :
    (validation_exception_handler "1 error\n   value   wrong").message ≡ "1 error  value wrong"
unfolding validation_exception_handler
shown_error = refl
