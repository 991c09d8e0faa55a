-- ===== src/Service.antt =====
-- packages/automated_actions/automated_actions/app_factory.py and api/__init__.py: how the API
-- starts. The creation of a table, the provider's discovery document and the compilation of patterns
-- are parameters.
pub mod Laws
pub mod Schema
use Prim.Native.Char.{code}
use Prim.Native.String
use text.Mathlib.Text.{starts_with}
use automated_actions.Prelude.{
  ℕ, zero, suc, String, Bool, true, false, Option, none, some, List, [], ◌∷◌, ◌++◌, ◌==◌, map, any,
  eqb, is_some, if◌then◌else◌,
}
use automated_actions.Dict.{Dict}
use automated_actions.Text.{◌+++◌}
use automated_actions.Errors.{Exc}
use automated_actions.Exec.{Exec, Result, pure, lift, gets, modify, ◌>>=◌, ◌>>◌}
use automated_actions.Auth.Startup.{Settings, Components, initialize_auth_components}
use automated_actions.Api.Routes.{ApiRoute, api_routes}

-- The route of the health check, and those of the API.
pub data AppRoute : Type 0 where
  healthz : AppRoute
  of_api : ApiRoute → AppRoute

-- The tables that DynamoDB has, `app.state`, and the routes of the application.
pub record App : Type 0 where
  pub tables : List String
  pub components : Option Components
  pub routes : List AppRoute

-- The arguments of `create_app`.
pub record Flags : Type 0 where
  pub run_db_init : Bool
  pub run_auth_init : Bool
  pub run_router_config : Bool

abbrev pub default_flags : Flags
default_flags = record { run_db_init = true; run_auth_init = true; run_router_config = true }

-- `ALL_TABLES`: the names of the tables of users and actions in an environment.
unfoldable pub all_tables : String → List String
all_tables environment =
    ("aa-" +++ environment +++ "-user") ∷ ("aa-" +++ environment +++ "-actions") ∷ []

abbrev pub Start : Type 0
Start = Exec App Exc (Unit {0})

-- `if flag: m`
abbrev pub when : Bool → Start → Start
when true m app = m app
when false m app = pure tt app

-- What the start takes from DynamoDB and from the OpenID provider.
pub record Outside : Type 0 where
  pub create_table : String → Result Exc (Unit {0})
  pub get : String → Result Exc (Dict String)
  pub compile : String → String → Bool

module _ (outside : Outside) where
  -- The body of the loop of `create_db_tables`
  unfoldable pub ensure_table : String → Start
  ensure_table name app =
      if any (λ t. t == name) app.tables
      then pure tt app
      else (do
        lift (outside.create_table name)
        modify (λ (a : App). record a { tables = a.tables ++ name ∷ [] }))
          app

  unfoldable pub create_db_tables : List String → Start
  unfolding ensure_table
  create_db_tables [] = pure tt
  create_db_tables (name ∷ names) = do ensure_table name; create_db_tables names

  unfoldable pub initialize_auth : Settings → Start
  initialize_auth settings = do
    components ← lift (initialize_auth_components outside.get outside.compile settings)
    modify (λ (a : App). record a { components = some components })

  -- `app.include_router`
  unfoldable pub include : List AppRoute → Start
  include routes = modify (λ (a : App). record a { routes = a.routes ++ routes })

  -- `configure_routers` and the inclusion of `api_router`: the routes of the login are there only if
  -- the OpenID client is.
  unfoldable pub configure_routers : List ApiRoute → Start
  unfolding include
  configure_routers oidc_router = do
    ready ← gets (λ (a : App). is_some a.components)
    include (map of_api (api_routes (if ready then oidc_router else [])))

  -- `app_lifespan_manager`, up to its `yield`
  unfoldable pub app_lifespan_manager : Flags → String → Settings → List ApiRoute → Start
  unfolding create_db_tables initialize_auth include configure_routers
  app_lifespan_manager flags environment settings oidc_router = do
    when flags.run_db_init (create_db_tables (all_tables environment))
    when flags.run_auth_init (initialize_auth settings)
    include (healthz ∷ [])
    when flags.run_router_config (configure_routers oidc_router)

-- `s.replace("\n", " ")`
unfoldable pub without_newlines : String → String
without_newlines String.[] = ""
without_newlines (String.◌∷◌ c s) =
    let rest = without_newlines s in if eqb (code c) 10 then " " +++ rest else String.◌∷◌ c rest

-- `s.replace("   ", " ")`, with the number of characters that are left of a match
shortened : ℕ → String → String
shortened _ String.[] = ""
shortened (suc n) (String.◌∷◌ c s) = shortened n s
shortened zero (String.◌∷◌ c s) =
    let found = starts_with (String.◌∷◌ c s) "   " in
    let rest = shortened (if found then 2 else 0) s in
    if found then " " +++ rest else String.◌∷◌ c rest

pub record ErrorContent : Type 0 where
  pub status_code : ℕ
  pub message : String

-- `validation_exception_handler`, for the text of the exception; the content has no data.
unfoldable pub validation_exception_handler : String → ErrorContent
unfolding without_newlines shortened
validation_exception_handler text = record {
  status_code = 422;
  message = shortened 0 (without_newlines text);
}
