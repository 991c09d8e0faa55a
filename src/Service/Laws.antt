-- ===== src/Service/Laws.antt =====
-- What a service that has started serves.
use automated_actions.Prelude.{
  String, ◌≡◌, refl, ap, ◌∙◌, inl, inr, Bool, true, false, ◌||◌, some, List, [], ◌∷◌, ◌++◌, ◌==◌,
  map, any, Bool-cases, eq_iff, eq_refl, arith,
}
use automated_actions.Errors.{Exc}
use automated_actions.Exec.{Result, ok, err, Result-cases, ◌>>◌, bind-ok, bind-step}
use automated_actions.Auth.Opa.{should_skip_endpoint}
use automated_actions.Auth.Startup.{
  Settings, Components, initialize_auth_components, initialize_auth_components-asks,
}
use automated_actions.Api.Routes.{ApiRoute, api_routes}
use automated_actions.Service.{
  healthz, of_api, App, Outside, default_flags, all_tables, ensure_table, create_db_tables,
  initialize_auth, include, configure_routers, app_lifespan_manager,
}

-- `name in tables`
abbrev pub has_table : String → List String → Bool
has_table name tables = any (λ t. t == name) tables

has_table-append :
    (name : String) (tables : List String) (more : List String)
    → has_table name (tables ++ more) ≡ (has_table name tables || has_table name more)
has_table-append name [] more = refl
has_table-append name (t ∷ tables) more = ground (arith, has_table-append name tables more)

-- The tables that were there still are, and all else is as it was.
pub record IsGrown (a b : App) : Type 0 where
  pub kept : (t : String) → has_table t a.tables ≡ true → has_table t b.tables ≡ true
  pub components : b.components ≡ a.components
  pub routes : b.routes ≡ a.routes

IsGrown-trans : {a b c : App} → IsGrown a b → IsGrown b c → IsGrown a c
IsGrown-trans h e = record {
  kept = λ t there. e.kept t (h.kept t there);
  components = e.components ∙ h.components;
  routes = e.routes ∙ h.routes;
}

either : (x y : Bool) → x ≡ true → (x || y) ≡ true
either x y h = ground arith

second : (x y : Bool) → y ≡ true → (x || y) ≡ true
second x y h = ground arith

has_table_self : (name : String) → has_table name (name ∷ []) ≡ true
has_table_self name = rw (eq_refl name) refl

module _ (outside : Outside) where
  ensure_table-old :
      (name : String) (a : App)
      → has_table name a.tables ≡ true
      → ensure_table outside name a ≡ (ok tt, a)
  unfolding ensure_table
  ensure_table-old name a e = rw e refl

  ensure_table-new :
      (name : String) (a : App) (u : Unit {0})
      → has_table name a.tables ≡ false
      → outside.create_table name ≡ ok u
      → ensure_table outside name a ≡ (ok tt, record a { tables = a.tables ++ name ∷ [] })
  unfolding ensure_table
  ensure_table-new name a u e made = rw (e, made) refl

  ensure_table-refused :
      (name : String) (a : App) (x : Exc)
      → has_table name a.tables ≡ false
      → outside.create_table name ≡ err x
      → ensure_table outside name a ≡ (err x, a)
  unfolding ensure_table
  ensure_table-refused name a x e refused = rw (e, refused) refl

  err-ne-ok : {x : Exc} → ◌≡◌ {A = Result Exc (Unit {0})} (err x) (ok tt) → ⊥
  err-ne-ok h = cc

  ensure_table-ok :
      (name : String) (a : App)
      → (ensure_table outside name a).0 ≡ ok tt
      → IsGrown a (ensure_table outside name a).1
        × (has_table name (ensure_table outside name a).1.tables ≡ true)
  ensure_table-ok name a h = elim (Bool-cases (has_table name a.tables)) [
    | inl old ↦
        rw (ensure_table-old name a old)
          (record { kept = λ t there. there; components = refl; routes = refl }, old)
    | inr new ↦ elim (Result-cases (outside.create_table name)) [
      | inl (u, made) ↦ rw (ensure_table-new name a u new made) (
        record {
          kept = λ t there.
              has_table-append t a.tables (name ∷ [])
              ∙ either (has_table t a.tables) (has_table t (name ∷ [])) there;
          components = refl;
          routes = refl;
        },
        has_table-append name a.tables (name ∷ [])
            ∙ second (has_table name a.tables) (has_table name (name ∷ [])) (has_table_self name),
      )
      | inr (x, refused) ↦ absurd (err-ne-ok (rw (ensure_table-refused name a x new refused) at h))
    ]
  ]

  -- The start of the loop is its first table.
  create_db_tables-ok :
      (names : List String) (a : App)
      → (create_db_tables outside names a).0 ≡ ok tt
      → IsGrown a (create_db_tables outside names a).1
        × ((t : String)
            → has_table t names ≡ true
            → has_table t (create_db_tables outside names a).1.tables ≡ true)
  unfolding create_db_tables
  create_db_tables-ok [] a h =
      (record { kept = λ t there. there; components = refl; routes = refl }, λ t there. cc)
  create_db_tables-ok (name ∷ names) a h =
      let (u, first, more) =
        bind-ok (ensure_table outside name) (λ _. create_db_tables outside names) a h in
      let (grown, there) = ensure_table-ok name a first in
      let (grown', all) = create_db_tables-ok names (ensure_table outside name a).1 more in
      rw (bind-step (ensure_table outside name) (λ _. create_db_tables outside names) a u first) (
        IsGrown-trans grown grown',
        λ t among. elim (Bool-cases (name == t)) [
          | inl e ↦ grown'.kept t (rw (← (eq_iff name t).0 e) there)
          | inr e ↦ all t (rw e at among)
        ],
      )

  initialize_auth-ok :
      (settings : Settings) (a : App)
      → (initialize_auth outside settings a).0 ≡ ok tt
      → (c : Components) × (initialize_auth_components outside.get outside.compile settings ≡ ok c)
        × (initialize_auth outside settings a ≡ (ok tt, record a { components = some c }))
  unfolding initialize_auth
  initialize_auth-ok settings a h =
      elim (Result-cases (initialize_auth_components outside.get outside.compile settings)) [
        | inl (c, made) ↦ (c, made, rw made refl)
        | inr (x, refused) ↦ absurd (err-ne-ok (rw refused at h))
      ]

  -- What is included once the components are there.
  included :
      (settings : Settings) (oidc_router : List ApiRoute) (a : App) (c : Components)
      → initialize_auth outside settings a ≡ (ok tt, record a { components = some c })
      → (initialize_auth outside settings
            >> (include outside (healthz ∷ []) >> configure_routers outside oidc_router))
          a
        ≡ (
          ok tt,
          record a {
            components = some c;
            routes = (a.routes ++ healthz ∷ []) ++ map of_api (api_routes oidc_router);
          },
        )
  unfolding include configure_routers
  included settings oidc_router a c e =
      bind-step (initialize_auth outside settings) _ a tt (ap (λ r. r.0) e)
      ∙ ap
          (λ (r : Result Exc (Unit {0}) × App).
            (include outside (healthz ∷ []) >> configure_routers outside oidc_router) r.1)
          e

  -- Where the start with the default flags ended without an exception: the tables of users and
  -- actions are there, the authentication is the one made from the settings, its policy engine is
  -- asked for every path, and the application serves what it served, the health check, and the
  -- routes of the API, those of the login among them.
  pub app_lifespan_manager-ok :
      (environment : String) (settings : Settings) (oidc_router : List ApiRoute) (app : App)
      (table path : String)
      → (app_lifespan_manager outside default_flags environment settings oidc_router app).0 ≡ ok tt
      → has_table table (all_tables environment) ≡ true
      → (components : Components) × (app' : App) × ((app_lifespan_manager outside default_flags
            environment settings oidc_router app).1
          ≡ app')
        × (has_table table app'.tables ≡ true)
        × (initialize_auth_components outside.get outside.compile settings ≡ ok components)
        × (app'.components ≡ some components)
        × (should_skip_endpoint components.authz.skip_endpoints path ≡ false)
        × (app'.routes ≡ (app.routes ++ healthz ∷ []) ++ map of_api (api_routes oidc_router))
  unfolding app_lifespan_manager initialize_auth include configure_routers
  app_lifespan_manager-ok environment settings oidc_router app table path h among =
      let first = create_db_tables outside (all_tables environment) in
      let (u, created, h1) = bind-ok first _ app h in
      let (grown, all) = create_db_tables-ok (all_tables environment) app created in
      let (v, initialized, h2) = bind-ok (initialize_auth outside settings) _ (first app).1 h1 in
      let (c, made, state) = initialize_auth-ok settings (first app).1 initialized in
      (
        c,
        record (first app).1 {
          components = some c;
          routes = (app.routes ++ healthz ∷ []) ++ map of_api (api_routes oidc_router);
        },
        ap (λ r. r.1) (bind-step first _ app u created)
            ∙ (ap (λ r. r.1) (included settings oidc_router (first app).1 c state)
                ∙ ap
                    (λ routes. record (first app).1 {
                      components = some c;
                      routes = (routes ++ healthz ∷ []) ++ map of_api (api_routes oidc_router);
                    })
                    grown.routes),
        all table among,
        made,
        refl,
        initialize_auth_components-asks outside.get outside.compile settings c made path,
        refl,
      )
