-- ===== src/Utils/Gql.antt =====
-- gql_client.py: the client for the GraphQL server of app-interface. The transport of the package
-- gql is a parameter.
use automated_actions.Prelude.{ℕ, String, Option, none, some, [], ◌∷◌}
use automated_actions.Dict.{Dict}
use automated_actions.Errors.{Exc}
use automated_actions.Exec.{Result}
use automated_actions.Auth.Request.{truthy}

-- `RequestsHTTPTransport` with its arguments.
pub record Transport : Type 0 where
  pub url : String
  pub retries : ℕ
  pub headers : Option (Dict String)

-- What a query comes to: the item "data" of the result, if it has one.
pub record Gql : Type 1 where
  pub Data : Type 0
  pub Variables : Type 0
  pub execute : Transport → String → Option Variables → Result Exc (Option Data)

-- `GQLClient.__init__`, with the default of three retries that all callers leave
unfoldable pub gql_client : String → Option String → Transport
unfolding truthy
gql_client url token = record {
  url = url;
  retries = 3;
  headers = elim (truthy token) [ none ↦ none | some t ↦ some (("Authorization", t) ∷ []) ];
}

-- `GQLClient.query`; data that the result lacks is None.
unfoldable pub query :
    (gql : Gql) → Transport → String → Option gql.Variables → Result Exc (Option gql.Data)
query gql client text variables = gql.execute client text variables
