-- ===== src/Auth/Opa/Params.antt =====
-- Which value the policy engine is given for a parameter.
use automated_actions.Prelude.{
  String, ◌≡◌, not, ◌&&◌, Option, none, List, [], ◌∷◌, ◌==◌, arith, eq_iff, if◌then◌else◌, or_else,
  Option-cases, inl, inr,
}
use automated_actions.Dict.{Dict, lookup, update, last_value, lookup-insert, lookup-update}
use automated_actions.Auth.Request.{Request, QueryField}
use automated_actions.Auth.Opa.{apply_default, apply_declared_query_defaults, opa_params}

-- The default that the endpoint declares for an optional parameter, if it declares one.
abbrev pub declared_default : List QueryField → String → Option String
declared_default [] key = none
declared_default (field ∷ fields) key =
    or_else (if field.alias == key && not field.is_required then field.default else none)
      (declared_default fields key)

lookup-apply_default :
    (key : String) (field : QueryField) (params : Dict String)
    → lookup key (apply_default field params)
      ≡ or_else
          (lookup key params)
          (if field.alias == key && not field.is_required then field.default else none)
unfolding apply_default
lookup-apply_default key field params = elim (Option-cases field.default) [
  | inl e ↦ ground arith
  | inr (value, e) ↦
      ground (arith, lookup-insert field.alias key value params, eq_iff field.alias key)
]

pub lookup-apply_declared_query_defaults :
    (key : String) (fields : List QueryField) (params : Dict String)
    → lookup key (apply_declared_query_defaults fields params)
      ≡ or_else (lookup key params) (declared_default fields key)
unfolding apply_declared_query_defaults
lookup-apply_declared_query_defaults key [] params = ground arith
lookup-apply_declared_query_defaults key (field ∷ fields) params = ground (
  arith,
  lookup-apply_declared_query_defaults key fields (apply_default field params),
  lookup-apply_default key field params,
)

-- The extra parameters come first, then the last value of the query string, then the path, and
-- at last the declared default of an optional parameter.
pub lookup-opa_params :
    (key : String) (request : Request) (extra_params : Dict String)
    → lookup key (opa_params request extra_params)
      ≡ or_else (last_value key extra_params) (
          or_else (last_value key request.query_params) (
            or_else
              (lookup key request.path_params)
              (declared_default request.route.query_fields key)))
unfolding opa_params
lookup-opa_params key request extra_params = ground (
  arith,
  lookup-update key
      (apply_declared_query_defaults request.route.query_fields
        (update request.path_params request.query_params))
      extra_params,
  lookup-apply_declared_query_defaults key request.route.query_fields
      (update request.path_params request.query_params),
  lookup-update key request.path_params request.query_params,
)
