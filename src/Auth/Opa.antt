-- ===== src/Auth/Opa.antt =====
-- `OPA` of auth.py: the authorization of a request by the policy engine. The engine, and the
-- matching of regular expressions, are parameters; the engine may look at the whole state, since
-- its rate limit asks the API for the user's recent actions.
pub mod Params
pub mod Decision
pub mod Kept
use automated_actions.Prelude.{
  ℕ, String, Bool, true, false, not, ◌&&◌, Option, none, some, List, [], ◌∷◌, ◌==◌, eqb,
  if◌then◌else◌, get_or, any, is_some,
}
use automated_actions.Dict.{Dict, lookup, insert, update, has}
use automated_actions.Errors.{Exc, http}
use automated_actions.Exec.{Exec, Result, ok, err, pure, raise, lift, asks, and_then, ◌>>=◌, ◌>>◌}
use automated_actions.Db.Schema.{User, UserSchemaOut}
use automated_actions.Db.World.{Database, World}
use automated_actions.Db.Users
use automated_actions.Auth.Request.{Request, Route, QueryField}

pub record OpaInput : Type 0 where
  pub user : UserSchemaOut
  pub obj : String
  pub params : Dict String

-- The item "result" of the answer, by the keys that the code reads; a key may be missing.
pub record OpaData : Type 0 where
  pub authorized : Option Bool
  pub within_rate_limits : Option Bool
  pub objects : Option (List String)

-- The answer of the data endpoint. The body does not decode, has no result, or has one.
pub data OpaBody : Type 0 where
  undecodable no_result : OpaBody
  decision : OpaData → OpaBody

pub record OpaReply : Type 0 where
  pub status_code : ℕ
  pub body : OpaBody

-- `d.get(key)` as a condition: a missing key counts as false.
abbrev pub is_true : Option Bool → Bool
is_true none = false
is_true (some b) = b

-- One field of `OPA._apply_declared_query_defaults`.
unfoldable pub apply_default : QueryField → Dict String → Dict String
apply_default field params = elim field.default [
  | none ↦ params
  | some value ↦
      if not (has field.alias params) && not field.is_required
      then insert field.alias value params
      else params
]

-- `OPA._apply_declared_query_defaults`
unfoldable pub apply_declared_query_defaults : List QueryField → Dict String → Dict String
unfolding apply_default
apply_declared_query_defaults [] params = params
apply_declared_query_defaults (field ∷ fields) params =
    apply_declared_query_defaults fields (apply_default field params)

-- The parameters that `OPA.__call__` sends: those of the path, then of the query, the defaults,
-- and at last the extra ones; no extra ones are an empty dict.
unfoldable pub opa_params : Request → Dict String → Dict String
unfolding apply_declared_query_defaults update
opa_params request extra_params =
    update
      (apply_declared_query_defaults request.route.query_fields
        (update request.path_params request.query_params))
      extra_params

-- `OPA.user_is_authorized`
unfoldable pub user_is_authorized : OpaData → Result Exc (Unit {0})
user_is_authorized opa_data =
    if is_true opa_data.authorized then ok tt else err (http 403 "Not authorized" [])

-- `OPA.user_is_within_rate_limits`
unfoldable pub user_is_within_rate_limits : OpaData → Result Exc (Unit {0})
user_is_within_rate_limits opa_data =
    if is_true opa_data.within_rate_limits
    then ok tt
    else err (http 429 "Action rate limit exceeded!" [])

-- `OPA.should_skip_endpoint`
unfoldable pub should_skip_endpoint : List (String → Bool) → String → Bool
should_skip_endpoint skip_endpoints path = any (λ skip. skip path) skip_endpoints

-- The check of the answer in `OPA.query_opa`; a missing result is None, on which the next call
-- fails with an AttributeError. The status code is written into the message by the parameter.
unfoldable pub read_reply : (ℕ → String) → OpaReply → Result Exc OpaData
read_reply show_code reply =
    if eqb reply.status_code 200
    then elim reply.body [
      | undecodable ↦ err (http 500 "OPA returned unexpected result" [])
      | no_result ↦ err (Exc.library "AttributeError")
      | decision opa_data ↦ ok opa_data
    ]
    else err (http 500 (show_code reply.status_code) [])

-- The two checks of the decision, in their order.
unfoldable pub check_decision : OpaData → Result Exc (Unit {0})
unfolding user_is_authorized user_is_within_rate_limits
check_decision opa_data =
    and_then (user_is_authorized opa_data) (λ _. user_is_within_rate_limits opa_data)

-- An OPA instance: the patterns of `skip_endpoints`, the engine's answers, and the message of the
-- 500 for an unexpected status code.
pub record Opa (D : Database) : Type 0 where
  pub skip_endpoints : List (String → Bool)
  pub post : World D → OpaInput → OpaReply
  pub show_code : ℕ → String

module _ (D : Database) (opa : Opa D) where
  -- `OPA.query_opa`
  unfoldable pub query_opa : User → String → Dict String → World D → Result Exc OpaData
  unfolding read_reply Users.dump
  query_opa user obj params w =
      read_reply opa.show_code
        (opa.post w (record { user = Users.dump user; obj = obj; params = params }))

  -- What is left of `OPA.__call__` where the endpoint is not skipped.
  unfoldable pub enforce : Request → User → Dict String → Exec (World D) Exc User
  enforce request user extra_params = do
    opa_data ← asks (query_opa user request.route.operation_id (opa_params request extra_params))
    lift (check_decision opa_data)
    Users.set_allowed_actions D user (get_or opa_data.objects [])

  -- `OPA.__call__`; the user object comes back with its new allowed actions.
  unfoldable pub authorize : Request → User → Dict String → Exec (World D) Exc User
  authorize request user extra_params =
      if should_skip_endpoint opa.skip_endpoints request.path
      then pure user
      else enforce request user extra_params
