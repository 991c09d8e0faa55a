-- ===== src/Auth/Request.antt =====
-- What the code reads of a starlette request and of the route that it matched, and what it writes
-- to a response.
use automated_actions.Prelude.{ℕ, String, ◌==◌, Bool, Option, none, some, List, if◌then◌else◌}
use automated_actions.Dict.{Dict}

-- A declared query parameter of the endpoint: its name, whether it is required, and the text of
-- its default value; `none` is the default None.
pub record QueryField : Type 0 where
  pub alias : String
  pub is_required : Bool
  pub default : Option String

pub record Route : Type 0 where
  pub operation_id : String
  pub query_fields : List QueryField

pub record Request : Type 0 where
  pub path : String
  pub query : String
  pub cookies : Dict String
  -- the header "Authorization"
  pub authorization : Option String
  pub path_params : Dict String
  -- the items of the query string, in order; a key may come twice
  pub query_params : Dict String
  pub route : Route
  -- `request.url_for("login")` and `request.url_for("callback")`
  pub login_url : String
  pub callback_url : String

pub data CookieChange : Type 0 where
  -- key, value, secure, seconds that it lives; every one is httponly and samesite=lax
  set_cookie : String → String → Bool → ℕ → CookieChange
  delete_cookie : String → CookieChange

-- A RedirectResponse.
pub record Response : Type 0 where
  pub location : String
  pub cookies : List CookieChange

-- A value that Python takes for true: there is one, and it is not empty.
unfoldable pub truthy : Option String → Option String
truthy none = none
truthy (some s) = if s == "" then none else some s
