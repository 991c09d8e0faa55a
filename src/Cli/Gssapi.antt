-- ===== src/Cli/Gssapi.antt =====
-- _gssapi.py: the Kerberos handshake around a request. The GSSAPI, the base64 codec and the regular
-- expression are parameters, and so is the server: the flow sends a request and goes on with
-- whatever response comes back.
pub mod Laws
pub mod Mutual
pub mod Resends
use automated_actions.Prelude.{
  ℕ, zero, suc, String, Bool, true, false, not, ◌&&◌, ◌||◌, Option, none, some, List, [], ◌∷◌, ◌++◌,
  eqb, leb, if◌then◌else◌, ◌==◌,
}
use automated_actions.Dict.{Dict, lookup, insert}
use automated_actions.Text.{◌+++◌, has_char}
use automated_actions.Errors.{
  Exc, raised, http, api_exception, vault_error, ErrorClass, type_error,
  mutual_authentication_error, spnego_exchange_error,
}
use automated_actions.Exec.{Result, ok, err, and_then}
use automated_actions.Auth.Request.{truthy}

-- httpx2.Request, as far as the flow reads or changes it.
pub record Request : Type 0 where
  pub host : String
  pub headers : Dict String

-- httpx2.Response; the names of the headers are in lower case, and the values of a header that
-- comes several times are joined.
pub record Response : Type 0 where
  pub status_code : ℕ
  pub headers : Dict String
  pub cookies : Dict String
  pub content : String
  pub is_stream_consumed : Bool
  pub request : Request
  -- `str(response)`
  pub shown : String

-- What a call of the GSSAPI raises: a GSSError with its message, or anything else.
pub data Failure : Type 0 where
  gss_error : String → Failure
  other : Exc → Failure

pub data RequirementFlag : Type 0 where
  out_of_sequence_detection delegate_to_peer mutual_authentication : RequirementFlag

-- The package gssapi, base64, and `_find_auth`, the first group of the match.
pub record Gss : Type 1 where
  pub Name : Type 0
  pub Credentials : Type 0
  pub Mechanism : Type 0
  pub Context : Type 0
  pub new_name : Option String → Result Failure Name
  pub new_context :
      Name → Option Credentials → Option Mechanism → List RequirementFlag → Result Failure Context
  -- the token to be sent, which may be None, and the context after the step
  pub step : Context → Option String → Result Failure (Option String × Context)
  pub b64decode : String → Result Exc String
  pub b64encode : String → String
  pub find_auth : String → Option String

-- `target_name`: None, a text, or a name of the GSSAPI
pub data TargetName (Name : Type 0) : Type 0 where
  no_name : TargetName Name
  host_service : String → TargetName Name
  gss_name : Name → TargetName Name

abbrev pub required : ℕ
required = 1

abbrev pub optional : ℕ
optional = 2

abbrev pub disabled : ℕ
disabled = 3

-- The attributes of `HTTPSPNEGOAuth`.
pub record HttpSpnegoAuth (gss : Gss) : Type 0 where
  pub mutual_auth : ℕ
  pub target_name : TargetName gss.Name
  pub delegate : Bool
  pub opportunistic_auth : Bool
  pub creds : Option gss.Credentials
  pub mech : Option gss.Mechanism
  pub sanitize_mutual_error_response : Bool

-- `auth_flow` as a generator: it sends a request and goes on with the response, returns, where the
-- last response is the result, or raises.
pub data Flow : Type 0 where
  sends : Request → (Response → Flow) → Flow
  returns : Response → Flow
  raises : Exc → Flow

unfoldable pub keep_header : Response → String → Dict String → Dict String
unfolding lookup insert
keep_header response header headers = elim (lookup header response.headers) [
  | none ↦ headers
  | some value ↦ insert header value headers
]

-- `_sanitize_response`
unfoldable pub sanitize_response : Response → Response
unfolding keep_header
sanitize_response response = record {
  status_code = response.status_code;
  headers =
      keep_header response "server" (keep_header response "date" (("content-length", "0") ∷ []));
  cookies = [];
  content = "";
  is_stream_consumed = true;
  request = response.request;
  shown = response.shown;
}

-- `_handle_gsserror`: `on_error` is what the decorator does with the message.
unfoldable pub handle_gsserror :
    {A : Type 0} → String → (String → Result Exc A) → Result Failure A → Result Exc A
handle_gsserror gss_stage on_error (ok a) = ok a
handle_gsserror gss_stage on_error (err (gss_error text)) =
    on_error (gss_stage +++ " context failed: " +++ text)
handle_gsserror gss_stage on_error (err (other e)) = err e

-- `_gss_to_spnego_error`; a request is among the arguments of both functions that it is used with.
unfoldable pub gss_to_spnego_error : {A : Type 0} → String → Result Exc A
gss_to_spnego_error text = err (raised spnego_exchange_error text)

is_spnego_class : ErrorClass → Bool
is_spnego_class spnego_exchange_error = true
is_spnego_class _ = false

-- `except SPNEGOExchangeError`
unfoldable pub is_spnego : Exc → Bool
unfolding is_spnego_class
is_spnego (raised class text) = is_spnego_class class
is_spnego (http status detail headers) = false
is_spnego (api_exception status text) = false
is_spnego (vault_error class text) = false
is_spnego (Exc.library text) = false

-- `_gssflags`
unfoldable pub gssflags : {gss : Gss} → HttpSpnegoAuth gss → List RequirementFlag
gssflags auth =
    (out_of_sequence_detection ∷ [])
    ++ ((if auth.delegate then delegate_to_peer ∷ [] else [])
        ++ (if not (eqb auth.mutual_auth disabled) then mutual_authentication ∷ [] else []))

module _ (gss : Gss) where
  open gss use {Name, Context, new_name, new_context, step, b64decode, b64encode, find_auth}

  -- `_negotiate_value`
  unfoldable pub negotiate_value : Response → Result Exc (Option String)
  unfolding lookup truthy
  negotiate_value response = elim (truthy (lookup "www-authenticate" response.headers)) [
    | none ↦ ok none
    | some header ↦ elim (find_auth header) [
      | none ↦ ok none
      | some group ↦ and_then (b64decode group) λ token. ok (some token)
    ]
  ]

  -- `isinstance(name, str) and "@" not in name`
  with_host : String → String → String
  unfolding has_char
  with_host host name = if has_char b'@' name then name else name +++ "@" +++ host

  name_of : TargetName Name → String → Result Failure Name
  unfolding with_host
  name_of no_name host = new_name none
  name_of (host_service name) host = new_name (some (with_host host name))
  name_of (gss_name name) host = ok name

  module _ (auth : HttpSpnegoAuth gss) where
    -- `_make_context`
    unfoldable pub make_context : Request → Result Exc Context
    unfolding name_of gssflags handle_gsserror gss_to_spnego_error
    make_context request = handle_gsserror "initializing" gss_to_spnego_error (
        and_then (name_of auth.target_name request.host)
          λ name. new_context name auth.creds auth.mech (gssflags auth))

    -- `token or None` of the response, if there is one
    challenge : Option Response → Result Exc (Option String)
    unfolding negotiate_value truthy
    challenge none = ok none
    challenge (some response) = and_then (negotiate_value response) λ token. ok (truthy token)

    -- `b64encode(gss_resp)`
    encoded : Option String → Result Exc String
    encoded none = err (raised type_error "a bytes-like object is required, not 'NoneType'")
    encoded (some token) = ok (b64encode token)

    -- `set_auth_header`: the context, and the request with the header.
    unfoldable pub set_auth_header : Request → Option Response → Result Exc (Context × Request)
    unfolding make_context challenge encoded handle_gsserror gss_to_spnego_error insert
    set_auth_header request response = and_then (make_context request) λ ctx.
        and_then (challenge response) λ token.
          and_then (handle_gsserror "stepping" gss_to_spnego_error (step ctx token)) λ stepped.
            and_then (encoded stepped.0) λ value. ok (
              stepped.1,
              record request {
                headers = insert "Authorization" ("Negotiate " +++ value) request.headers;
              },
            )

    -- `authenticate_server`
    unfoldable pub authenticate_server : Response → Context → Result Exc Bool
    unfolding negotiate_value handle_gsserror
    authenticate_server response ctx = and_then (negotiate_value response) λ auth_header.
        handle_gsserror "stepping" (λ _. ok false) (and_then (step ctx auth_header) λ _. ok true)

    unfoldable pub unable : Response → Result Exc Response
    unable response =
        err (raised mutual_authentication_error ("Unable to authenticate " +++ response.shown))

    unfoldable pub sanitized : Response → Response
    unfolding sanitize_response
    sanitized response =
        if eqb auth.mutual_auth required && auth.sanitize_mutual_error_response
        then sanitize_response response
        else response

    -- What follows the test for a token in the response.
    unfoldable pub checked : Response → Context → Option String → Result Exc Response
    unfolding authenticate_server unable sanitized
    checked response ctx (some _) =
        and_then (authenticate_server response ctx)
          λ is_authentic. if is_authentic then ok response else unable response
    checked response ctx none =
        if leb 400 response.status_code || eqb auth.mutual_auth optional
        then ok (sanitized response)
        else unable response

    -- `handle_mutual_auth`: the response as it is left.
    unfoldable pub handle_mutual_auth : Response → Context → Result Exc Response
    unfolding negotiate_value checked
    handle_mutual_auth response ctx =
        if eqb auth.mutual_auth disabled
        then ok response
        else and_then (negotiate_value response) (checked response ctx)

    unfoldable pub flow_of : Result Exc Response → Flow
    flow_of (ok response) = returns response
    flow_of (err e) = raises e

    -- What follows the loop of `handle_response`.
    unfoldable pub finish : Response → Option Context → Flow
    unfolding handle_mutual_auth flow_of
    finish response none = returns response
    finish response (some ctx) =
        if eqb response.status_code 401
        then returns response
        else flow_of (handle_mutual_auth response ctx)

    -- The request goes out again, with the new header if there is one.
    unfoldable pub resend :
        (Response → Option Context → Flow)
        → Request
        → Option Context
        → Result Exc (Context × Request)
        → Flow
    unfolding is_spnego
    resend go sent ctx (ok (new_ctx, request)) = sends request λ next. go next (some new_ctx)
    resend go sent ctx (err e) = if is_spnego e then (sends sent λ next. go next ctx) else raises e

    -- The body of the loop of `handle_response`, which goes on with `go`.
    unfoldable pub retry :
        (Response → Option Context → Flow)
        → Response
        → Option Context
        → Result Exc (Option String)
        → Flow
    unfolding finish set_auth_header resend
    retry go response ctx (err e) = raises e
    retry go response ctx (ok none) = finish response ctx
    retry go response ctx (ok (some _)) =
        resend go response.request ctx (set_auth_header response.request (some response))

    -- `handle_response` with the number of retries that are left
    unfoldable pub handle_response : ℕ → Response → Option Context → Flow
    unfolding finish negotiate_value retry
    handle_response zero response ctx = finish response ctx
    handle_response (suc retries) response ctx =
        if eqb response.status_code 401
        then (retry (λ next new_ctx. handle_response retries next new_ctx) response ctx
            (negotiate_value response))
        else finish response ctx

    abbrev pub max_401_retries : ℕ
    max_401_retries = 2

    unfoldable pub started : Result Exc (Context × Request) → Flow
    unfolding handle_response
    started (ok (ctx, request)) =
        sends request λ response. handle_response max_401_retries response (some ctx)
    started (err e) = raises e

    -- `auth_flow`
    unfoldable pub auth_flow : Request → Flow
    unfolding set_auth_header handle_response started
    auth_flow request =
        if auth.opportunistic_auth
        then started (set_auth_header request none)
        else (sends request λ response. handle_response max_401_retries response none)
